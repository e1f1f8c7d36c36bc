-- ===== src/Palettes/Edges/Pass.antt =====
-- One pass over the image: which pixels it fills, and with what.
use voria.Prelude.{
  ℕ, zero, suc, ◌+◌, ◌*◌, ◌/◌, ◌%◌, ◌≤◌, ◌<◌, ◌≡◌, refl, inl, inr, Bool, true, false, ◌||◌, Option,
  some, List, [], ◌∷◌, ◌++◌, arith, ◌==◌, if◌then◌else◌, get_or, set, length, Bool-cases,
  with_value_both, ◌∙◌,
}
use voria.Palettes.Edges.{count_up, source_of, filled_in_row, filled_in_rows, filled}
use voria.Palettes.Edges.Grid.{Inside, index, index-lt, index-div, index-mod}

module _ {ℓ} {A : Type ℓ} where
  pub get_or-set :
      (xs : List A) (i j : ℕ) (v d : A)
      → i < length xs
      → get_or (set xs i v) j d ≡ (if i == j then v else get_or xs j d)
  get_or-set [] i j v d h = elim h [ ]
  get_or-set (x ∷ xs) zero zero v d h = refl
  get_or-set (x ∷ xs) zero (suc j) v d h = ground arith
  get_or-set (x ∷ xs) (suc i) zero v d h = ground arith
  get_or-set (x ∷ xs) (suc i) (suc j) v d h = ground (arith, get_or-set xs i j v d)

-- A place is among those to fill.
abbrev pub fills : ℕ → List (ℕ × ℕ) → Bool
fills p [] = false
fills p ((q, src) ∷ es) = (q == p) || fills p es

fills-append : (p : ℕ) (es fs : List (ℕ × ℕ)) → fills p (es ++ fs) ≡ (fills p es || fills p fs)
fills-append p [] fs = refl
fills-append p ((q, src) ∷ es) fs = ground (arith, fills-append p es fs)

module _ (has : List Bool) (w h : ℕ) where
  -- The source of a pixel, by its index.
  abbrev pub source : ℕ → Option ℕ
  source p = source_of has w h (p % w) (p / w)

  -- Every entry names a pixel and its source.
  abbrev pub AllFrom : List (ℕ × ℕ) → Type 0
  AllFrom [] = Unit {0}
  AllFrom ((p, src) ∷ es) = (source p ≡ some src) × (p < w * h) × AllFrom es

  AllFrom-append : (es fs : List (ℕ × ℕ)) → AllFrom es → AllFrom fs → AllFrom (es ++ fs)
  AllFrom-append [] fs a b = b
  AllFrom-append ((p, src) ∷ es) fs (a, c, d) b = (a, c, AllFrom-append es fs d b)

  pub source-index : (x y : ℕ) → x < w → source (index w x y) ≡ source_of has w h x y
  source-index x y hx = rw (index-div w x y hx, index-mod w x y hx) refl

  -- The numbers of a loop.
  abbrev Below : ℕ → List ℕ → Type 0
  Below n [] = Unit {0}
  Below n (x ∷ xs) = (x < n) × Below n xs

  Below-count_up : (n from m : ℕ) → from + n ≤ m → Below m (count_up n from)
  unfolding count_up
  Below-count_up zero from m h = tt
  Below-count_up (suc n) from m h = (omega arith, Below-count_up n (suc from) m (omega arith))

  AllFrom-row : (y : ℕ) (xs : List ℕ) → y < h → Below w xs → AllFrom (filled_in_row has w h y xs)
  unfolding filled_in_row index
  AllFrom-row y [] hy b = tt
  AllFrom-row y (x ∷ xs) hy (hx, b) =
      let rest = AllFrom-row y xs hy b in
      with_value_both AllFrom (source_of has w h x y)
        (λ src e. (source-index x y hx ∙ e, index-lt w h x y (hx, hy), rest)) rest

  AllFrom-rows : (ys : List ℕ) → Below h ys → AllFrom (filled_in_rows has w h ys)
  unfolding filled_in_rows
  AllFrom-rows [] b = tt
  AllFrom-rows (y ∷ ys) (hy, b) =
      AllFrom-append _ _ (AllFrom-row y (count_up w 0) hy (Below-count_up w 0 w (omega arith)))
        (AllFrom-rows ys b)

  pub AllFrom-filled : AllFrom (filled has w h)
  unfolding filled
  AllFrom-filled = AllFrom-rows (count_up h 0) (Below-count_up h 0 h (omega arith))

  abbrev holds : ℕ → List ℕ → Bool
  holds n [] = false
  holds n (x ∷ xs) = (x == n) || holds n xs

  holds-count_up : (n from k : ℕ) → from ≤ k → k < from + n → holds k (count_up n from) ≡ true
  unfolding count_up
  holds-count_up zero from k a b = absurd (omega arith)
  holds-count_up (suc n) from k a b = ground (arith, holds-count_up n (suc from) k)

  fills-row :
      (x y s : ℕ) (xs : List ℕ)
      → source_of has w h x y ≡ some s
      → holds x xs ≡ true
      → fills (index w x y) (filled_in_row has w h y xs) ≡ true
  unfolding filled_in_row index
  fills-row x y s [] e m = cc
  fills-row x y s (x' ∷ xs) e m = elim (Bool-cases (x' == x)) [
    | inl here ↦
        let same : x' ≡ x = ground arith in
        let found : source_of has w h x' y ≡ some s = rw same e in rw found (ground arith)
    | inr other ↦
        let rest = fills-row x y s xs e (ground arith) in
        with_value_both (λ es. fills (index w x y) es ≡ true) (source_of has w h x' y)
          (λ src _. ground (arith, rest)) rest
  ]

  fills-rows :
      (x y s : ℕ) (ys : List ℕ)
      → x < w
      → source_of has w h x y ≡ some s
      → holds y ys ≡ true
      → fills (index w x y) (filled_in_rows has w h ys) ≡ true
  unfolding filled_in_rows
  fills-rows x y s [] hx e m = cc
  fills-rows x y s (y' ∷ ys) hx e m =
      let row = filled_in_row has w h y' (count_up w 0) in
      let split = fills-append (index w x y) row (filled_in_rows has w h ys) in
      elim (Bool-cases (y' == y)) [
        | inl here ↦
            let same : y ≡ y' = ground arith in
            let first : fills (index w x y) row ≡ true = rw same (
              fills-row x y' s (count_up w 0) (rw (← same) e)
                (holds-count_up w 0 x (omega arith) (omega arith))) in
            ground (arith, split, first)
        | inr other ↦
            let rest = fills-rows x y s ys hx e (ground arith) in ground (arith, split, rest)
      ]

  -- A pixel that has a source is among those to fill.
  pub fills-filled :
      (x y s : ℕ)
      → Inside w h x y
      → source_of has w h x y ≡ some s
      → fills (index w x y) (filled has w h) ≡ true
  unfolding filled
  fills-filled x y s (hx, hy) e =
      fills-rows x y s (count_up h 0) hx e (holds-count_up h 0 y (omega arith) (omega arith))
