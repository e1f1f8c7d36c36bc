-- ===== src/Palettes/Edges/Source.antt =====
-- Where a pixel takes its colour from.
use voria.Prelude.{
  ℕ, ◌+◌, ◌-◌, ◌*◌, ◌≡◌, refl, inl, inr, Bool, true, false, ◌&&◌, Option, none, some, List, arith,
  ltb, ltb→lt, if_cases, and_true, lt→ltb, sym, subst,
}
use voria.Palettes.Edges.{marked, source_of}
use voria.Palettes.Edges.Grid.{
  Inside, index, distance, order, index-left, index-right, index-up, index-down,
}

module _ (has : List Bool) (w h : ℕ) where
  -- A neighbour in the grid that has a colour, by its index.
  pub record Neighbour (x y s : ℕ) : Type 0 where
    pub nx : ℕ
    pub ny : ℕ
    pub inside : Inside w h nx ny
    pub adjacent : distance x y nx ny ≡ 1
    pub is_at : s ≡ index w nx ny
    pub has_colour : marked has (index w nx ny) ≡ true

  abbrev FromNeighbour : ℕ → ℕ → Option ℕ → Type 0
  FromNeighbour x y none = Unit {0}
  FromNeighbour x y (some s) = Neighbour x y s

  Neighbour-at :
      (x y s nx ny : ℕ)
      → Inside w h nx ny
      → distance x y nx ny ≡ 1
      → s ≡ index w nx ny
      → marked has s ≡ true
      → Neighbour x y s
  Neighbour-at x y s nx ny i a e m = record {
    nx = nx;
    ny = ny;
    inside = i;
    adjacent = a;
    is_at = e;
    has_colour = rw e at m;
  }

  FromNeighbour-source_of : (x y : ℕ) → Inside w h x y → FromNeighbour x y (source_of has w h x y)
  unfolding source_of index
  FromNeighbour-source_of x y (hx, hy) =
      let p = y * w + x in
      let P = FromNeighbour x y in
      if_cases P (marked has p) (λ _. tt)
        (λ _.
          if_cases P (ltb 0 x && marked has (p - 1))
            (λ t.
              let (lt, m) = and_true (ltb 0 x) (marked has (p - 1)) t in
              let less = ltb→lt 0 x lt in
              Neighbour-at x y (p - 1) (x - 1) y (omega arith) (omega arith)
                (sym (index-left w x y less)) m)
            (λ _.
              if_cases P (ltb (x + 1) w && marked has (p + 1))
                (λ t.
                  let (lt, m) = and_true (ltb (x + 1) w) (marked has (p + 1)) t in
                  let less = ltb→lt (x + 1) w lt in
                  Neighbour-at x y (p + 1) (x + 1) y (omega arith) (omega arith)
                    (sym (index-right w x y)) m)
                (λ _.
                  if_cases P (ltb 0 y && marked has (p - w))
                    (λ t.
                      let (lt, m) = and_true (ltb 0 y) (marked has (p - w)) t in
                      let less = ltb→lt 0 y lt in
                      Neighbour-at x y (p - w) x (y - 1) (omega arith) (omega arith)
                        (sym (index-up w x y less)) m)
                    (λ _.
                      if_cases P (ltb (y + 1) h && marked has (p + w))
                        (λ t.
                          let (lt, m) = and_true (ltb (y + 1) h) (marked has (p + w)) t in
                          let less = ltb→lt (y + 1) h lt in
                          Neighbour-at x y (p + w) x (y + 1) (omega arith) (omega arith)
                            (sym (index-down w x y)) m)
                        (λ _. tt)))))

  source_of-unmarked :
      (x y s : ℕ) → source_of has w h x y ≡ some s → marked has (index w x y) ≡ false
  unfolding source_of index
  source_of-unmarked x y s e = ground arith

  -- A pixel with a source has no colour yet, and its source is a neighbour that has one.
  pub source_of-Neighbour :
      (x y s : ℕ)
      → Inside w h x y
      → source_of has w h x y ≡ some s
      → (marked has (index w x y) ≡ false) × Neighbour x y s
  source_of-Neighbour x y s i e =
      (source_of-unmarked x y s e, subst (FromNeighbour x y) e (FromNeighbour-source_of x y i))

  -- The four tests of a pixel with neither a colour nor a source.
  tests_failed :
      (x y : ℕ)
      → source_of has w h x y ≡ none
      → marked has (index w x y) ≡ false
      → ((ltb 0 x && marked has (index w x y - 1)) ≡ false)
        × ((ltb (x + 1) w && marked has (index w x y + 1)) ≡ false)
        × ((ltb 0 y && marked has (index w x y - w)) ≡ false)
        × ((ltb (y + 1) h && marked has (index w x y + w)) ≡ false)
  unfolding source_of index
  tests_failed x y e m = ground arith

  and_false : (b c : Bool) → (b && c) ≡ false → b ≡ true → c ≡ false
  and_false b c h t = ground arith

  -- A pixel with neither has no neighbour with a colour.
  pub source_of-none :
      (x y nx ny : ℕ)
      → Inside w h x y
      → Inside w h nx ny
      → source_of has w h x y ≡ none
      → marked has (index w x y) ≡ false
      → distance x y nx ny ≡ 1
      → marked has (index w nx ny) ≡ false
  source_of-none x y nx ny i (hx, hy) e m a =
      let (left, right, up, down) = tests_failed x y e m in
      elim (order x nx) [
        | inl lt ↦
            let same : nx ≡ x + 1 = omega arith in
            let row : ny ≡ y = omega arith in
            rw (same, row, index-right w x y) (and_false _ _ right (lt→ltb (x + 1) w (omega arith)))
        | inr (inl gt) ↦
            let same : nx ≡ x - 1 = omega arith in
            let row : ny ≡ y = omega arith in
            rw (same, row, index-left w x y (omega arith))
              (and_false _ _ left (lt→ltb 0 x (omega arith)))
        | inr (inr eq) ↦
            let column : nx ≡ x = omega arith in
            elim (order y ny) [
              | inl lt ↦
                  let same : ny ≡ y + 1 = omega arith in
                  rw (column, same, index-down w x y)
                    (and_false _ _ down (lt→ltb (y + 1) h (omega arith)))
              | inr (inl gt) ↦
                  let same : ny ≡ y - 1 = omega arith in
                  rw (column, same, index-up w x y (omega arith))
                    (and_false _ _ up (lt→ltb 0 y (omega arith)))
              | inr (inr eq') ↦ absurd (omega arith)
            ]
      ]

  pub source_of-marked : (x y : ℕ) → marked has (index w x y) ≡ true → source_of has w h x y ≡ none
  unfolding source_of index
  source_of-marked x y e = rw e refl
