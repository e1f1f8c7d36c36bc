-- ===== src/Charts/Data/Bounds.antt =====
-- How many points a chart keeps, and which (the append handlers of assets/js/hooks/d3_charts.js).
use voria.Prelude.{
  ℕ, suc, ◌≤◌, ◌≡◌, refl, inl, inr, Option, none, some, List, [], ◌∷◌, ◌++◌, arith, ltb, leb,
  length, length-append, if_cases, if_both, Bool-cases, leb→le,
}
use voria.Charts.Segments.{Point}
use voria.Charts.Data.{max_points, since, shift, trim, append_point}

-- A chart that is never sent a start only grows; the limit holds at each step.
module _ {ℓ} {V : Type ℓ} where
  pub length-since : (from : ℕ) (ps : List (Point V)) → length (since from ps) ≤ length ps
  unfolding since
  length-since from [] = omega arith
  length-since from (p ∷ ps) = ground (arith, length-since from ps)

  pub length-trim :
      (ps : List (Point V)) → length ps ≤ suc max_points → length (trim ps) ≤ max_points
  unfolding trim shift
  length-trim [] h = omega arith
  length-trim (p ∷ ps) h =
      if_cases (λ qs. length qs ≤ max_points) (ltb max_points (suc (length ps))) {x = ps}
        {y = p ∷ ps} (λ full. omega (arith, h)) (λ free. ground arith)

  pub length-append_point :
      (ps : List (Point V)) (p : Point V) (from : Option ℕ)
      → length ps ≤ max_points
      → length (append_point ps p from) ≤ max_points
  unfolding append_point
  length-append_point ps p none h =
      length-trim (ps ++ p ∷ []) (omega (arith, length-append ps (p ∷ []), h))
  length-append_point ps p (some from) h =
      length-trim (since from (ps ++ p ∷ []))
        (omega (arith, length-since from (ps ++ p ∷ []), length-append ps (p ∷ []), h))

  -- The points from a time on.
  abbrev pub AllSince : ℕ → List (Point V) → Type 0
  AllSince from [] = Unit {0}
  AllSince from (p ∷ ps) = (from ≤ p.t) × AllSince from ps

  AllSince-since : (from : ℕ) (ps : List (Point V)) → AllSince from (since from ps)
  unfolding since
  AllSince-since from [] = tt
  AllSince-since from (p ∷ ps) =
      if_cases (AllSince from) (leb from p.t) (λ h. (leb→le from p.t h, AllSince-since from ps))
        (λ h. AllSince-since from ps)

  AllSince-shift : (from : ℕ) (ps : List (Point V)) → AllSince from ps → AllSince from (shift ps)
  unfolding shift
  AllSince-shift from [] h = tt
  AllSince-shift from (p ∷ ps) h = h.1

  AllSince-append_point :
      (ps : List (Point V)) (p : Point V) (from : ℕ) → AllSince from (append_point ps p (some from))
  unfolding append_point trim
  AllSince-append_point ps p from =
      let kept = AllSince-since from (ps ++ p ∷ []) in
      if_both (AllSince from) (ltb max_points (length (since from (ps ++ p ∷ []))))
        (AllSince-shift from (since from (ps ++ p ∷ [])) kept) kept

  -- The newest point is not the one that goes.
  trim-last :
      (ps : List (Point V)) (p : Point V)
      → (qs : List (Point V)) × (trim (ps ++ p ∷ []) ≡ qs ++ p ∷ [])
  unfolding trim shift
  trim-last [] p = ([], refl)
  trim-last (q ∷ ps) p = elim (Bool-cases (ltb max_points (suc (length (ps ++ p ∷ []))))) [
    | inl full ↦ (ps, rw full refl)
    | inr free ↦ (q ∷ ps, rw free refl)
  ]

  since-last :
      (from : ℕ) (ps : List (Point V)) (p : Point V)
      → from ≤ p.t
      → since from (ps ++ p ∷ []) ≡ since from ps ++ p ∷ []
  unfolding since
  since-last from [] p h = ground arith
  since-last from (q ∷ ps) p h = elim (Bool-cases (leb from q.t)) [
    | inl late ↦ rw (late, since-last from ps p h) refl
    | inr early ↦ rw (early, since-last from ps p h) refl
  ]

  append_point-last :
      (ps : List (Point V)) (p : Point V) (from : ℕ)
      → from ≤ p.t
      → (qs : List (Point V)) × (append_point ps p (some from) ≡ qs ++ p ∷ [])
  unfolding append_point
  append_point-last ps p from h = rw (since-last from ps p h) (trim-last (since from ps) p)

  -- The points of a chart after one more with a start.
  pub record IsWindow (from : ℕ) (newest : Point V) (ps : List (Point V)) : Type ℓ where
    pub bounded : length ps ≤ max_points
    pub since : AllSince from ps
    pub older : List (Point V)
    pub last : ps ≡ older ++ newest ∷ []

  -- A chart that holds at most 10000 points holds at most that many after one more that does not lie
  -- before the start it comes with: none of them lies before the start, and the new one is the last.
  pub append_point-IsWindow :
      (ps : List (Point V)) (p : Point V) (from : ℕ)
      → length ps ≤ max_points
      → from ≤ p.t
      → IsWindow from p (append_point ps p (some from))
  append_point-IsWindow ps p from h le =
      let (older, last) = append_point-last ps p from le in
      record {
        bounded = length-append_point ps p (some from) h;
        since = AllSince-append_point ps p from;
        older = older;
        last = last;
      }
