-- ===== src/Charts/Pointer/Nearest.antt =====
-- Which point the tooltip shows.
use voria.Prelude.{
  ℕ, zero, suc, ◌-◌, ◌≤◌, ◌<◌, ◌≡◌, refl, ap, ◌∙◌, subst, List, [], ◌∷◌, some, arith, leb, min,
  length, get_elem?, if◌then◌else◌,
}
use voria.Charts.Segments.{Point}
use voria.Charts.Segments.Outside.{Sorted}
use voria.Charts.Pointer.{hovered}

module _ {ℓ} {V : Type ℓ} where
  -- What d3 promises of `bisector.left`: in a sorted list from an index on, the points before the
  -- result are before the instant, and those from it on are not.
  pub record IsLeft (ps : List (Point V)) (x from i : ℕ) : Type ℓ where
    pub lower : from ≤ i
    pub upper : i ≤ length ps
    pub before : (j : ℕ) (q : Point V) → get_elem? ps j ≡ some q → from ≤ j → j < i → q.t < x
    pub behind : (j : ℕ) (q : Point V) → get_elem? ps j ≡ some q → i ≤ j → x ≤ q.t

  -- The first of these points that is not before the instant, or else the last one.
  abbrev pub first_at : Point V → ℕ → List (Point V) → Point V
  first_at p x [] = p
  first_at p x (q ∷ qs) = let rest = first_at q x qs in if leb x q.t then q else rest

  tail :
      {p q : Point V} {qs : List (Point V)} {x i : ℕ}
      → IsLeft (p ∷ q ∷ qs) x 1 (suc (suc i))
      → IsLeft (q ∷ qs) x 1 (suc i)
  tail l = record {
    lower = omega arith;
    upper = omega (arith, l.upper);
    before = λ j r e h k. l.before (suc j) r e (omega arith) (omega (arith, k));
    behind = λ j r e h. l.behind (suc j) r e (omega (arith, h));
  }

  get_elem?-first_at :
      (p : Point V) (qs : List (Point V)) (x i : ℕ)
      → IsLeft (p ∷ qs) x 1 (suc i)
      → get_elem? (p ∷ qs) (min (suc i) (length qs)) ≡ some (first_at p x qs)
  get_elem?-first_at p [] x i l =
      let e : min (suc i) 0 ≡ 0 = omega arith in ap (get_elem? (p ∷ [])) e
  get_elem?-first_at p (q ∷ qs) x zero l =
      let e : min 1 (suc (length qs)) ≡ 1 = omega arith in
      let after = l.behind 1 q refl (omega arith) in
      ap (get_elem? (p ∷ q ∷ qs)) e ∙ ground (arith, after)
  get_elem?-first_at p (q ∷ qs) x (suc i) l =
      let e : min (suc (suc i)) (suc (length qs)) ≡ suc (min (suc i) (length qs)) = omega arith in
      let ahead = l.before 1 q refl (omega arith) (omega arith) in
      let rest = get_elem?-first_at q qs x i (tail l) in
      ap (get_elem? (p ∷ q ∷ qs)) e ∙ ground (arith, ahead, rest)

  module _ (bisect : List (Point V) → ℕ → ℕ → ℕ) where
    -- Where the points are in order and the bisector does what d3 promises, the tooltip shows the first
    -- point behind the chart's first one that is not before the instant under the pointer, or else the
    -- last point.
    pub hovered-first_at :
        (left : (ps : List (Point V)) (x : ℕ)
          → 0 < length ps
          → Sorted ps
          → IsLeft ps x 1 (bisect ps x 1))
        → (p : Point V) (ps : List (Point V)) (x : ℕ) → Sorted (p ∷ ps)
        → hovered bisect (p ∷ ps) x ≡ some (first_at p x ps)
    unfolding hovered
    hovered-first_at left p ps x s =
        let l = left (p ∷ ps) x (omega arith) s in
        let i = bisect (p ∷ ps) x 1 - 1 in
        let e : bisect (p ∷ ps) x 1 ≡ suc i = omega (arith, l.lower) in
        let cut : min (bisect (p ∷ ps) x 1) (suc (length ps) - 1) ≡ min (suc i) (length ps) =
          omega (arith, e) in
        ap (get_elem? (p ∷ ps)) cut ∙ get_elem?-first_at p ps x i (subst (IsLeft (p ∷ ps) x 1) e l)
