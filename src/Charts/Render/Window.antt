-- ===== src/Charts/Render/Window.antt =====
-- The times that are drawn lie in the window of a chart.
use voria.Prelude.{ℕ, ◌≤◌, Option, none, some, List, [], ◌∷◌, arith, if_cases, with_value}
use voria.Charts.Segments.{Point, Region, is_gap, inner_regions, last_point, get_no_data_regions}
use voria.Charts.Layout.{x_domain}
use voria.Charts.Scene.{D3, times}
use voria.Charts.Render.Area.{All, All-append, IsD3}

-- A time, and a region, in a window.
abbrev pub Between : ℕ → ℕ → ℕ → Type 0
Between a b t = (a ≤ t) × (t ≤ b)

abbrev pub RegionBetween : ℕ → ℕ → Region → Type 0
RegionBetween a b r = Between a b r.start × Between a b r.end

abbrev pub Optional : (ℕ → Type 0) → Option ℕ → Type 0
Optional P none = Unit {0}
Optional P (some t) = P t

module _ {ℓ} {V : Type ℓ} where
  -- The points of a chart lie in the window that the server gave, where it gave an end.
  abbrev pub InWindow : Option ℕ → Option ℕ → List (Point V) → Type 0
  InWindow from to ps = All (λ p. Optional (λ a. a ≤ p.t) from × Optional (λ b. p.t ≤ b) to) ps

  -- The times between which the time scale is set.
  abbrev pub domain_of : D3 → Option ℕ → Option ℕ → List (Point V) → ℕ × ℕ
  domain_of d3 from to ps =
      x_domain (λ ps. d3.earliest (times ps)) (λ ps. d3.latest (times ps)) from to ps

  All-Between :
      (a b : ℕ) (ps : List (Point V))
      → All (λ p. a ≤ p.t) ps
      → All (λ p. p.t ≤ b) ps
      → All (λ p. Between a b p.t) ps
  All-Between a b [] h k = tt
  All-Between a b (p ∷ ps) h k = ((h.0, k.0), All-Between a b ps h.1 k.1)

  All-times : (P : ℕ → Type 0) (ps : List (Point V)) → All P (times ps) → All (λ p. P p.t) ps
  All-times P [] h = tt
  All-times P (p ∷ ps) h = (h.0, All-times P ps h.1)

  lower-of :
      (from to : Option ℕ) (least : ℕ) (ps : List (Point V))
      → InWindow from to ps
      → All (λ p. least ≤ p.t) ps
      → All (λ p. with_value from (λ t. t) least ≤ p.t) ps
  lower-of from to least [] h k = tt
  lower-of none to least (p ∷ ps) h k = k
  lower-of (some a) to least (p ∷ ps) h k = (h.0.0, lower-of (some a) to least ps h.1 k.1)

  upper-of :
      (from to : Option ℕ) (most : ℕ) (ps : List (Point V))
      → InWindow from to ps
      → All (λ p. p.t ≤ most) ps
      → All (λ p. p.t ≤ with_value to (λ t. t) most) ps
  upper-of from to most [] h k = tt
  upper-of from none most (p ∷ ps) h k = k
  upper-of from (some b) most (p ∷ ps) h k = (h.0.1, upper-of from (some b) most ps h.1 k.1)

  -- All points lie in the domain of the time scale.
  pub All-domain_of :
      (d3 : D3)
      → IsD3 d3
      → (from to : Option ℕ) (ps : List (Point V)) → InWindow from to ps
      → All (λ p. Between (domain_of d3 from to ps).0 (domain_of d3 from to ps).1 p.t) ps
  unfolding x_domain
  All-domain_of d3 l from to ps h =
      All-Between _ _ ps
        (lower-of from to _ ps h
          (All-times (λ t. d3.earliest (times ps) ≤ t) ps (l.earliest (times ps))))
        (upper-of from to _ ps h
          (All-times (λ t. t ≤ d3.latest (times ps)) ps (l.latest (times ps))))

  inner_regions-Between :
      (a b : ℕ) (p : Point V) (ps : List (Point V))
      → All (λ p. Between a b p.t) (p ∷ ps)
      → All (RegionBetween a b) (inner_regions p ps)
  unfolding inner_regions
  inner_regions-Between a b p [] h = tt
  inner_regions-Between a b p (q ∷ qs) h =
      let rest = inner_regions-Between a b q qs h.1 in
      if_cases (All (RegionBetween a b)) (is_gap p.t q.t) (λ _. ((h.0, h.1.0), rest)) (λ _. rest)

  last_point-Between :
      (a b : ℕ) (p : Point V) (ps : List (Point V))
      → All (λ p. Between a b p.t) (p ∷ ps)
      → Between a b (last_point p ps).t
  unfolding last_point
  last_point-Between a b p [] h = h.0
  last_point-Between a b p (q ∷ qs) h = last_point-Between a b q qs h.1

  -- An end before which there is no gap is not looked at.
  pub get_no_data_regions-Between :
      (a b to : ℕ) (p : Point V) (ps : List (Point V))
      → (a ≤ to → to ≤ b)
      → All (λ p. Between a b p.t) (p ∷ ps)
      → All (RegionBetween a b) (get_no_data_regions (p ∷ ps) a to)
  unfolding get_no_data_regions is_gap
  get_no_data_regions-Between a b to p ps e h =
      let z = last_point-Between a b p ps h in
      All-append (RegionBetween a b) _ _
        (if_cases (All (RegionBetween a b)) (is_gap a p.t)
          (λ _. (((omega arith, omega (arith, h.0)), h.0), tt)) (λ _. tt))
        (All-append (RegionBetween a b) (inner_regions p ps) _ (inner_regions-Between a b p ps h) (
          if_cases (All (RegionBetween a b)) (is_gap (last_point p ps).t to)
            (λ gap. let past : a ≤ to = ground (arith, gap, z) in ((z, (past, e past)), tt))
            (λ _. tt)))

-- The end of the window as the shading takes it.
pub end-within :
    (a latest : ℕ) (to : Option ℕ)
    → a ≤ with_value to (λ t. t) 0
    → with_value to (λ t. t) 0 ≤ with_value to (λ t. t) latest
end-within a latest none h = omega arith
end-within a latest (some t) h = omega arith
