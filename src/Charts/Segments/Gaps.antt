-- ===== src/Charts/Segments/Gaps.antt =====
-- How the segments of a chart and its regions without data go together.
use voria.Prelude.{
  ℕ, ◌+◌, ◌≤◌, arith, false, ◌≡◌, refl, ◌∙◌, List, [], ◌∷◌, ◌++◌, if◌then◌else◌, Bool-cases, inl,
  inr,
}
use mathlib.Core.List.{append_assoc}
use voria.Charts.Segments.{
  Point, Region, is_gap, inner_regions, last_point, push_last, split_loop, non_empty,
  split_into_segments,
}

within_gap : (a b : ℕ) → is_gap a b ≡ false → b ≤ a + 300000
unfolding is_gap
within_gap a b near = ground arith

module _ {ℓ} {V : Type ℓ} where
  -- The segment that starts with a point, without that point, and the segments behind it.
  runs : Point V → List (Point V) → List (Point V) × List (List (Point V))
  runs p [] = ([], [])
  runs p (q ∷ qs) =
      let r = runs q qs in if is_gap p.t q.t then ([], (q ∷ r.0) ∷ r.1) else (q ∷ r.0, r.1)

  push_last-append :
      (done : List (List (Point V))) (s : List (Point V)) (p : Point V)
      → push_last (done ++ s ∷ []) p ≡ done ++ (s ++ p ∷ []) ∷ []
  unfolding push_last
  push_last-append [] s p = refl
  push_last-append (d ∷ []) s p = refl
  push_last-append (d ∷ e ∷ done) s p = rw (push_last-append (e ∷ done) s p) refl

  split_loop-runs :
      (done : List (List (Point V))) (s : List (Point V)) (p : Point V) (ps : List (Point V))
      → split_loop (done ++ (s ++ p ∷ []) ∷ []) p ps
        ≡ done ++ (s ++ p ∷ (runs p ps).0) ∷ (runs p ps).1
  unfolding split_loop runs
  split_loop-runs done s p [] = refl
  split_loop-runs done s p (q ∷ qs) = elim (Bool-cases (is_gap p.t q.t)) [
    | inl gap ↦
        rw (gap, push_last-append (done ++ (s ++ p ∷ []) ∷ []) [] q)
          (split_loop-runs (done ++ (s ++ p ∷ []) ∷ []) [] q qs
            ∙ append_assoc done ((s ++ p ∷ []) ∷ []) ((q ∷ (runs q qs).0) ∷ (runs q qs).1))
    | inr near ↦
        rw (near, push_last-append done (s ++ p ∷ []) q)
          (split_loop-runs done (s ++ p ∷ []) q qs
            ∙ rw (append_assoc s (p ∷ []) (q ∷ (runs q qs).0)) refl)
  ]

  non_empty-runs : (p : Point V) (ps : List (Point V)) → non_empty (runs p ps).1 ≡ (runs p ps).1
  unfolding runs non_empty
  non_empty-runs p [] = refl
  non_empty-runs p (q ∷ qs) = elim (Bool-cases (is_gap p.t q.t)) [
    | inl gap ↦ rw (gap, non_empty-runs q qs) refl
    | inr near ↦ rw (near, non_empty-runs q qs) refl
  ]

  split-runs :
      (p : Point V) (ps : List (Point V))
      → split_into_segments (p ∷ ps) ≡ (p ∷ (runs p ps).0) ∷ (runs p ps).1
  unfolding split_into_segments non_empty
  split-runs p ps = rw (split_loop-runs [] [] p ps, non_empty-runs p ps) refl

  -- All the points of the segments, one segment after the other.
  unfoldable pub joined : List (List (Point V)) → List (Point V)
  joined [] = []
  joined (s ∷ ss) = s ++ joined ss

  joined-runs : (p : Point V) (ps : List (Point V)) → (runs p ps).0 ++ joined (runs p ps).1 ≡ ps
  unfolding runs joined
  joined-runs p [] = refl
  joined-runs p (q ∷ qs) = elim (Bool-cases (is_gap p.t q.t)) [
    | inl gap ↦ rw (gap, joined-runs q qs) refl
    | inr near ↦ rw (near, joined-runs q qs) refl
  ]

  -- No point is lost, doubled or moved by the split.
  pub joined-split_into_segments : (ps : List (Point V)) → joined (split_into_segments ps) ≡ ps
  unfolding joined split_into_segments
  joined-split_into_segments [] = refl
  joined-split_into_segments (p ∷ ps) = rw (split-runs p ps, joined-runs p ps) refl

  -- Points that follow one another within five minutes.
  abbrev pub Unbroken : Point V → List (Point V) → Type 0
  Unbroken p [] = Unit {0}
  Unbroken p (q ∷ qs) = (q.t ≤ p.t + 300000) × Unbroken q qs

  -- Segments that are not empty, and whose points follow one another within five minutes.
  abbrev pub AllUnbroken : List (List (Point V)) → Type 0
  AllUnbroken [] = Unit {0}
  AllUnbroken ([] ∷ ss) = ⊥
  AllUnbroken ((p ∷ ps) ∷ ss) = Unbroken p ps × AllUnbroken ss

  Unbroken-runs :
      (p : Point V) (ps : List (Point V)) → Unbroken p (runs p ps).0 × AllUnbroken (runs p ps).1
  unfolding runs
  Unbroken-runs p [] = (tt, tt)
  Unbroken-runs p (q ∷ qs) =
      let r = Unbroken-runs q qs in
      elim (Bool-cases (is_gap p.t q.t)) [
        | inl gap ↦ rw gap (tt, r)
        | inr near ↦ rw near ((within_gap p.t q.t near, r.0), r.1)
      ]

  -- Each of the segments that a series of points is split into has points, and in a segment each point
  -- comes at most five minutes (300000 ms) after the one before it.
  pub split_into_segments-AllUnbroken : (ps : List (Point V)) → AllUnbroken (split_into_segments ps)
  unfolding split_into_segments
  split_into_segments-AllUnbroken [] = tt
  split_into_segments-AllUnbroken (p ∷ ps) = rw (split-runs p ps) (Unbroken-runs p ps)

  -- The stretches between the segments, from the last point of one to the first of the next.
  between_from : Point V → List (List (Point V)) → List Region
  between_from z [] = []
  between_from z ([] ∷ ss) = between_from z ss
  between_from z ((q ∷ qs) ∷ ss) =
      record { start = z.t; end = q.t } ∷ between_from (last_point q qs) ss

  pub between : List (List (Point V)) → List Region
  unfolding between_from
  between [] = []
  between ([] ∷ ss) = between ss
  between ((p ∷ ps) ∷ ss) = between_from (last_point p ps) ss

  inner_regions-runs :
      (p : Point V) (ps : List (Point V))
      → between_from (last_point p (runs p ps).0) (runs p ps).1 ≡ inner_regions p ps
  unfolding runs between_from inner_regions last_point
  inner_regions-runs p [] = refl
  inner_regions-runs p (q ∷ qs) = elim (Bool-cases (is_gap p.t q.t)) [
    | inl gap ↦ rw (gap, inner_regions-runs q qs) refl
    | inr near ↦ rw (near, inner_regions-runs q qs) refl
  ]

  -- The shading and the line agree: the regions without data between two points of a chart are the
  -- stretches between the segments of its line.
  pub between-split_into_segments :
      (p : Point V) (ps : List (Point V))
      → between (split_into_segments (p ∷ ps)) ≡ inner_regions p ps
  unfolding between
  between-split_into_segments p ps = rw (split-runs p ps) (inner_regions-runs p ps)
