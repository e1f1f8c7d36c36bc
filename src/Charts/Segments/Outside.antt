-- ===== src/Charts/Segments/Outside.antt =====
-- Where the regions without data of a chart lie (getNoDataRegions of assets/js/hooks/d3_charts.js).
use voria.Prelude.{ℕ, subst, List, [], ◌∷◌, ◌++◌, ◌≤◌, ◌⊎◌, arith, if_both, Bool-cases, inl, inr}
use mathlib.Core.List.{append_assoc}
use voria.Charts.Segments.{Point, Region, is_gap, inner_regions, last_point, get_no_data_regions}

-- A time that lies inside of none of the regions.
abbrev pub Outside : ℕ → List Region → Type 0
Outside t [] = Unit {0}
Outside t (r ∷ rs) = ((t ≤ r.start) ⊎ (r.end ≤ t)) × Outside t rs

Outside-append : (t : ℕ) (rs ss : List Region) → Outside t rs → Outside t ss → Outside t (rs ++ ss)
Outside-append t [] ss a b = b
Outside-append t (r ∷ rs) ss a b = (a.0, Outside-append t rs ss a.1 b)

module _ {ℓ} {V : Type ℓ} where
  -- The times do not fall.
  abbrev pub SortedFrom : Point V → List (Point V) → Type 0
  SortedFrom p [] = Unit {0}
  SortedFrom p (q ∷ qs) = (p.t ≤ q.t) × SortedFrom q qs

  abbrev pub Sorted : List (Point V) → Type 0
  Sorted [] = Unit {0}
  Sorted (p ∷ ps) = SortedFrom p ps

  abbrev pub AllOutside : List (Point V) → List Region → Type 0
  AllOutside [] rs = Unit {0}
  AllOutside (p ∷ ps) rs = Outside p.t rs × AllOutside ps rs

  Outside-inner_regions :
      (t : ℕ) (p : Point V) (ps : List (Point V))
      → t ≤ p.t
      → SortedFrom p ps
      → Outside t (inner_regions p ps)
  unfolding inner_regions
  Outside-inner_regions t p [] h s = tt
  Outside-inner_regions t p (q ∷ qs) h s =
      let rest = Outside-inner_regions t q qs (omega (arith, h, s.0)) s.1 in
      if_both (Outside t) (is_gap p.t q.t) (inl h, rest) rest

  -- A time before the first point and after the last one.
  first_le_last : (p : Point V) (ps : List (Point V)) → SortedFrom p ps → p.t ≤ (last_point p ps).t
  unfolding last_point
  first_le_last p [] s = omega arith
  first_le_last p (q ∷ qs) s = omega (arith, first_le_last q qs s.1, s.0)

  -- The points of a sorted list, each with what is put before and behind the regions between them.
  AllOutside-from :
      (p : Point V) (ps : List (Point V)) (before behind : List Region)
      → SortedFrom p ps
      → ((t : ℕ) → p.t ≤ t → Outside t before)
      → ((t : ℕ) → t ≤ (last_point p ps).t → Outside t behind)
      → AllOutside (p ∷ ps) (before ++ (inner_regions p ps ++ behind))
  unfolding inner_regions last_point
  AllOutside-from p [] before behind s hb he =
      (Outside-append p.t before behind (hb p.t (omega arith)) (he p.t (omega arith)), tt)
  AllOutside-from p (q ∷ qs) before behind s hb he =
      let inner = inner_regions q qs in
      let gap : Region = record { start = p.t; end = q.t } in
      let joined = append_assoc before (gap ∷ []) (inner ++ behind) in
      let behind_gap = λ (t : ℕ) (h : q.t ≤ t).
        Outside-append t before (gap ∷ []) (hb t (omega (arith, h, s.0))) (inr h, tt) in
      let first =
        Outside-append p.t before (inner_regions p (q ∷ qs) ++ behind) (hb p.t (omega arith)) (
          Outside-append p.t (inner_regions p (q ∷ qs)) behind
            (Outside-inner_regions p.t p (q ∷ qs) (omega arith) s)
            (he p.t (first_le_last p (q ∷ qs) s))) in
      elim (Bool-cases (is_gap p.t q.t)) [
        | inl far ↦ (
          first,
          rw far (
              subst (AllOutside (q ∷ qs)) joined
                (AllOutside-from q qs (before ++ gap ∷ []) behind s.1 behind_gap he)),
        )
        | inr near ↦ (
          first,
          rw near (AllOutside-from q qs before behind s.1 (λ t h. hb t (omega (arith, h, s.0))) he),
        )
      ]

  -- Nothing is shaded over data: if the times do not fall, no point of a chart lies inside of a region
  -- without data.
  pub AllOutside-get_no_data_regions :
      (ps : List (Point V)) (from to : ℕ)
      → Sorted ps
      → AllOutside ps (get_no_data_regions ps from to)
  unfolding get_no_data_regions
  AllOutside-get_no_data_regions [] from to s = tt
  AllOutside-get_no_data_regions (p ∷ ps) from to s =
      AllOutside-from p ps _ _ s (λ t h. if_both (Outside t) (is_gap from p.t) (inr h, tt) tt)
        (λ t h. if_both (Outside t) (is_gap (last_point p ps).t to) (inl h, tt) tt)
