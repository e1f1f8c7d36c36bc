-- ===== src/Charts/Pointer/Lines.antt =====
-- The lines of the tooltip of the chart with several lines.
use voria.Prelude.{
  ℕ, zero, suc, ◌-◌, ◌<◌, ◌≡◌, refl, ap, ◌∙◌, List, [], ◌∷◌, some, arith, min, length, get_elem?,
  ltb, with_value, if_cases, if◌then◌else◌,
}
use voria.Charts.Segments.{Point}
use voria.Charts.Multi.{Series}
use voria.Charts.Pointer.{Entry, entry_of, hovered, tooltip_data}

module _ {ℓ} {V : Type ℓ} where
  -- The entry shows a point of the series under its name, in its colour.
  pub record IsOf (s : Series V) (d : Entry V) : Type ℓ where
    pub place : ℕ
    pub point : Point V
    pub found : get_elem? s.data_ place ≡ some point
    pub same : d ≡ record { name = s.name; value = point.v; color = s.color; t = point.t }

  -- One entry for each series that has points, in their order.
  pub data Matches : List (Series V) → List (Entry V) → Type ℓ where
    done : Matches [] []
    skipped :
        {s : Series V} {ss : List (Series V)} {ds : List (Entry V)}
        → s.data_ ≡ []
        → Matches ss ds
        → Matches (s ∷ ss) ds
    shown :
        {s : Series V} {d : Entry V} {ss : List (Series V)} {ds : List (Entry V)}
        → IsOf s d
        → Matches ss ds
        → Matches (s ∷ ss) (d ∷ ds)

  get_elem?-some :
      (ps : List (Point V)) (i : ℕ) → i < length ps → (p : Point V) × (get_elem? ps i ≡ some p)
  get_elem?-some [] i h = elim h [ ]
  get_elem?-some (p ∷ ps) zero h = (p, refl)
  get_elem?-some (p ∷ ps) (suc i) h = get_elem?-some ps i (omega arith)

  Matches-series :
      (s : Series V) (ps : List (Point V)) (i : ℕ) (ss : List (Series V)) (ds : List (Entry V))
      → s.data_ ≡ ps
      → Matches ss ds
      → Matches (s ∷ ss) (
          if ltb 0 (length ps)
          then with_value (get_elem? ps (min i (length ps - 1))) (λ d. entry_of s d ∷ ds) ds
          else ds)
  unfolding entry_of
  Matches-series s [] i ss ds e m = skipped e m
  Matches-series s (p ∷ ps) i ss ds e m =
      let at = min i (suc (length ps) - 1) in
      let (q, found) = get_elem?-some (p ∷ ps) at (omega arith) in
      let entry : IsOf s (entry_of s q) = record {
        place = at;
        point = q;
        found = ap (λ l. get_elem? l at) e ∙ found;
        same = refl;
      } in
      if_cases (Matches (s ∷ ss)) (ltb 0 (suc (length ps))) (λ _. rw found (shown entry m))
        (λ h. absurd (ground (arith, h)))

  -- Wherever the pointer is and whatever bisector there is, the tooltip has one line for each series
  -- that has points and none for the others, in their order, with the name and the colour of the
  -- series and the value of one of its points.
  pub tooltip_data-Matches :
      (bisect : List (Point V) → ℕ → ℕ → ℕ) (series : List (Series V)) (x0 : ℕ)
      → Matches series (tooltip_data bisect series x0)
  unfolding tooltip_data hovered
  tooltip_data-Matches bisect [] x0 = done
  tooltip_data-Matches bisect (s ∷ ss) x0 =
      Matches-series s s.data_ (bisect s.data_ x0 1) ss (tooltip_data bisect ss x0) refl
        (tooltip_data-Matches bisect ss x0)
