-- ===== src/Charts/Multi/Bounds.antt =====
-- How many points the series of a comparison keep (multi_line_chart_append of
-- assets/js/hooks/d3_charts.js).
use voria.Prelude.{
  ℕ, suc, ◌≤◌, ◌≡◌, refl, ap, ◌∙◌, subst, Option, none, some, List, [], ◌∷◌, map, arith, length,
  length-append, if_both, with_value_both,
}
use voria.Prelude.Text.{Text, text_eq}
use voria.Charts.Segments.{Point}
use voria.Charts.Data.{max_points, since}
use voria.Charts.Data.Bounds.{length-since, length-trim}
use voria.Charts.Multi.{
  Series, MultiLineChart, push_to, since_series, trim_series, multi_line_chart_append,
}

module _ {ℓ} {V : Type ℓ} where
  -- No series has more than n points.
  abbrev pub AllBounded : ℕ → List (Series V) → Type 0
  AllBounded n [] = Unit {0}
  AllBounded n (s ∷ ss) = (length s.data_ ≤ n) × AllBounded n ss

  -- The identifiers of the series, in their order.
  abbrev pub ids : List (Series V) → List Text
  ids [] = []
  ids (s ∷ ss) = s.id ∷ ids ss

  AllBounded-weaken : (n : ℕ) (ss : List (Series V)) → AllBounded n ss → AllBounded (suc n) ss
  AllBounded-weaken n [] h = tt
  AllBounded-weaken n (s ∷ ss) h = (omega (arith, h.0), AllBounded-weaken n ss h.1)

  -- What a push that finds its series leaves behind.
  abbrev Pushed : ℕ → List (Series V) → Option (List (Series V)) → Type 0
  Pushed n ss none = Unit {0}
  Pushed n ss (some pushed) = AllBounded (suc n) pushed × (ids pushed ≡ ids ss)

  Pushed-push_to :
      (n : ℕ) (id : Text) (p : Point V) (ss : List (Series V))
      → AllBounded n ss
      → Pushed n ss (push_to id p ss)
  unfolding push_to
  Pushed-push_to n id p [] h = tt
  Pushed-push_to n id p (s ∷ ss) h =
      if_both (Pushed n (s ∷ ss)) (text_eq s.id id)
        ((omega (arith, length-append s.data_ (p ∷ []), h.0), AllBounded-weaken n ss h.1), refl)
        (with_value_both (Pushed n (s ∷ ss)) (push_to id p ss)
          (λ pushed e.
            let r = subst (Pushed n ss) e (Pushed-push_to n id p ss h.1) in
            ((omega (arith, h.0), r.0), ap (λ is. s.id ∷ is) r.1))
          tt)

  AllBounded-trim :
      (from : Option ℕ) (ss : List (Series V))
      → AllBounded (suc max_points) ss
      → AllBounded max_points (map trim_series (map (since_series from) ss))
  unfolding since_series trim_series
  AllBounded-trim from [] h = tt
  AllBounded-trim none (s ∷ ss) h = (length-trim s.data_ h.0, AllBounded-trim none ss h.1)
  AllBounded-trim (some from) (s ∷ ss) h = (
    length-trim (since from s.data_) (omega (arith, length-since from s.data_, h.0)),
    AllBounded-trim (some from) ss h.1,
  )

  ids-trim :
      (from : Option ℕ) (ss : List (Series V))
      → ids (map trim_series (map (since_series from) ss)) ≡ ids ss
  unfolding since_series trim_series
  ids-trim from [] = refl
  ids-trim none (s ∷ ss) = rw (ids-trim none ss) refl
  ids-trim (some from) (s ∷ ss) = rw (ids-trim (some from) ss) refl

  -- Whatever point is sent for whatever station, each series keeps at most 10000 points if each had at
  -- most that many, and the series stay the same ones in the same order.
  pub AllBounded-multi_line_chart_append :
      (c : MultiLineChart V) (id : Text) (p : Point V) (from to : Option ℕ)
      → AllBounded max_points c.series
      → AllBounded max_points (multi_line_chart_append c id p from to).series
        × (ids (multi_line_chart_append c id p from to).series ≡ ids c.series)
  unfolding multi_line_chart_append
  AllBounded-multi_line_chart_append c id p from to h =
      with_value_both
        (λ (d : MultiLineChart V). AllBounded max_points d.series × (ids d.series ≡ ids c.series))
        (push_to id p c.series)
        (λ pushed e.
          let r =
            subst (Pushed max_points c.series) e (Pushed-push_to max_points id p c.series h) in
          (AllBounded-trim from pushed r.0, ids-trim from pushed ∙ r.1))
        (h, refl)
