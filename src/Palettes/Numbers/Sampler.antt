-- ===== src/Palettes/Numbers/Sampler.antt =====
-- Between which stops a sampler mixes (segmentSampler of assets/js/radar_palettes.js).
use voria.Prelude.{
  false-true, true, false, ◌≡◌, refl, ◌∙◌, sym, ◌⊎◌, inl, inr, List, [], ◌∷◌, ◌++◌, if_cases,
  Bool-cases, ap,
}
use voria.Palettes.Numbers.{
  Number, IsTotal, Rgb, Stop, last_stop, between_stops, sample_loop, segment_sampler,
}

module _ {R : Type 0} ⦃num : Number R⦄ where
  -- A value behind a stop and not behind the next one, and its sample.
  pub record Between (stops : List (Stop R)) (v : R) (c : Rgb R × R) : Type 0 where
    pub before : List (Stop R)
    pub s : Stop R
    pub t : Stop R
    pub behind : List (Stop R)
    pub split : stops ≡ before ++ s ∷ t ∷ behind
    pub after_s : num.le v s.value ≡ false
    pub up_to_t : num.le v t.value ≡ true
    pub mixed : c ≡ between_stops s t v

  Between-later :
      (s : Stop R) {stops : List (Stop R)} {v : R} {c : Rgb R × R}
      → Between stops v c
      → Between (s ∷ stops) v c
  Between-later s b = record {
    before = s ∷ b.before;
    s = b.s;
    t = b.t;
    behind = b.behind;
    split = ap (s ∷◌) b.split;
    after_s = b.after_s;
    up_to_t = b.up_to_t;
    mixed = b.mixed;
  }

  Between-sample_loop :
      (s : Stop R) (ts : List (Stop R)) (v : R)
      → num.le v s.value ≡ false
      → num.le v (last_stop s ts).value ≡ true
      → (last : Stop R) → Between (s ∷ ts) v (sample_loop s ts last v)
  unfolding last_stop sample_loop
  Between-sample_loop s [] v after up last = absurd (false-true (sym after ∙ up))
  Between-sample_loop s (t ∷ ts) v after up last =
      if_cases (Between (s ∷ t ∷ ts) v) (num.le v t.value)
        (λ here. record {
          before = [];
          s = s;
          t = t;
          behind = ts;
          split = refl;
          after_s = after;
          up_to_t = here;
          mixed = refl;
        })
        (λ later. Between-later s (Between-sample_loop t ts v later up last))

  -- A value up to the first stop has that stop's colour and opacity, one from the last stop on has the
  -- last one's, and any other is behind one stop and not behind the next, and is a mixture of the two:
  -- the loop never runs to its end.
  pub segment_sampler-Between :
      ⦃t : IsTotal R⦄ (s : Stop R) (ts : List (Stop R)) (v : R)
      → ((num.le v s.value ≡ true) × (segment_sampler s ts v ≡ (s.colour, s.alpha)))
        ⊎ (((num.le (last_stop s ts).value v ≡ true)
              × (segment_sampler s ts v ≡ ((last_stop s ts).colour, (last_stop s ts).alpha)))
            ⊎ Between (s ∷ ts) v (segment_sampler s ts v))
  unfolding segment_sampler
  segment_sampler-Between ⦃t⦄ s ts v = elim (Bool-cases (num.le v s.value)) [
    | inl first ↦ inl (first, rw first refl)
    | inr after ↦ elim (Bool-cases (num.le (last_stop s ts).value v)) [
      | inl past ↦ inr (inl (past, rw (after, past) refl))
      | inr short ↦ inr (
          inr (
            rw (after, short)
              (Between-sample_loop s ts v after (t.total (last_stop s ts).value v short)
                (last_stop s ts))))
    ]
  ]
