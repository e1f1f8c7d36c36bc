-- ===== src/Radar/Period.antt =====
-- The period of a product as the service writes it, `PT5M` (parsePeriod of assets/js/radar.js).
use voria.Prelude.{
  ℕ, ◌+◌, ◌*◌, ◌≡◌, refl, ap, true, false, [], ◌∷◌, ◌++◌, Option, none, some, arith, ◌==◌,
  if◌then◌else◌, and_true, ◌<◌, ◌%◌,
}
use voria.Prelude.Text.{
  Text, codes, is_digit, is_empty, all_digits, value, decimal, strip_prefix, all_digits-decimal,
  is_empty-decimal, value-decimal,
}

-- The longest run of digits at the front, and what follows it.
span_digits : Text → Text × Text
span_digits [] = ([], [])
span_digits (c ∷ s) =
    let (run, rest) = span_digits s in if is_digit c then (c ∷ run, rest) else ([], c ∷ s)

-- The group `(?:(\d+)X)?` for a unit letter X: the number, or `0` where the group is not there.
take_unit : ℕ → Text × Text → Text → ℕ × Text
take_unit unit ([], rest) s = (0, s)
take_unit unit (d ∷ run, []) s = (0, s)
take_unit unit (d ∷ run, u ∷ rest) s = if u == unit then (value 0 (d ∷ run), rest) else (0, s)

group : ℕ → Text → ℕ × Text
unfolding span_digits take_unit
group unit s = take_unit unit (span_digits s) s

-- `… || null`
pub nonzero : ℕ → Option ℕ
nonzero n = if n == 0 then none else some n

-- After `PT`: hours, minutes, and the end of the text.
parse_groups : Text → Option ℕ
unfolding group nonzero is_empty
parse_groups s =
    let (hours, s1) = group b'H' s in
    let (minutes, s2) = group b'M' s1 in
    if is_empty s2 then nonzero ((hours * 3600 + minutes * 60) * 1000) else none

-- What follows the prefix, if it is there.
parse_rest : Option Text → Option ℕ
unfolding parse_groups
parse_rest none = none
parse_rest (some rest) = parse_groups rest

-- `parsePeriod(iso)`; a missing text reads as the empty one.
unfoldable pub parse_period : Option Text → Option ℕ
unfolding parse_rest strip_prefix
parse_period none = none
parse_period (some iso) = parse_rest (strip_prefix (codes "PT") iso)

parse_5m : parse_period (some (codes "PT5M")) ≡ some 300000
unfolding parse_period is_digit value
parse_5m = refl

parse_1h30m : parse_period (some (codes "PT1H30M")) ≡ some 5400000
unfolding parse_period is_digit value
parse_1h30m = refl

parse_bad : parse_period (some (codes "PT5S")) ≡ none
unfolding parse_period is_digit value
parse_bad = refl

span_digits-append :
    (w : Text) (c : ℕ) (s : Text)
    → all_digits w ≡ true
    → is_digit c ≡ false
    → span_digits (w ++ c ∷ s) ≡ (w, c ∷ s)
unfolding span_digits all_digits
span_digits-append [] c s hw hc = rw hc
span_digits-append (d ∷ w) c s hw hc =
    let (hd, rest) = and_true (is_digit d) (all_digits w) hw in
    rw (span_digits-append w c s rest hc, hd)

take_unit-eq_some :
    (unit : ℕ) (w s t : Text) → is_empty w ≡ false → take_unit unit (w, unit ∷ s) t ≡ (value 0 w, s)
unfolding take_unit is_empty
take_unit-eq_some unit [] s t h = cc
take_unit-eq_some unit (d ∷ w) s t h = ground arith

take_unit-eq_none :
    (unit other : ℕ) (w s t : Text)
    → (other == unit) ≡ false
    → take_unit unit (w, other ∷ s) t ≡ (0, t)
unfolding take_unit
take_unit-eq_none unit other [] s t h = refl
take_unit-eq_none unit other (d ∷ w) s t h = rw h

module _ (unit : ℕ) (n : ℕ) (s : Text) where
  group-decimal : is_digit unit ≡ false → group unit (decimal n ++ unit ∷ s) ≡ (n, s)
  unfolding group
  group-decimal h = rw (
    span_digits-append (decimal n) unit s (all_digits-decimal n) h,
    take_unit-eq_some unit (decimal n) s _ (is_empty-decimal n),
    value-decimal n,
  )

  group-decimal_other :
      (other : ℕ)
      → is_digit other ≡ false
      → (other == unit) ≡ false
      → group unit (decimal n ++ other ∷ s) ≡ (0, decimal n ++ other ∷ s)
  unfolding group
  group-decimal_other other h ne = rw (
    span_digits-append (decimal n) other s (all_digits-decimal n) h,
    take_unit-eq_none unit other (decimal n) s _ ne,
  )

-- A period written with hours and minutes, with hours alone or with minutes alone is read as that
-- many milliseconds, and as no period if it is zero.
pub parse_period-decimal :
    (h m : ℕ)
    → (parse_period (some (codes "PT" ++ (decimal h ++ b'H' ∷ (decimal m ++ b'M' ∷ []))))
        ≡ nonzero ((h * 3600 + m * 60) * 1000))
      × (parse_period (some (codes "PT" ++ (decimal h ++ b'H' ∷ []))) ≡ nonzero (h * 3600 * 1000))
      × (parse_period (some (codes "PT" ++ (decimal m ++ b'M' ∷ []))) ≡ nonzero (m * 60 * 1000))
unfolding parse_period is_empty is_digit
parse_period-decimal h m = (
  rw (group-decimal b'H' h (decimal m ++ b'M' ∷ []) refl, group-decimal b'M' m [] refl),
  rw (group-decimal b'H' h [] refl) (ap nonzero (omega arith)),
  rw (group-decimal_other b'H' m [] b'M' refl refl, group-decimal b'M' m [] refl)
      (ap nonzero (omega arith)),
)

parse_groups-minutes : (s : Text) {p : ℕ} → parse_groups s ≡ some p → (0 < p) × (p % 60000 ≡ 0)
unfolding parse_groups
parse_groups-minutes s h = (ground arith, ground arith)

parse_rest-minutes : (o : Option Text) {p : ℕ} → parse_rest o ≡ some p → (0 < p) × (p % 60000 ≡ 0)
unfolding parse_rest
parse_rest-minutes none h = cc
parse_rest-minutes (some s) h = parse_groups-minutes s h

-- A period that is read is a positive number of whole minutes.
pub parse_period-minutes :
    (iso : Option Text) {p : ℕ} → parse_period iso ≡ some p → (0 < p) × (p % 60000 ≡ 0)
unfolding parse_period
parse_period-minutes none h = cc
parse_period-minutes (some iso) h = parse_rest-minutes _ h
