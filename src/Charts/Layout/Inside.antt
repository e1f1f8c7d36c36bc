-- ===== src/Charts/Layout/Inside.antt =====
-- No value is drawn outside of the scales.
use voria.Prelude.{ℕ, ◌*◌, ◌<◌, ◌≡◌, false, ◌&&◌, if_cases, List, [], ◌∷◌, map, arith}
use voria.Prelude.Int.{ℤ, pos, ◌≤ℤ◌, ◌<ℤ◌, ◌*ℤ◌, ◌-ℤ◌, ◌+ℤ◌, leb_ℤ, int_laws, -ℤ_parts, +ℤ_parts}
use voria.Charts.Segments.{Point}
use voria.Charts.Layout.{y_domain}

-- Every value of the list lies between the two.
abbrev pub Covers : List ℤ → ℤ × ℤ → Type 0
Covers [] e = Unit {0}
Covers (v ∷ vs) e = (e.0 ≤ℤ v) × (v ≤ℤ e.1) × Covers vs e

-- Ten times the value of each point lies inside of the domain, which is in tenths.
abbrev pub AllInside : ℤ × ℤ → List (Point ℤ) → Type 0
AllInside domain [] = Unit {0}
AllInside domain (p ∷ ps) = (domain.0 <ℤ p.v *ℤ 10) × (p.v *ℤ 10 <ℤ domain.1) × AllInside domain ps

AllInside-covered :
    (low high lower upper : ℤ) (ps : List (Point ℤ))
    → lower <ℤ low *ℤ 10
    → high *ℤ 10 <ℤ upper
    → Covers (map (λ (d : Point ℤ). d.v) ps) (low, high)
    → AllInside (lower, upper) ps
AllInside-covered low high lower upper [] a b c = tt
AllInside-covered low high lower upper (p ∷ ps) a b (l, h, c) =
    (omega int_laws, omega int_laws, AllInside-covered low high lower upper ps a b c)

AllInside-padded :
    (low high pad : ℤ) (ps : List (Point ℤ))
    → pos 0 <ℤ pad
    → Covers (map (λ (d : Point ℤ). d.v) ps) (low, high)
    → AllInside (low *ℤ 10 -ℤ pad, high *ℤ 10 +ℤ pad) ps
AllInside-padded low high pad ps h c =
    AllInside-covered low high (low *ℤ 10 -ℤ pad) (high *ℤ 10 +ℤ pad) ps
      (omega (arith, -ℤ_parts (low *ℤ 10) pad)) (omega (arith, +ℤ_parts (high *ℤ 10) pad)) c

span_positive :
    (low high : ℤ) → low ≤ℤ high → (leb_ℤ high low && leb_ℤ low high) ≡ false → pos 0 <ℤ high -ℤ low
span_positive low high le apart =
    let less : low <ℤ high = ground arith in omega (arith, -ℤ_parts high low)

-- A line chart draws every point inside of its scale: if d3's extent covers the values, each of them
-- lies above the start of the domain and below its end.
pub y_domain-AllInside :
    (one : ℕ) (extent : List ℤ → ℤ × ℤ)
    → 0 < one
    → ((vs : List ℤ) → Covers vs (extent vs))
    → (p : Point ℤ) (ps : List (Point ℤ)) → AllInside (y_domain one extent (p ∷ ps)) (p ∷ ps)
unfolding y_domain
y_domain-AllInside one extent h covers p ps =
    let values = map (λ (d : Point ℤ). d.v) (p ∷ ps) in
    let low = (extent values).0 in
    let high = (extent values).1 in
    let c = covers values in
    if_cases (λ pad. AllInside (low *ℤ 10 -ℤ pad, high *ℤ 10 +ℤ pad) (p ∷ ps))
      (leb_ℤ high low && leb_ℤ low high)
      (λ _. AllInside-padded low high (pos (one * 10)) (p ∷ ps) (omega arith) c)
      (λ apart.
        AllInside-padded low high (high -ℤ low) (p ∷ ps)
          (span_positive low high (ground (arith, c)) apart) c)
