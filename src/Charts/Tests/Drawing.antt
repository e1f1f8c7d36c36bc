-- ===== src/Charts/Tests/Drawing.antt =====
-- The theorems on the tooltips, the scales and the wind rose at concrete inputs, with a bisector and
-- the extremes of a list that scan it.
use voria.Prelude.{
  ℕ, zero, suc, ◌≤◌, ◌<◌, ◌≡◌, refl, inl, inr, Option, none, some, List, [], ◌∷◌, arith, leb, min,
  max, length, get_elem?, if◌then◌else◌, if_cases, leb→le,
}
use voria.Prelude.Int.{ℤ, pos, ◌≤ℤ◌, min_ℤ, max_ℤ, min_ℤ_cases, max_ℤ_cases}
use voria.Prelude.Text.{codes}
use voria.Charts.Segments.{Point}
use voria.Charts.Segments.Outside.{Sorted, SortedFrom}
use voria.Charts.Tests.{early, later}
use voria.Charts.Pointer.{hovered}
use voria.Charts.Pointer.Nearest.{IsLeft, first_at, hovered-first_at}
use voria.Charts.Layout.{Size, wind_layout}
use voria.Charts.Layout.Inside
use voria.Charts.Layout.Inside.{AllInside, y_domain-AllInside}
use voria.Charts.Rose.{Share, render_rose}
use voria.Charts.Rose.Within
use voria.Charts.Rose.Within.{AllBelow, AllWithin, render_rose-AllWithin}

-- The number of points at the start that are before the instant.
count_before : List (Point ℕ) → ℕ → ℕ
count_before [] x = 0
count_before (p ∷ ps) x = let rest = count_before ps x in if leb x p.t then 0 else suc rest

scan : List (Point ℕ) → ℕ → ℕ → ℕ
scan [] x lo = lo
scan (p ∷ ps) x lo = suc (count_before ps x)

record Splits (ps : List (Point ℕ)) (x i : ℕ) : Type 0 where
  upper : i ≤ length ps
  before : (j : ℕ) (q : Point ℕ) → get_elem? ps j ≡ some q → j < i → q.t < x
  behind : (j : ℕ) (q : Point ℕ) → get_elem? ps j ≡ some q → i ≤ j → x ≤ q.t

Sorted-le :
    (p : Point ℕ) (ps : List (Point ℕ)) (x j : ℕ) (q : Point ℕ)
    → SortedFrom p ps
    → x ≤ p.t
    → get_elem? (p ∷ ps) j ≡ some q
    → x ≤ q.t
Sorted-le p ps x zero q s h e = ground (arith, h, e)
Sorted-le p [] x (suc j) q s h e = cc
Sorted-le p (r ∷ ps) x (suc j) q s h e = Sorted-le r ps x j q s.1 (omega (arith, s.0, h)) e

Sorted-tail : (p : Point ℕ) (ps : List (Point ℕ)) → SortedFrom p ps → Sorted ps
Sorted-tail p [] s = tt
Sorted-tail p (q ∷ qs) s = s.1

module _ (p : Point ℕ) (ps : List (Point ℕ)) (x i : ℕ) (l : Splits ps x i) where
  before-tail : (j : ℕ) (q : Point ℕ) → get_elem? (p ∷ ps) j ≡ some q → 1 ≤ j → j < suc i → q.t < x
  before-tail zero q e m k = absurd (omega (arith, m))
  before-tail (suc j) q e m k = l.before j q e (omega (arith, k))

  behind-tail : (j : ℕ) (q : Point ℕ) → get_elem? (p ∷ ps) j ≡ some q → suc i ≤ j → x ≤ q.t
  behind-tail zero q e k = absurd (omega (arith, k))
  behind-tail (suc j) q e k = l.behind j q e (omega (arith, k))

  before-all : p.t < x → (j : ℕ) (q : Point ℕ) → get_elem? (p ∷ ps) j ≡ some q → j < suc i → q.t < x
  before-all h zero q e k = ground (arith, h, e)
  before-all h (suc j) q e k = before-tail (suc j) q e (omega arith) k

  before-head : p.t < x → Splits (p ∷ ps) x (suc i)
  before-head h = record {
    upper = omega (arith, l.upper);
    before = before-all h;
    behind = behind-tail;
  }

Splits-count_before : (ps : List (Point ℕ)) (x : ℕ) → Sorted ps → Splits ps x (count_before ps x)
unfolding count_before
Splits-count_before [] x s = record {
  upper = omega arith;
  before = λ j q e k. absurd (omega (arith, k));
  behind = λ j q e k. cc;
}
Splits-count_before (p ∷ ps) x s =
    if_cases (Splits (p ∷ ps) x) (leb x p.t)
      (λ late. record {
        upper = omega arith;
        before = λ j q e k. absurd (omega (arith, k));
        behind = λ j q e k. Sorted-le p ps x j q s (leb→le x p.t late) e;
      })
      (λ early.
        before-head p ps x (count_before ps x) (Splits-count_before ps x (Sorted-tail p ps s))
          (ground (arith, early)))

IsLeft-scan :
    (ps : List (Point ℕ)) (x : ℕ) → 0 < length ps → Sorted ps → IsLeft ps x 1 (scan ps x 1)
unfolding scan
IsLeft-scan [] x h s = absurd (omega (arith, h))
IsLeft-scan (p ∷ ps) x h s =
    let l = Splits-count_before ps x (Sorted-tail p ps s) in
    record {
      lower = omega arith;
      upper = omega (arith, l.upper);
      before = before-tail p ps x (count_before ps x) l;
      behind = behind-tail p ps x (count_before ps x) l;
    }

hovered-first_at_example : hovered scan (early ∷ later) 90000 ≡ some (first_at early 90000 later)
hovered-first_at_example =
    hovered-first_at scan IsLeft-scan early later 90000 (omega arith, (omega arith, tt))

-- The least and the greatest value, and 0 for no values.
pub extent : List ℤ → ℤ × ℤ
extent [] = (pos 0, pos 0)
extent (v ∷ vs) = let (low, high) = extent vs in (min_ℤ v low, max_ℤ v high)

Covers-wider :
    (vs : List ℤ) (a b c d : ℤ)
    → c ≤ℤ a
    → b ≤ℤ d
    → Inside.Covers vs (a, b)
    → Inside.Covers vs (c, d)
Covers-wider [] a b c d h k l = tt
Covers-wider (v ∷ vs) a b c d h k (x, y, l) =
    (omega (arith, h, x), omega (arith, k, y), Covers-wider vs a b c d h k l)

pub Covers-extent : (vs : List ℤ) → Inside.Covers vs (extent vs)
unfolding extent
Covers-extent [] = tt
Covers-extent (v ∷ vs) =
    let low = (extent vs).0 in
    let high = (extent vs).1 in
    let a = min_ℤ_cases v low in
    let b = max_ℤ_cases v high in
    (
      ground (arith, a),
      ground (arith, b),
      Covers-wider vs low high (min_ℤ v low) (max_ℤ v high) (ground (arith, a)) (ground (arith, b))
          (Covers-extent vs),
    )

greatest_from : ℕ → List ℕ → ℕ
greatest_from m [] = m
greatest_from m (x ∷ xs) = greatest_from (max m x) xs

pub greatest : List ℕ → Option ℕ
greatest [] = none
greatest (x ∷ xs) = some (greatest_from x xs)

AllBelow-greatest_from :
    (m : ℕ) (xs : List ℕ) → (m ≤ greatest_from m xs) × AllBelow (greatest_from m xs) xs
unfolding greatest_from
AllBelow-greatest_from m [] = (omega arith, tt)
AllBelow-greatest_from m (x ∷ xs) =
    let (le, b) = AllBelow-greatest_from (max m x) xs in (omega (arith, le), (omega (arith, le), b))

Covers-greatest : (xs : List ℕ) → Within.Covers xs (greatest xs)
unfolding greatest
Covers-greatest [] = refl
Covers-greatest (x ∷ xs) = AllBelow-greatest_from x xs

abbrev page : Size
page = record { width = 900; height = 0 }

abbrev winds : List Share
winds = record { sector = codes "N"; pct = 125 } ∷ record { sector = codes "SSW"; pct = 600 } ∷ []

render_rose-AllWithin_example :
    AllWithin
      (min (wind_layout page).rose.width (wind_layout page).rose.height)
      (render_rose 10 greatest (wind_layout page).rose winds).bars
render_rose-AllWithin_example =
    render_rose-AllWithin 10 greatest page winds (omega arith) Covers-greatest (inr (omega arith))
      (inl refl)
