-- ===== src/Charts/Rose/Within.antt =====
-- The bars of the wind rose stay inside of it.
use voria.Prelude.{
  ℕ, suc, ◌*◌, ◌-◌, ◌+◌, ◌≤◌, ◌<◌, ◌==◌, ◌≡◌, ap, ◌∙◌, Option, none, some, List, [], ◌∷◌, map, min,
  arith, if_cases, ◌⊎◌, subst, sym, length, if_both, with_value,
}
use voria.Prelude.Int.{ℤ, pos, ◌≤ℤ◌, ◌*ℤ◌, ◌+ℤ◌, *ℤ_parts, +ℤ_parts, mul_le_mul, sub_ℕ}
use voria.Prelude.Text.{Text, text_eq}
use voria.Entries.{get, set_entry}
use voria.Charts.Layout.{Size, wind_layout}
use voria.Charts.Rose.{
  Share, Bar, twice_max_r, by_name, max_pct, bar, bars_from, render_rose, sectors_order,
}

-- No number of the list is above this one.
abbrev pub AllBelow : ℕ → List ℕ → Type 0
AllBelow m [] = Unit {0}
AllBelow m (x ∷ xs) = (x ≤ m) × AllBelow m xs

-- What d3 promises of `max`: a list has no greatest element only if it is empty.
abbrev pub Covers : List ℕ → Option ℕ → Type 0
Covers xs none = xs ≡ []
Covers xs (some m) = AllBelow m xs

-- A bar that ends between the middle of the rose and 28 pixels before the nearest edges.
abbrev pub IsWithin : ℕ → ℤ → ℕ → Type 0
IsWithin size twice_radius parts =
    (pos 0 ≤ℤ twice_radius) × (twice_radius +ℤ pos (56 * parts) ≤ℤ pos (size * parts)) × (0 < parts)

abbrev pub AllWithin : ℕ → List Bar → Type 0
AllWithin size [] = Unit {0}
AllWithin size (b ∷ bs) = IsWithin size b.twice_radius b.parts × AllWithin size bs

SharesBelow : ℕ → List (Text × ℕ) → Type 0
SharesBelow m [] = Unit {0}
SharesBelow m ((name, p) ∷ es) = (p ≤ m) × SharesBelow m es

SharesBelow-set_entry :
    (m : ℕ) (name : Text) (p : ℕ) (es : List (Text × ℕ))
    → p ≤ m
    → SharesBelow m es
    → SharesBelow m (set_entry name p es)
unfolding SharesBelow set_entry
SharesBelow-set_entry m name p [] h b = (h, tt)
SharesBelow-set_entry m name p ((u, q) ∷ es) h (a, b) =
    if_both (SharesBelow m) (text_eq u name) (h, b) (a, SharesBelow-set_entry m name p es h b)

SharesBelow-by_name :
    (m : ℕ) (es : List (Text × ℕ)) (rose : List Share)
    → SharesBelow m es
    → AllBelow m (map (λ (d : Share). d.pct) rose)
    → SharesBelow m (by_name es rose)
unfolding by_name
SharesBelow-by_name m es [] b h = b
SharesBelow-by_name m es (d ∷ ds) b (le, h) =
    SharesBelow-by_name m (set_entry d.sector d.pct es) ds
      (SharesBelow-set_entry m d.sector d.pct es le b) h

share-le :
    (m : ℕ) (name : Text) (es : List (Text × ℕ))
    → SharesBelow m es
    → with_value (get name es) (λ p. p) 0 ≤ m
unfolding SharesBelow get
share-le m name [] b = omega arith
share-le m name ((u, q) ∷ es) (a, b) =
    if_both (λ o. with_value o (λ p. p) 0 ≤ m) (text_eq u name) a (share-le m name es b)

IsWithin-share :
    (size m : ℕ) (r : ℤ) (share : ℕ)
    → 56 ≤ size
    → r ≡ pos (size - 56)
    → 0 < m
    → share ≤ m
    → IsWithin size (r *ℤ share) m
IsWithin-share size m r share fits e h le =
    let longest = mul_le_mul (size - 56) le in
    let split : size ≡ size - 56 + 56 = omega arith in
    let whole : size * m ≡ m * (size - 56) + 56 * m = ap (λ (n : ℕ). n * m) split ∙ grind arith in
    rw e (
      omega (arith, *ℤ_parts (pos (size - 56)) share),
      omega (
        arith,
        *ℤ_parts (pos (size - 56)) share,
        +ℤ_parts (pos (size - 56) *ℤ share) (pos (56 * m)),
        longest,
        whole,
      ),
      h,
    )

AllWithin-bars_from :
    (size m : ℕ) (r : ℤ) (es : List (Text × ℕ)) (i : ℕ) (names : List Text)
    → 56 ≤ size
    → r ≡ pos (size - 56)
    → 0 < m
    → SharesBelow m es
    → AllWithin size (bars_from r m es i names)
unfolding bars_from bar
AllWithin-bars_from size m r es i [] fits e h b = tt
AllWithin-bars_from size m r es i (name ∷ names) fits e h b =
    let share = with_value (get name es) (λ p. p) 0 in
    (
      IsWithin-share size m r share fits e h (share-le m name es b),
      AllWithin-bars_from size m r es (suc i) names fits e h b,
    )

AllBelow-mono : {m n : ℕ} (xs : List ℕ) → m ≤ n → AllBelow m xs → AllBelow n xs
AllBelow-mono [] h b = tt
AllBelow-mono (x ∷ xs) h (le, b) = (omega arith, AllBelow-mono xs h b)

top-AllBelow : (xs : List ℕ) (o : Option ℕ) → Covers xs o → AllBelow (with_value o (λ m. m) 0) xs
top-AllBelow xs none e = subst (AllBelow 0) (sym e) tt
top-AllBelow xs (some m) b = b

max_pct-AllBelow :
    (one : ℕ) (max_of : List ℕ → Option ℕ) (rose : List Share)
    → 0 < one
    → Covers (map (λ (d : Share). d.pct) rose) (max_of (map (λ (d : Share). d.pct) rose))
    → (0 < max_pct one max_of rose)
      × AllBelow (max_pct one max_of rose) (map (λ (d : Share). d.pct) rose)
unfolding max_pct
max_pct-AllBelow one max_of rose h c =
    let xs = map (λ (d : Share). d.pct) rose in
    let top = with_value (max_of xs) (λ m. m) 0 in
    let b = top-AllBelow xs (max_of xs) c in
    if_cases (λ m. (0 < m) × AllBelow m xs) (top == 0)
      (λ z. (h, AllBelow-mono xs (ground (arith, z)) b)) (λ nz. (ground (arith, nz), b))

-- The rose has room: its part is at least as wide and as high as its edges need.
rose-fits :
    (client : Size)
    → (client.width ≡ 0) ⊎ (56 ≤ client.width)
    → (client.height ≡ 0) ⊎ (124 ≤ client.height)
    → 56 ≤ min (wind_layout client).rose.width (wind_layout client).rose.height
unfolding wind_layout
rose-fits client w h = ground arith

-- On a chart that has its default width or at least 56 pixels, and its default height or at least
-- 124, and if no share is above d3's maximum of them: every bar of the rose that is drawn in its part of
-- the chart reaches from the middle at most to 28 pixels before the nearest edge, where the names of the
-- compass are.
pub render_rose-AllWithin :
    (one : ℕ) (max_of : List ℕ → Option ℕ) (client : Size) (rose : List Share)
    → 0 < one
    → ((xs : List ℕ) → Covers xs (max_of xs))
    → (client.width ≡ 0) ⊎ (56 ≤ client.width)
    → (client.height ≡ 0) ⊎ (124 ≤ client.height)
    → AllWithin
        (min (wind_layout client).rose.width (wind_layout client).rose.height)
        (render_rose one max_of (wind_layout client).rose rose).bars
unfolding render_rose twice_max_r SharesBelow
render_rose-AllWithin one max_of client rose h covers w ht =
    let size = min (wind_layout client).rose.width (wind_layout client).rose.height in
    let fits = rose-fits client w ht in
    let (positive, below) = max_pct-AllBelow one max_of rose h (covers _) in
    let room : sub_ℕ size 56 ≡ pos (size - 56) = ground (arith, fits) in
    if_both (AllWithin size) (length rose == 0) tt (
      AllWithin-bars_from size (max_pct one max_of rose) _ (by_name [] rose) 0 sectors_order fits
        room positive (SharesBelow-by_name (max_pct one max_of rose) [] rose tt below))
