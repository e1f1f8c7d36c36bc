-- ===== src/Radar/Product.antt =====
-- The table of radar products and its lookup (PRODUCTS, productById).
use voria.Prelude.{
  ℕ, ◌*◌, ◌%◌, ◌<◌, ◌≡◌, refl, subst, ◌≢◌, ◌⊎◌, inl, inr, List, [], ◌∷◌, Option, none, some, arith,
  if◌then◌else◌, Bool-cases, Option-cases,
}
use voria.Prelude.Text.{Text, codes, text_eq, text_eq_sound, text_eq_complete}

pub record Product : Type 0 where
  pub id : Text
  pub file : Text
  pub period_ms : ℕ

abbrev pub minute_ms : ℕ
minute_ms = 60000

abbrev pub hour_ms : ℕ
hour_ms = 3600000

abbrev pub vmi : Product
vmi = record { id = codes "VMI"; file = codes "vmi"; period_ms = 5 * minute_ms }

abbrev pub temp : Product
temp = record { id = codes "TEMP"; file = codes "temp"; period_ms = hour_ms }

abbrev pub cum24 : Product
cum24 = record { id = codes "CUM24"; file = codes "cum24"; period_ms = 30 * minute_ms }

abbrev pub products : List Product
products =
    vmi
    ∷ record { id = codes "SRI"; file = codes "sri"; period_ms = 5 * minute_ms }
    ∷ record { id = codes "SRT1"; file = codes "srt1"; period_ms = 5 * minute_ms }
    ∷ record { id = codes "CUM3"; file = codes "cum3"; period_ms = 30 * minute_ms }
    ∷ record { id = codes "CUM6"; file = codes "cum6"; period_ms = 30 * minute_ms }
    ∷ record { id = codes "CUM12"; file = codes "cum12"; period_ms = 30 * minute_ms }
    ∷ cum24
    ∷ temp
    ∷ record { id = codes "IR_108"; file = codes "ir_108"; period_ms = 5 * minute_ms }
    ∷ []

-- `PRODUCTS.find((p) => p.id === id)`
unfoldable pub find_product : Text → List Product → Option Product
find_product id [] = none
find_product id (p ∷ ps) = if text_eq p.id id then some p else find_product id ps

unfoldable pub product_by_id : Text → Product
product_by_id id = elim (find_product id products) [ some p ↦ p | none ↦ vmi ]

-- The periods divide the hour, so that every full hour is a frame of every product.
abbrev pub DividesHour : ℕ → Type 0
DividesHour p = (0 < p) × (hour_ms % p ≡ 0)

abbrev pub AllProducts : (Product → Type 0) → List Product → Type 0
AllProducts P [] = Unit {0}
AllProducts P (p ∷ ps) = P p × AllProducts P ps

find_product-AllProducts :
    (P : Product → Type 0) (id : Text) (ps : List Product) {p : Product}
    → AllProducts P ps
    → find_product id ps ≡ some p
    → P p × (p.id ≡ id)
unfolding find_product
find_product-AllProducts P id [] all h = cc
find_product-AllProducts P id (q ∷ ps) {p} (hq, all) h = elim (Bool-cases (text_eq q.id id)) [
  | inl same ↦
      let h' : some q ≡ some p = rw same at h in
      let e : q ≡ p = cc in (subst P e hq, rw (← e) (text_eq_sound q.id id same))
  | inr other ↦ find_product-AllProducts P id ps all (rw other at h)
]

find_product-eq-none :
    (id : Text) (ps : List Product) → find_product id ps ≡ none → AllProducts (λ p. p.id ≢ id) ps
unfolding find_product
find_product-eq-none id [] h = tt
find_product-eq-none id (q ∷ ps) h = elim (Bool-cases (text_eq q.id id)) [
  | inl same ↦ cc (rw same at h)
  | inr other ↦
      (λ e. cc (other, text_eq_complete q.id id e), find_product-eq-none id ps (rw other at h))
]

products-DividesHour : AllProducts (λ p. DividesHour p.period_ms) products
products-DividesHour = omega arith

-- The lookup always gives an entry of the table, whose period is positive and divides the hour: the
-- entry of that id, or VMI if no entry has that id.
pub product_by_id_lem :
    (id : Text)
    → DividesHour (product_by_id id).period_ms
      × (((product_by_id id).id ≡ id)
          ⊎ ((product_by_id id ≡ vmi) × AllProducts (λ p. p.id ≢ id) products))
unfolding product_by_id
product_by_id_lem id = elim (Option-cases (find_product id products)) [
  | inl missing ↦
      rw (missing, product_by_id)
        (omega arith, inr (refl, find_product-eq-none id products missing))
  | inr (p, found) ↦
      let (divides, same) =
        find_product-AllProducts (λ p. DividesHour p.period_ms) id products products-DividesHour
          found in
      rw (found, product_by_id) (divides, inl same)
]

pub period_pos : (id : Text) → 0 < (product_by_id id).period_ms
period_pos id = (product_by_id_lem id).0.0
