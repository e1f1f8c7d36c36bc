-- ===== src/Radar/Url.antt =====
-- The addresses of radar tiles (rawTileUrl, parseProtocolUrl, tileUrl of assets/js/radar.js): the
-- map asks for tiles under a protocol of its own, which is parsed and taken to the service's
-- archive. `Date` is the calendar of ECMAScript in UTC.
use voria.Prelude.{
  ℕ, ◌+◌, ◌-◌, ◌*◌, ◌/◌, ◌%◌, ◌≡◌, refl, sym, ap, false, ◌||◌, List, [], ◌∷◌, ◌++◌, Option, none,
  some, ltb, if◌then◌else◌,
}
use voria.Prelude.Text.{
  Text, codes, text_eq, contains, split, split-append, split-eq_self, remove_first, decimal,
  parse_decimal, parse_decimal-decimal, pad_start, is_empty, is_empty-decimal, all_digits-decimal,
  contains_of_all_digits, contains-append, is_digit,
}
use mathlib.Core.List.{append_assoc}
use voria.Radar.Product.{find_product, product_by_id}

-- A tile request: `time_ms` is `none` for NaN, a text that is no decimal numeral.
pub record TileRef : Type 0 where
  pub product_id : Text
  pub time_ms : Option ℕ
  pub z : Text
  pub x : Text
  pub y : Text

abbrev pub slash : ℕ
slash = b'/'

abbrev pub protocol : Text
protocol = codes "dpc-radar://"

-- `tileUrl(productId, timeMs)`: a template, in which the map fills in the tile's place.
unfoldable pub tile_url : Text → ℕ → Text
tile_url product_id time_ms =
    protocol ++ (product_id ++ slash ∷ (decimal time_ms ++ codes "/{z}/{x}/{y}"))

-- The destructured parts: a missing one is undefined, and an empty one counts as missing.
tile_parts : List Text → Option TileRef
tile_parts (p ∷ t ∷ z ∷ x ∷ y ∷ _) =
    if is_empty p || is_empty t || is_empty z || is_empty x || is_empty y
    then none
    else some (record { product_id = p; time_ms = parse_decimal t; z = z; x = x; y = y })
tile_parts _ = none

unfoldable pub parse_protocol_url : Text → Option TileRef
unfolding tile_parts
parse_protocol_url url = tile_parts (split slash (remove_first protocol url))

pub record CivilDate : Type 0 where
  pub year : ℕ
  pub month : ℕ
  pub day : ℕ

-- Days since 1970-01-01 as a date of the Gregorian calendar, by its cycle of 400 years from March.
unfoldable pub civil_date : ℕ → CivilDate
civil_date days =
    let doe = (days + 719468) % 146097 in
    let yoe = (doe - doe / 1460 + doe / 36524 - doe / 146096) / 365 in
    let doy = doe - (365 * yoe + yoe / 4 - yoe / 100) in
    let mp = (5 * doy + 2) / 153 in
    let month = if ltb mp 10 then mp + 3 else mp - 9 in
    record {
      year = yoe + (days + 719468) / 146097 * 400 + (if ltb month 3 then 1 else 0);
      month = month;
      day = doy - (153 * mp + 2) / 5 + 1;
    }

abbrev pub tile_base : Text
tile_base = codes "https://s3-prod-dpc-radar-webp-cache.s3.eu-south-1.amazonaws.com"

two_digits : ℕ → Text
two_digits n = pad_start 2 b'0' (decimal n)

-- The middle of an address, `yyyy/mm/dd/hhmi`; the fields of an invalid date are all NaN.
date_path : Option ℕ → Text
unfolding two_digits civil_date
date_path none = codes "NaN/NaN/NaN/NaNNaN"
date_path (some ms) =
    let d = civil_date (ms / 86400000) in
    decimal d.year
    ++ slash
      ∷ (two_digits d.month
          ++ slash
            ∷ (two_digits d.day
                ++ slash ∷ (two_digits (ms / 3600000 % 24) ++ two_digits (ms / 60000 % 60))))

unfoldable pub raw_tile_url : TileRef → Text
unfolding date_path
raw_tile_url r =
    let product = product_by_id r.product_id in
    tile_base
    ++ slash
      ∷ (product.id
          ++ slash
            ∷ (date_path r.time_ms
                ++ slash
                  ∷ (r.z
                      ++ slash
                        ∷ (r.x ++ slash ∷ (r.y ++ slash ∷ (product.file ++ codes ".webp"))))))

remove_first-protocol : (s : Text) → remove_first protocol (protocol ++ s) ≡ s
unfolding remove_first
remove_first-protocol s = refl

plain_decimal : (n : ℕ) → contains slash (decimal n) ≡ false
unfolding is_digit
plain_decimal n = contains_of_all_digits slash (decimal n) refl (all_digits-decimal n)

split-decimal_end : (n : ℕ) → split slash (decimal n) ≡ decimal n ∷ []
split-decimal_end n = split-eq_self slash (decimal n) (plain_decimal n)

split-decimal :
    (n : ℕ) (s : Text) → split slash (decimal n ++ slash ∷ s) ≡ decimal n ∷ split slash s
split-decimal n s = split-append slash (decimal n) s (plain_decimal n)

-- The place of a tile behind the rest of its address.
abbrev pub place : ℕ → ℕ → ℕ → Text
place z x y = slash ∷ (decimal z ++ slash ∷ (decimal x ++ slash ∷ decimal y))

-- The address without its place, and with one text or another for it.
abbrev stem : Text → ℕ → Text
stem id t = protocol ++ (id ++ slash ∷ decimal t)

stem-append :
    (id : Text) (t : ℕ) (s : Text) → stem id t ++ s ≡ protocol ++ (id ++ slash ∷ (decimal t ++ s))
stem-append id t s = ap (λ r. protocol ++ r) (append_assoc id (slash ∷ decimal t) s)

template-tile_url : (id : Text) (t : ℕ) → tile_url id t ≡ stem id t ++ codes "/{z}/{x}/{y}"
unfolding tile_url
template-tile_url id t = sym (stem-append id t (codes "/{z}/{x}/{y}"))

no_brace-stem : (id : Text) (t : ℕ) → contains b'{' id ≡ false → contains b'{' (stem id t) ≡ false
unfolding contains is_digit
no_brace-stem id t plain = rw (
  contains-append b'{' id (slash ∷ decimal t),
  plain,
  contains_of_all_digits b'{' (decimal t) refl (all_digits-decimal t),
)

-- A library of maps that fills in the place of a tile where a template ends in the names of its parts.
abbrev pub Fills : (ℕ → ℕ → ℕ → Text → Text) → Type 0
Fills expand =
    (z x y : ℕ) (s : Text)
    → contains b'{' s ≡ false
    → expand z x y (s ++ codes "/{z}/{x}/{y}") ≡ s ++ place z x y

-- For a product whose name is not empty and holds neither a slash nor a brace: the template that the
-- map has filled in with whole numbers for the place is read back as the product, the instant and the
-- place that the address was built from.
pub parse_protocol_url-tile_url :
    (expand : ℕ → ℕ → ℕ → Text → Text) (id : Text) (t z x y : ℕ)
    → Fills expand
    → is_empty id ≡ false
    → contains slash id ≡ false
    → contains b'{' id ≡ false
    → parse_protocol_url (expand z x y (tile_url id t))
      ≡ some (record {
        product_id = id;
        time_ms = some t;
        z = decimal z;
        x = decimal x;
        y = decimal y;
      })
unfolding parse_protocol_url
parse_protocol_url-tile_url expand id t z x y fills filled plain brace = rw (
  template-tile_url id t,
  fills z x y (stem id t) (no_brace-stem id t brace),
  stem-append id t (place z x y),
  remove_first-protocol _,
  split-append slash id _ plain,
  split-decimal,
  split-decimal,
  split-decimal,
  split-decimal_end,
  filled,
  is_empty-decimal t,
  is_empty-decimal z,
  is_empty-decimal x,
  is_empty-decimal y,
  parse_decimal-decimal,
)

tile_2024 :
    raw_tile_url (record {
      product_id = codes "SRI";
      time_ms = some 1709251500000;
      z = codes "7";
      x = codes "68";
      y = codes "47";
    })
    ≡ codes
        "https://s3-prod-dpc-radar-webp-cache.s3.eu-south-1.amazonaws.com/SRI/2024/03/01/0005/7/68/47/sri.webp"
unfolding raw_tile_url decimal pad_start product_by_id find_product text_eq
tile_2024 = refl
