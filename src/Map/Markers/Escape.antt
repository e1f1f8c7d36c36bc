-- ===== src/Map/Markers/Escape.antt =====
-- What the escaping of a marker's text promises (esc of assets/js/hooks/maplibre_map.js).
use voria.Prelude.{
  ℕ, Bool, true, false, ◌||◌, ◌≡◌, refl, ◌∙◌, [], ◌∷◌, ◌++◌, arith, ◌==◌, if◌then◌else◌, Bool-cases,
  ==_iff, inl, inr,
}
use mathlib.Core.List.{append_assoc}
use voria.Prelude.Text.{Text, codes, contains, contains-append}
use voria.Map.Markers.Html.{replace_all, escape}

-- What a character becomes, in one pass.
unfoldable pub entity : ℕ → Text
entity c =
    if c == b'&'
    then codes "&amp;"
    else if c == b'<'
    then codes "&lt;"
    else if c == b'>'
    then codes "&gt;"
    else if c == b'"'
    then codes "&quot;"
    else c ∷ []

unfoldable pub entities : Text → Text
entities [] = []
entities (c ∷ s) = entity c ++ entities s

replace_all-append :
    (c : ℕ) (t : Text) (s u : Text)
    → replace_all c t (s ++ u) ≡ replace_all c t s ++ replace_all c t u
unfolding replace_all
replace_all-append c t [] u = refl
replace_all-append c t (d ∷ s) u = elim (Bool-cases (d == c)) [
  | inl here ↦
      rw (here, replace_all-append c t s u, append_assoc t (replace_all c t s) (replace_all c t u))
        refl
  | inr there ↦ rw (there, replace_all-append c t s u) refl
]

escape-append : (s u : Text) → escape (s ++ u) ≡ escape s ++ escape u
unfolding escape
escape-append s u =
    rw (replace_all-append _ _ s u, replace_all-append, replace_all-append, replace_all-append) refl

escape-one : (c : ℕ) → escape (c ∷ []) ≡ entity c
unfolding escape replace_all entity
escape-one c = elim (Bool-cases (c == b'&')) [
  | inl e ↦ rw ((==_iff c b'&').0 e) refl
  | inr amp ↦ elim (Bool-cases (c == b'<')) [
    | inl e ↦ rw ((==_iff c b'<').0 e) refl
    | inr lt ↦ elim (Bool-cases (c == b'>')) [
      | inl e ↦ rw ((==_iff c b'>').0 e) refl
      | inr gt ↦ elim (Bool-cases (c == b'"')) [
        | inl e ↦ rw ((==_iff c b'"').0 e) refl
        | inr quot ↦ rw (amp, lt, gt, quot) refl
      ]
    ]
  ]
]

-- The four replacements one after the other escape every character once: no entity that one of them
-- writes is escaped again.
pub escape-entities : (s : Text) → escape s ≡ entities s
unfolding escape replace_all entities
escape-entities [] = refl
escape-entities (c ∷ s) = escape-append (c ∷ []) s ∙ rw (escape-one c, escape-entities s) refl

-- The characters that could close a tag or an attribute.
unfoldable pub is_markup : ℕ → Bool
is_markup c = (c == b'<') || ((c == b'>') || (c == b'"'))

contains-entity : (m c : ℕ) → is_markup m ≡ true → contains m (entity c) ≡ false
unfolding is_markup entity contains
contains-entity m c h = ground arith

contains-entities : (m : ℕ) (s : Text) → is_markup m ≡ true → contains m (entities s) ≡ false
unfolding entities contains
contains-entities m [] h = refl
contains-entities m (c ∷ s) h =
    contains-append m (entity c) (entities s)
    ∙ rw (contains-entity m c h, contains-entities m s h) refl

-- An escaped text holds no character that opens or closes a tag or an attribute.
pub contains-escape : (m : ℕ) (s : Text) → is_markup m ≡ true → contains m (escape s) ≡ false
contains-escape m s h = rw (escape-entities s) (contains-entities m s h)
