-- ===== src/Map/Markers/Tags.antt =====
-- The tags of what is written as HTML (buildHtml of assets/js/hooks/maplibre_map.js).
use voria.Prelude.{
  ℕ, ◌≡◌, refl, sym, ◌∙◌, Option, none, some, [], ◌∷◌, ◌++◌, arith, if◌then◌else◌, if_both,
}
use voria.Prelude.Text.{Text, codes, is_empty}
use voria.Map.Markers.Html.{MarkerData, escape, esc, build_html}
use voria.Map.Markers.Escape.{entity, entities, escape-entities, is_markup}

-- The characters of a text that open or close a tag or an attribute.
unfoldable pub markup : Text → Text
markup [] = []
markup (c ∷ s) = let rest = markup s in if is_markup c then c ∷ rest else rest

pub markup-append : (s t : Text) → markup (s ++ t) ≡ markup s ++ markup t
unfolding markup
markup-append [] t = refl
markup-append (c ∷ s) t = ground (arith, markup-append s t)

markup-entity : (c : ℕ) → markup (entity c) ≡ []
unfolding markup entity is_markup
markup-entity c = ground arith

markup-entities : (s : Text) → markup (entities s) ≡ []
unfolding entities markup
markup-entities [] = refl
markup-entities (c ∷ s) =
    markup-append (entity c) (entities s) ∙ rw (markup-entity c, markup-entities s) refl

pub markup-escape : (s : Text) → markup (escape s) ≡ []
markup-escape s = rw (escape-entities s) (markup-entities s)

markup-esc : (value : Option Text) → markup (esc value) ≡ []
unfolding esc markup is_markup
markup-esc none = refl
markup-esc (some s) = if_both (λ (t : Text). markup t ≡ []) (is_empty s) refl (markup-escape s)

-- A part in the middle counts by its markup.
pub markup-middle :
    (a b c d : Text) → markup b ≡ markup c → markup (a ++ (b ++ d)) ≡ markup (a ++ (c ++ d))
markup-middle a b c d e =
    rw (markup-append a (b ++ d), markup-append a (c ++ d), markup-append b d, markup-append c d, e)
      refl

-- No value of a station adds a tag to its marker or breaks one: whatever it is, the HTML has the same
-- characters of markup, in the same order, as without a value.
pub markup-build_html :
    (clock : Text → Text) (d : MarkerData)
    → markup (build_html clock d) ≡ markup (build_html clock (record d { value = none }))
unfolding build_html
markup-build_html clock d =
    markup-middle (codes "<div class=\"map-marker\">") (esc d.value) (esc none) _
      (markup-esc d.value ∙ sym (markup-esc none))
