-- ===== src/Map/TileCache/Content.antt =====
-- What a tile is made of (the asynchronous function in fetchColorizedTile of
-- assets/js/hooks/maplibre_map.js): the address that is asked for, the answer, and its colours. The
-- decoder of images is the browser's, and what it makes of an answer comes with the answer.
use voria.Prelude.{
  ℕ, ◌≡◌, refl, sym, ap, Bool-cases, inl, inr, ◌∙◌, subst, Bool, false, Option, none, some, List,
  [], ◌∷◌, map, leb, length, if◌then◌else◌, if_cases, if_both, with_value,
}
use voria.Prelude.Text.{Text, text_eq, text_eq_sound, contains, is_empty, decimal}
use voria.Entries.{get, delete, set_entry, drop_oldest, has_key}
use voria.Radar.Url.{
  Fills, parse_protocol_url, raw_tile_url, tile_url, slash, parse_protocol_url-tile_url,
}
use voria.Map.TileCache.{
  tile_cache_max, Cache, Served, Event, fetch, load, break, settle, serve, fetch_colorized_tile,
  loaded, broken, settled, run_event, run_events,
}
use voria.Map.TileCache.Valid.{empty}

-- `failed` is a request that throws; `image` is `none` where the answer is no image.
pub data Answer {ℓ} (Bitmap : Type ℓ) : Type ℓ where
  failed : Answer Bitmap
  answered : (ok : Bool) (image : Option Bitmap) → Answer Bitmap

-- The address that the service is asked for, if the map's address is one.
unfoldable pub requested_url : Text → Option Text
requested_url url = with_value (parse_protocol_url url) (λ parts. some (raw_tile_url parts)) none

-- `await res.blob()` and `createImageBitmap`, of an answer that is well.
unfoldable pub bitmap_of {ℓ} : {Bitmap : Type ℓ} → Answer Bitmap → Option Bitmap
bitmap_of failed = none
bitmap_of (answered ok image) = if ok then image else none

module _ {ℓ κ} {Bitmap : Type ℓ} {B : Type κ} (colorize : Text → Bitmap → Option B) where
  -- The buffer, or `none` for an error at any step.
  unfoldable pub made : Text → Answer Bitmap → Option B
  made url answer =
      with_value (parse_protocol_url url)
        (λ parts. with_value (bitmap_of answer) (λ bitmap. colorize parts.product_id bitmap) none)
        none

  -- A call, the answer to the request for an address, and the end of it.
  pub data Moment : Type ℓ where
    called : Text → Moment
    came : Text → Answer Bitmap → Moment
    over : Text → Moment

  unfoldable pub event_of : Moment → Event B
  event_of (called url) = fetch url
  event_of (came url answer) = with_value (made url answer) (load url) (break url)
  event_of (over url) = settle url

-- Each entry of a list of entries.
abbrev pub AllEntries {ℓ κ} : {B : Type ℓ} → (Text → B → Type κ) → List (Text × B) → Type κ
AllEntries P [] = Unit
AllEntries P ((url, b) ∷ es) = P url b × AllEntries P es

module _ {ℓ κ} {B : Type ℓ} (P : Text → B → Type κ) where
  AllEntries-delete :
      (url : Text) (es : List (Text × B)) → AllEntries P es → AllEntries P (delete url es)
  unfolding delete
  AllEntries-delete url [] a = tt
  AllEntries-delete url ((u, b) ∷ es) (p, a) =
      if_both (AllEntries P) (text_eq u url) a (p, AllEntries-delete url es a)

  AllEntries-drop_oldest : (es : List (Text × B)) → AllEntries P es → AllEntries P (drop_oldest es)
  unfolding drop_oldest
  AllEntries-drop_oldest [] a = tt
  AllEntries-drop_oldest (e ∷ es) a = a.1

  AllEntries-set_entry :
      (url : Text) (b : B) (es : List (Text × B))
      → P url b
      → AllEntries P es
      → AllEntries P (set_entry url b es)
  unfolding set_entry
  AllEntries-set_entry url b [] q a = (q, tt)
  AllEntries-set_entry url b ((u, c) ∷ es) q (p, a) =
      if_cases (AllEntries P) (text_eq u url)
        (λ same. (subst (λ v. P v b) (sym (text_eq_sound u url same)) q, a))
        (λ other. (p, AllEntries-set_entry url b es q a))

  abbrev InOption : Text → Option B → Type κ
  InOption url none = Unit
  InOption url (some b) = P url b

  AllEntries-get :
      (url : Text) (es : List (Text × B)) (b : B) → AllEntries P es → get url es ≡ some b → P url b
  unfolding get
  AllEntries-get url [] b a h = cc
  AllEntries-get url ((u, c) ∷ es) b (p, a) h = elim (Bool-cases (text_eq u url)) [
    | inl same ↦
        let found : some c ≡ some b = sym (ap (λ t. if t then some c else get url es) same) ∙ h in
        subst (InOption url) found (subst (λ v. P v c) (text_eq_sound u url same) p)
    | inr other ↦
        AllEntries-get url es b a (sym (ap (λ t. if t then some c else get url es) other) ∙ h)
  ]

  abbrev pub AllTiles : Cache B → Type κ
  AllTiles c = AllEntries P c.tiles

  AllTiles-serve :
      (c : Cache B) (url : Text) (o : Option B)
      → get url c.tiles ≡ o
      → AllTiles c
      → AllTiles (serve c url o).0
  unfolding serve
  AllTiles-serve c url (some b) e a =
      AllEntries-set_entry url b (delete url c.tiles) (AllEntries-get url c.tiles b a e)
        (AllEntries-delete url c.tiles a)
  AllTiles-serve c url none e a =
      if_both (λ (r : Cache B × Served B). AllTiles r.0) (has_key url c.in_flight) a a

  AllTiles-loaded :
      (c : Cache B) (url : Text) (b : B) → P url b → AllTiles c → AllTiles (loaded c url b)
  unfolding loaded
  AllTiles-loaded c url b p a = AllEntries-set_entry url b _ p (
      if_both (AllEntries P) (leb tile_cache_max (length c.tiles))
        (AllEntries-drop_oldest c.tiles a) a)

  -- What is loaded has the property.
  abbrev Loads : Event B → Type κ
  Loads (load url b) = P url b
  Loads e = Unit

  AllTiles-run_event : (c : Cache B) (e : Event B) → Loads e → AllTiles c → AllTiles (run_event c e)
  unfolding run_event fetch_colorized_tile broken settled
  AllTiles-run_event c (fetch url) l a = AllTiles-serve c url (get url c.tiles) refl a
  AllTiles-run_event c (load url b) l a = if_both AllTiles _ (AllTiles-loaded c url b l a) a
  AllTiles-run_event c (break url) l a = if_both AllTiles _ a a
  AllTiles-run_event c (settle url) l a = if_both AllTiles _ a a

module _ {ℓ κ} {Bitmap : Type ℓ} {B : Type κ} (colorize : Text → Bitmap → Option B) where
  pub data In (m : Moment colorize) : List (Moment colorize) → Type ℓ where
    here : {ms : List (Moment colorize)} → In m (m ∷ ms)
    behind : {n : Moment colorize} {ms : List (Moment colorize)} → In m ms → In m (n ∷ ms)

  -- A buffer that was made of an answer for this address, which is among those that came.
  abbrev pub IsMade : List (Moment colorize) → Text → B → Type (ℓ ⊔ κ)
  IsMade all url b =
      (answer : Answer Bitmap) × In (came url answer) all × (made colorize url answer ≡ some b)

  Loads-made :
      (all : List (Moment colorize)) (url : Text) (answer : Answer Bitmap) (o : Option B)
      → In (came url answer) all
      → made colorize url answer ≡ o
      → Loads (IsMade all) (with_value o (load url) (break url))
  Loads-made all url answer none m e = tt
  Loads-made all url answer (some b) m e = (answer, m, e)

  Loads-event_of :
      (all : List (Moment colorize)) (m : Moment colorize)
      → In m all
      → Loads (IsMade all) (event_of colorize m)
  unfolding event_of
  Loads-event_of all (called url) i = tt
  Loads-event_of all (came url answer) i =
      Loads-made all url answer (made colorize url answer) i refl
  Loads-event_of all (over url) i = tt

  AllTiles-run_events :
      (all : List (Moment colorize)) (c : Cache B) (ms : List (Moment colorize))
      → ((m : Moment colorize) → In m ms → In m all)
      → AllTiles (IsMade all) c
      → AllTiles (IsMade all) (run_events c (map (event_of colorize) ms))
  AllTiles-run_events all c [] i a = a
  AllTiles-run_events all c (m ∷ ms) i a =
      AllTiles-run_events all (run_event c (event_of colorize m)) ms (λ n k. i n (behind k))
        (AllTiles-run_event (IsMade all) c (event_of colorize m) (Loads-event_of all m (i m here))
          a)

  -- No tile stands under the address of another: after any calls and answers, in any order, each buffer
  -- of the cache was made of one of the answers that came for its own address.
  pub run_events-AllMade :
      (ms : List (Moment colorize))
      → AllTiles (IsMade ms) (run_events (empty B) (map (event_of colorize) ms))
  run_events-AllMade ms = AllTiles-run_events ms (empty B) ms (λ m k. k) tt

  -- What the map gets for the template of an instant and a product, whose name is not empty and holds
  -- neither a slash nor a brace, once the library of maps has filled in whole numbers for the place
  -- (`expand`, which puts them for the names of the parts at the end of a template): the service is
  -- asked for the tile of that product, instant and place, and an answer that is well and holds an image
  -- is coloured for that product.
  pub made-tile_url :
      (expand : ℕ → ℕ → ℕ → Text → Text) (id : Text) (t z x y : ℕ) (answer : Answer Bitmap)
      → Fills expand
      → is_empty id ≡ false
      → contains slash id ≡ false
      → contains b'{' id ≡ false
      → (requested_url (expand z x y (tile_url id t))
          ≡ some (
              raw_tile_url (record {
                product_id = id;
                time_ms = some t;
                z = decimal z;
                x = decimal x;
                y = decimal y;
              })))
        × (made colorize (expand z x y (tile_url id t)) answer
            ≡ with_value (bitmap_of answer) (λ bitmap. colorize id bitmap) none)
  unfolding requested_url made
  made-tile_url expand id t z x y answer fills filled plain brace =
      rw (parse_protocol_url-tile_url expand id t z x y fills filled plain brace) (refl, refl)
