-- ===== src/Map/TileCache/Valid.antt =====
-- What the cache of tiles keeps to, after any calls and outcomes in any order.
use voria.Prelude.{
  ℕ, suc, ◌-◌, ◌≤◌, Bool, ◌&&◌, ◌≡◌, refl, true, false, Option, none, some, List, [], ◌∷◌, ◌++◌,
  arith, leb, if◌then◌else◌, if_cases, if_both, length,
}
use voria.Prelude.Text.{Text, text_eq, text_eq_sound}
use voria.Map.TileCache.{
  Cache, Served, joined, started, Progress, running, finished, tile_cache_max, IsValid, serve,
  from_cache, fetch_colorized_tile, loaded, broken, settled, Event, fetch, load, break, settle,
  is_running, is_finished, run_event, run_events,
}
use voria.Entries.{
  get, delete, set_entry, drop_oldest, has_key, Distinct, set_entry-append, has_key_of_get,
  get_of_has_key, get-set_entry, has_key-set_entry, length-set_entry, length-delete, has_key-delete,
  Distinct-delete, has_key-delete_self, Distinct-set_entry, get-delete, get-delete_other,
  drop_oldest-shrinks, Distinct-drop_oldest, has_key-drop_oldest,
}

module _ {ℓ} {B : Type ℓ} (c : Cache B) (v : IsValid c) (url : Text) where
  -- A hit moves the tile to the end, and a miss starts a request if none is on its way.
  IsValid-hit :
      (b : B)
      → get url c.tiles ≡ some b
      → IsValid (record c { tiles = set_entry url b (delete url c.tiles) })
  IsValid-hit b hit = record {
    bounded =
        let gone = has_key-delete_self url c.tiles v.distinct in
        omega (
          arith,
          length-set_entry url b (delete url c.tiles) gone,
          length-delete url c.tiles hit,
          v.bounded,
        );
    distinct =
        Distinct-set_entry url b (delete url c.tiles) (Distinct-delete url c.tiles v.distinct);
    once = v.once;
    fresh = λ u runs. ground (
      arith,
      v.fresh u runs,
      has_key-set_entry u url b (delete url c.tiles),
      has_key-delete u url c.tiles,
      text_eq_sound url u,
      has_key_of_get url c.tiles,
      get_of_has_key url c.tiles,
    );
  }

  IsValid-start :
      get url c.tiles ≡ none → IsValid (record c { in_flight = set_entry url running c.in_flight })
  IsValid-start miss = record {
    bounded = v.bounded;
    distinct = v.distinct;
    once = Distinct-set_entry url running c.in_flight v.once;
    fresh = λ u runs. ground (
      arith,
      v.fresh u,
      get-set_entry u url running c.in_flight,
      text_eq_sound url u,
      has_key_of_get url c.tiles miss,
    );
  }

  IsValid-finish : IsValid (record c { in_flight = set_entry url finished c.in_flight })
  IsValid-finish = record {
    bounded = v.bounded;
    distinct = v.distinct;
    once = Distinct-set_entry url finished c.in_flight v.once;
    fresh = λ u runs. ground (arith, v.fresh u, get-set_entry u url finished c.in_flight);
  }

  IsValid-settled : IsValid (settled c url)
  unfolding settled
  IsValid-settled = record {
    bounded = v.bounded;
    distinct = v.distinct;
    once = Distinct-delete url c.in_flight v.once;
    fresh = λ u runs. v.fresh u (get-delete u url c.in_flight v.once runs);
  }

  abbrev room : List (Text × B)
  room = if leb tile_cache_max (length c.tiles) then drop_oldest c.tiles else c.tiles

  length-room : length room ≤ 127
  length-room =
      if_cases (λ es. length es ≤ 127) (leb tile_cache_max (length c.tiles))
        (λ full. drop_oldest-shrinks c.tiles 127 v.bounded) (λ free. ground arith)

  Distinct-room : Distinct room
  Distinct-room =
      if_both Distinct (leb tile_cache_max (length c.tiles))
        (Distinct-drop_oldest c.tiles v.distinct) v.distinct

  has_key-room : (u : Text) → has_key u c.tiles ≡ false → has_key u room ≡ false
  has_key-room u h =
      if_both (λ es. has_key u es ≡ false) (leb tile_cache_max (length c.tiles))
        (has_key-drop_oldest u c.tiles h) h

  -- Room for one more is made before a tile is stored, and the tile was not there.
  IsValid-loaded : (b : B) → get url c.in_flight ≡ some running → IsValid (loaded c url b)
  unfolding loaded
  IsValid-loaded b runs =
      let new = has_key-room url (v.fresh url runs) in
      record {
        bounded = omega (arith, length-set_entry url b room new, length-room);
        distinct = Distinct-set_entry url b room Distinct-room;
        once = Distinct-set_entry url finished c.in_flight v.once;
        fresh = λ u others. ground (
          arith,
          v.fresh u,
          get-set_entry u url finished c.in_flight,
          has_key-set_entry u url b room,
          has_key-room u,
        );
      }

module _ {ℓ} {B : Type ℓ} (c : Cache B) (v : IsValid c) (url : Text) where
  IsValid-serve : (o : Option B) → get url c.tiles ≡ o → IsValid (serve c url o).0
  unfolding serve
  IsValid-serve (some b) hit = IsValid-hit c v url b hit
  IsValid-serve none miss =
      if_both (λ (r : Cache B × Served B). IsValid r.0) (has_key url c.in_flight) v
        (IsValid-start c v url miss)

is_running-eq : (o : Option Progress) → is_running o ≡ true → o ≡ some running
unfolding is_running
is_running-eq none h = cc
is_running-eq (some running) h = refl
is_running-eq (some finished) h = cc

pub IsValid-run_event {ℓ} :
    {B : Type ℓ} (c : Cache B) (e : Event B) → IsValid c → IsValid (run_event c e)
unfolding run_event fetch_colorized_tile broken
IsValid-run_event c (fetch url) v = IsValid-serve c v url (get url c.tiles) refl
IsValid-run_event c (load url b) v =
    if_cases IsValid (is_running (get url c.in_flight))
      (λ runs. IsValid-loaded c v url b (is_running-eq (get url c.in_flight) runs)) (λ _. v)
IsValid-run_event c (break url) v =
    if_both IsValid (is_running (get url c.in_flight)) (IsValid-finish c v url) v
IsValid-run_event c (settle url) v =
    if_both IsValid (is_finished (get url c.in_flight)) (IsValid-settled c v url) v

IsValid-run_events {ℓ} :
    {B : Type ℓ} (c : Cache B) (es : List (Event B)) → IsValid c → IsValid (run_events c es)
IsValid-run_events c [] v = v
IsValid-run_events c (e ∷ es) v = IsValid-run_events (run_event c e) es (IsValid-run_event c e v)

abbrev pub empty {ℓ} : (B : Type ℓ) → Cache B
empty B = record { tiles = []; in_flight = [] }

-- A call that starts a request.
abbrev pub is_started {ℓ} : {B : Type ℓ} → Served B → Bool
is_started (from_cache b) = false
is_started joined = false
is_started started = true

-- The requests for an address that are open after an event: a call that starts one is one more, and
-- the end of one, in a tile or an error, is one less.
abbrev pub open_after {ℓ} : {B : Type ℓ} → Cache B → Text → ℕ → Event B → ℕ
open_after c url n (fetch u) =
    if text_eq u url && is_started (fetch_colorized_tile c u).1 then suc n else n
open_after c url n (load u b) = if text_eq u url && is_running (get u c.in_flight) then n - 1 else n
open_after c url n (break u) = if text_eq u url && is_running (get u c.in_flight) then n - 1 else n
open_after c url n (settle u) = n

abbrev pub open_requests {ℓ} : {B : Type ℓ} → Cache B → Text → ℕ → List (Event B) → ℕ
open_requests c url n [] = n
open_requests c url n (e ∷ es) = open_requests (run_event c e) url (open_after c url n e) es

-- One request where there is one that runs, and else none.
abbrev one_if_running : Option Progress → ℕ
one_if_running none = 0
one_if_running (some running) = 1
one_if_running (some finished) = 0

Counts {ℓ} : {B : Type ℓ} → Cache B → Text → ℕ → Type 0
Counts c url n = n ≡ one_if_running (get url c.in_flight)

one_if_running-is_running : (o : Option Progress) → is_running o ≡ true → one_if_running o ≡ 1
unfolding is_running
one_if_running-is_running none h = cc
one_if_running-is_running (some running) h = refl
one_if_running-is_running (some finished) h = cc

one_if_running-is_finished : (o : Option Progress) → is_finished o ≡ true → one_if_running o ≡ 0
unfolding is_finished
one_if_running-is_finished none h = cc
one_if_running-is_finished (some running) h = cc
one_if_running-is_finished (some finished) h = refl

module _ {ℓ} {B : Type ℓ} (c : Cache B) (url : Text) (n : ℕ) (k : Counts c url n) where
  Counts-serve :
      (u : Text) (o : Option B)
      → Counts
          (serve c u o).0
          url
          (if text_eq u url && is_started (serve c u o).1 then suc n else n)
  unfolding Counts serve
  Counts-serve u (some b) = ground arith
  Counts-serve u none = ground (
    arith,
    k,
    get-set_entry url u running c.in_flight,
    text_eq_sound u url,
    get_of_has_key url c.in_flight,
  )

  Counts-run_event : (e : Event B) → IsValid c → Counts (run_event c e) url (open_after c url n e)
  unfolding Counts run_event fetch_colorized_tile broken loaded settled
  Counts-run_event (fetch u) v = Counts-serve u (get u c.tiles)
  Counts-run_event (load u b) v = ground (
    arith,
    k,
    get-set_entry url u finished c.in_flight,
    text_eq_sound u url,
    one_if_running-is_running (get u c.in_flight),
  )
  Counts-run_event (break u) v = ground (
    arith,
    k,
    get-set_entry url u finished c.in_flight,
    text_eq_sound u url,
    one_if_running-is_running (get u c.in_flight),
  )
  Counts-run_event (settle u) v = ground (
    arith,
    k,
    get-delete_other url u c.in_flight,
    has_key-delete_self u c.in_flight v.once,
    get_of_has_key u (delete u c.in_flight),
    text_eq_sound u url,
    one_if_running-is_finished (get u c.in_flight),
  )

Counts-run_events {ℓ} :
    {B : Type ℓ} (c : Cache B) (url : Text) (n : ℕ) (es : List (Event B))
    → IsValid c
    → Counts c url n
    → open_requests c url n es ≤ 1
unfolding Counts
Counts-run_events c url n [] v k = ground arith
Counts-run_events c url n (e ∷ es) v k =
    Counts-run_events (run_event c e) url (open_after c url n e) es (IsValid-run_event c e v)
      (Counts-run_event c url n k e v)

-- However calls, answers and errors follow one another, the cache holds at most 128 tiles and none
-- twice, none that is being requested is in the cache, and for no address are two requests open at a
-- time.
pub run_events-IsValid {ℓ} :
    {B : Type ℓ} (es : List (Event B)) (url : Text)
    → IsValid (run_events (empty B) es) × (open_requests (empty B) url 0 es ≤ 1)
unfolding has_key get Counts
run_events-IsValid {B} es url =
    let v : IsValid (empty B) = record {
      bounded = omega arith;
      distinct = tt;
      once = tt;
      fresh = λ u runs. refl;
    } in
    (IsValid-run_events (empty B) es v, Counts-run_events (empty B) url 0 es v refl)

-- The cache is ordered by use: a call for a tile that is there gives that tile and moves it behind the
-- others, whose order stays.
pub fetch-hit {ℓ} :
    {B : Type ℓ} (c : Cache B) (url : Text) (b : B)
    → IsValid c
    → get url c.tiles ≡ some b
    → ((fetch_colorized_tile c url).1 ≡ from_cache b)
      × ((fetch_colorized_tile c url).0.tiles ≡ delete url c.tiles ++ (url, b) ∷ [])
unfolding fetch_colorized_tile serve
fetch-hit c url b v hit =
    let gone = has_key-delete_self url c.tiles v.distinct in
    rw hit (refl, set_entry-append url b (delete url c.tiles) gone)

-- A tile that arrives is stored behind the others; the first of them, the least recently used one,
-- goes if there are 128, and none goes if there are fewer.
pub tiles-loaded {ℓ} :
    {B : Type ℓ} (c : Cache B) (url : Text) (b : B)
    → IsValid c
    → get url c.in_flight ≡ some running
    → (loaded c url b).tiles
      ≡ (if leb tile_cache_max (length c.tiles) then drop_oldest c.tiles else c.tiles)
        ++ (url, b) ∷ []
unfolding loaded
tiles-loaded c url b v runs =
    set_entry-append url b (room c v url) (has_key-room c v url url (v.fresh url runs))
