-- ===== src/Entries.antt =====
-- The entries of a JavaScript `Map` with texts as keys, in the order of insertion.
use voria.Prelude.{
  ℕ, suc, ◌≤◌, Bool, false, ◌||◌, ◌≡◌, refl, Option, none, some, List, [], ◌∷◌, ◌++◌, arith,
  if◌then◌else◌, length,
}
use voria.Prelude.Text.{Text, text_eq, text_eq_refl, text_eq_sound}

module _ {ℓ} {B : Type ℓ} where
  -- `get`, and `delete`, which takes the entry out.
  unfoldable pub get : Text → List (Text × B) → Option B
  get url [] = none
  get url ((u, b) ∷ es) = if text_eq u url then some b else get url es

  unfoldable pub delete : Text → List (Text × B) → List (Text × B)
  delete url [] = []
  delete url ((u, b) ∷ es) = if text_eq u url then es else (u, b) ∷ delete url es

  -- `set` keeps the place of a key that is there.
  unfoldable pub set_entry : Text → B → List (Text × B) → List (Text × B)
  set_entry url b [] = (url, b) ∷ []
  set_entry url b ((u, c) ∷ es) = if text_eq u url then (u, b) ∷ es else (u, c) ∷ set_entry url b es

  -- `delete(keys().next().value)`
  unfoldable pub drop_oldest : List (Text × B) → List (Text × B)
  drop_oldest [] = []
  drop_oldest (e ∷ es) = es

  unfoldable pub has_key : Text → List (Text × B) → Bool
  has_key url [] = false
  has_key url ((u, b) ∷ es) = text_eq u url || has_key url es

-- No key twice.
abbrev pub Distinct {ℓ} : {B : Type ℓ} → List (Text × B) → Type 0
Distinct [] = Unit {0}
Distinct ((u, b) ∷ es) = (has_key u es ≡ false) × Distinct es

module _ {ℓ} {B : Type ℓ} where
  pub has_key_of_get :
      (url : Text) (es : List (Text × B)) → get url es ≡ none → has_key url es ≡ false
  unfolding get has_key
  has_key_of_get url [] h = refl
  has_key_of_get url ((u, b) ∷ es) h = ground (arith, has_key_of_get url es)

  pub get_of_has_key :
      (url : Text) (es : List (Text × B)) → has_key url es ≡ false → get url es ≡ none
  unfolding get has_key
  get_of_has_key url [] h = refl
  get_of_has_key url ((u, b) ∷ es) h = ground (arith, get_of_has_key url es)

  pub get-set_entry :
      (v url : Text) (b : B) (es : List (Text × B))
      → get v (set_entry url b es) ≡ (if text_eq url v then some b else get v es)
  unfolding get set_entry
  get-set_entry v url b [] = refl
  get-set_entry v url b ((u, c) ∷ es) = ground (
    arith,
    text_eq_sound u url,
    text_eq_sound url v,
    text_eq_refl url,
    text_eq_sound u v,
    get-set_entry v url b es,
  )

  pub has_key-set_entry :
      (v url : Text) (b : B) (es : List (Text × B))
      → has_key v (set_entry url b es) ≡ (text_eq url v || has_key v es)
  unfolding has_key set_entry
  has_key-set_entry v url b [] = refl
  has_key-set_entry v url b ((u, c) ∷ es) =
      ground (arith, text_eq_sound u url, has_key-set_entry v url b es)

  pub length-set_entry :
      (url : Text) (b : B) (es : List (Text × B))
      → has_key url es ≡ false
      → length (set_entry url b es) ≡ suc (length es)
  unfolding has_key set_entry
  length-set_entry url b [] h = refl
  length-set_entry url b ((u, c) ∷ es) h = ground (arith, length-set_entry url b es)

  pub length-delete :
      (url : Text) (es : List (Text × B)) {b : B}
      → get url es ≡ some b
      → suc (length (delete url es)) ≡ length es
  unfolding get delete
  length-delete url [] h = cc
  length-delete url ((u, c) ∷ es) {b} h = ground (arith, length-delete url es {b = b})

  pub has_key-delete :
      (v url : Text) (es : List (Text × B))
      → has_key v es ≡ false
      → has_key v (delete url es) ≡ false
  unfolding has_key delete
  has_key-delete v url [] h = refl
  has_key-delete v url ((u, c) ∷ es) h = ground (arith, has_key-delete v url es)

  pub Distinct-delete : (url : Text) (es : List (Text × B)) → Distinct es → Distinct (delete url es)
  unfolding delete
  Distinct-delete url [] d = tt
  Distinct-delete url ((u, c) ∷ es) d =
      ground (arith, has_key-delete u url es, Distinct-delete url es d.1)

  pub has_key-delete_self :
      (url : Text) (es : List (Text × B)) → Distinct es → has_key url (delete url es) ≡ false
  unfolding has_key delete
  has_key-delete_self url [] d = refl
  has_key-delete_self url ((u, c) ∷ es) d =
      ground (arith, text_eq_sound u url, has_key-delete_self url es d.1)

  pub Distinct-set_entry :
      (url : Text) (b : B) (es : List (Text × B)) → Distinct es → Distinct (set_entry url b es)
  unfolding set_entry has_key
  Distinct-set_entry url b [] d = (refl, tt)
  Distinct-set_entry url b ((u, c) ∷ es) d = ground (
    arith,
    text_eq_sound url u,
    text_eq_refl u,
    has_key-set_entry u url b es,
    Distinct-set_entry url b es d.1,
  )

  pub get-delete :
      (v url : Text) (es : List (Text × B)) {b : B}
      → Distinct es
      → get v (delete url es) ≡ some b
      → get v es ≡ some b
  unfolding get delete
  get-delete v url [] d h = h
  get-delete v url ((u, c) ∷ es) {b} d h =
      ground (arith, text_eq_sound u v, get_of_has_key u es d.0, get-delete v url es {b = b} d.1)

  pub get-delete_other :
      (v url : Text) (es : List (Text × B))
      → text_eq url v ≡ false
      → get v (delete url es) ≡ get v es
  unfolding get delete
  get-delete_other v url [] h = refl
  get-delete_other v url ((u, c) ∷ es) h =
      ground (arith, text_eq_sound u url, get-delete_other v url es h)

  pub drop_oldest-shrinks :
      (es : List (Text × B)) (n : ℕ) → length es ≤ suc n → length (drop_oldest es) ≤ n
  unfolding drop_oldest
  drop_oldest-shrinks [] n h = omega arith
  drop_oldest-shrinks (e ∷ es) n h = omega arith

  pub Distinct-drop_oldest : (es : List (Text × B)) → Distinct es → Distinct (drop_oldest es)
  unfolding drop_oldest
  Distinct-drop_oldest [] d = tt
  Distinct-drop_oldest (e ∷ es) d = d.1

  pub has_key-drop_oldest :
      (v : Text) (es : List (Text × B)) → has_key v es ≡ false → has_key v (drop_oldest es) ≡ false
  unfolding has_key drop_oldest
  has_key-drop_oldest v [] h = refl
  has_key-drop_oldest v ((u, c) ∷ es) h = ground arith

  pub set_entry-append :
      (url : Text) (b : B) (es : List (Text × B))
      → has_key url es ≡ false
      → set_entry url b es ≡ es ++ (url, b) ∷ []
  unfolding set_entry has_key
  set_entry-append url b [] h = refl
  set_entry-append url b ((u, c) ∷ es) h = ground (arith, set_entry-append url b es)
