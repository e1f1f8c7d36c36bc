-- ===== src/Radar/Latest.antt =====
-- The service's answer about the newest frame of a product (fetchLatest of assets/js/radar.js).
use voria.Prelude.{Bool, true, false, List, [], ◌∷◌, Option, none, some}
use voria.Prelude.Int.{ℤ}
use voria.Prelude.Text.{Text}

-- An entry of `lastProducts`; its time is `none` if it is no finite number. A falsy entry is `none`.
pub record LastEntry : Type 0 where
  pub time : Option ℤ
  pub period : Option Text

-- What came back: nothing (the request failed or its body is no JSON), or a status and the list.
pub data Response : Type 0 where
  failed : Response
  answered : Bool → Option (List (Option LastEntry)) → Response

pub record LastProduct : Type 0 where
  pub time : ℤ
  pub period : Option Text

last_entry : Option LastEntry → Option LastProduct
last_entry none = none
last_entry (some e) = elim e.time [
  | none ↦ none
  | some t ↦ some (record { time = t; period = e.period })
]

-- `none` is a thrown error.
unfoldable pub fetch_latest : Response → Option LastProduct
unfolding last_entry
fetch_latest failed = none
fetch_latest (answered false body) = none
fetch_latest (answered true none) = none
fetch_latest (answered true (some [])) = none
fetch_latest (answered true (some (e ∷ es))) = last_entry e
