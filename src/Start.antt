-- ===== src/Start.antt =====
-- The start of the page and its small hooks: applyLocalTime, the "change" listener and InputBlur
-- (assets/js/app.js and assets/js/hooks/input_blur.js). The browser's way of writing a date is a
-- parameter, and so is the form that an element stands in.
use voria.Prelude.{Option, none, some, ◌&&◌, List, [], ◌∷◌, if◌then◌else◌, with_value}
use voria.Prelude.Int.{ℤ, pos, leb_ℤ}
use voria.Prelude.Text.{Text, codes, text_eq}

-- The three sets of options of `toLocaleTimeString` and `toLocaleString`.
pub record Locale : Type 0 where
  pub time : ℤ → Text
  pub datetime_sec : ℤ → Text
  pub datetime : ℤ → Text

-- The text of an element after applyLocalTime; `ts` is `parseInt(el.dataset.ts, 10)`, and `none` is NaN.
unfoldable pub apply_local_time : Locale → Option ℤ → Option Text → Text → Text
apply_local_time locale none format shown = shown
apply_local_time locale (some ts) format shown =
    let written =
      with_value format
        (λ fmt.
          if text_eq fmt (codes "time")
          then locale.time ts
          else if text_eq fmt (codes "datetime-sec")
          then locale.datetime_sec ts
          else locale.datetime ts)
        (locale.datetime ts) in
    if leb_ℤ ts (pos 0) && leb_ℤ (pos 0) ts then shown else written

-- The element with `data-submit-on-change` at or above the one that changed: its own form, and the
-- closest one above it.
pub record Input {ℓ} (Form : Type ℓ) : Type ℓ where
  pub form : Option Form
  pub closest : Option Form

-- `input.form || input.closest("form")`
unfoldable pub form_of {ℓ} : {Form : Type ℓ} → Input Form → Option Form
form_of input = with_value input.form (λ f. some f) input.closest

-- The form that the listener submits, if any.
unfoldable pub submitted {ℓ} : {Form : Type ℓ} → Option (Input Form) → Option Form
submitted none = none
submitted (some input) = form_of input

-- What InputBlur sends to the server when its element is left: the name and the value.
unfoldable pub blurred : Text → Text → Text × List (Text × Text)
blurred name value = (codes "update_edit_form", (name, value) ∷ [])
