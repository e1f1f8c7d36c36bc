-- ===== src/Palettes/Edges/Fill.antt =====
-- What the pixels and the marks are after one pass.
use voria.Prelude.{
  ℕ, ◌*◌, ◌≡◌, refl, ◌∙◌, sym, ap, inl, inr, Bool, true, false, ◌||◌, none, some, List, [], ◌∷◌,
  arith, ◌==◌, ==_iff, if◌then◌else◌, set, length, length-set, Bool-cases,
}
use voria.Palettes.Edges.{Pixel, pixel, marked, blank, recolored, fill_pixels, fill_marks}
use voria.Palettes.Edges.Pass.{source, fills, AllFrom, get_or-set}

pub length-fill_pixels :
    (es : List (ℕ × ℕ)) (pixels : List Pixel) → length (fill_pixels es pixels) ≡ length pixels
unfolding fill_pixels
length-fill_pixels [] pixels = refl
length-fill_pixels ((p, src) ∷ es) pixels = length-fill_pixels es _ ∙ length-set pixels p _

pub length-fill_marks :
    (es : List (ℕ × ℕ)) (has : List Bool) → length (fill_marks es has) ≡ length has
unfolding fill_marks
length-fill_marks [] has = refl
length-fill_marks ((p, src) ∷ es) has = length-fill_marks es _ ∙ length-set has p true

some-none : {n : ℕ} → ¬ (some n ≡ none)
some-none e = cc

some_inj : {m n : ℕ} → some m ≡ some n → m ≡ n
some_inj e = cc

recolored_again :
    (b : Bool) (p src : Pixel)
    → (if b then recolored (recolored p src) src else recolored p src) ≡ recolored p src
recolored_again true p src = refl
recolored_again false p src = refl

module _ (has : List Bool) (w h : ℕ) where
  apart : (p q src : ℕ) → source has w h p ≡ some src → source has w h q ≡ none → (p == q) ≡ false
  apart p q src e n = elim (Bool-cases (p == q)) [
    | inl same ↦ absurd (some-none (sym e ∙ ap (source has w h) ((==_iff p q).0 same) ∙ n))
    | inr other ↦ other
  ]

  -- A pixel with no source stays as it is.
  pub pixel-fill_kept :
      (es : List (ℕ × ℕ)) (pixels : List Pixel) (q : ℕ)
      → AllFrom has w h es
      → length pixels ≡ w * h
      → source has w h q ≡ none
      → pixel (fill_pixels es pixels) q ≡ pixel pixels q
  unfolding fill_pixels
  pixel-fill_kept [] pixels q f l e = refl
  pixel-fill_kept ((p, src) ∷ es) pixels q (from, lt, f) l e =
      let v = recolored (pixel pixels p) (pixel pixels src) in
      let other : (p == q) ≡ false = apart p q src from e in
      pixel-fill_kept es (set pixels p v) q f (length-set pixels p v ∙ l) e
      ∙ get_or-set pixels p q v blank (rw l lt)
      ∙ rw other refl

  -- A pixel with a source takes its colour, as it was before the pass, if it is among those to fill.
  -- Its source has no source.
  pub pixel-fill :
      (es : List (ℕ × ℕ)) (pixels : List Pixel) (q s : ℕ)
      → AllFrom has w h es
      → length pixels ≡ w * h
      → source has w h q ≡ some s
      → source has w h s ≡ none
      → pixel (fill_pixels es pixels) q
        ≡ (if fills q es then recolored (pixel pixels q) (pixel pixels s) else pixel pixels q)
  unfolding fill_pixels
  pixel-fill [] pixels q s f l e n = refl
  pixel-fill ((p, src) ∷ es) pixels q s (from, lt, f) l e n =
      let v = recolored (pixel pixels p) (pixel pixels src) in
      let step = pixel-fill es (set pixels p v) q s f (length-set pixels p v ∙ l) e n in
      let at_q = get_or-set pixels p q v blank (omega arith) in
      let at_s = get_or-set pixels p s v blank (omega arith) in
      let off : (p == s) ≡ false = apart p s src from n in
      elim (Bool-cases (p == q)) [
        | inl here ↦
            let same : p ≡ q = (==_iff p q).0 here in
            let same_source : src ≡ s = some_inj (sym from ∙ ap (source has w h) same ∙ e) in
            step
            ∙ rw (at_q, at_s, off, here, same, same_source)
                (recolored_again (fills q es) (pixel pixels q) (pixel pixels s))
        | inr there ↦ step ∙ rw (at_q, at_s, off, there) refl
      ]

  pub marked-fill :
      (es : List (ℕ × ℕ)) (marks : List Bool) (q : ℕ)
      → AllFrom has w h es
      → length marks ≡ w * h
      → marked (fill_marks es marks) q ≡ (fills q es || marked marks q)
  unfolding fill_marks
  marked-fill [] marks q f l = refl
  marked-fill ((p, src) ∷ es) marks q (from, lt, f) l =
      let step = marked-fill es (set marks p true) q f (length-set marks p true ∙ l) in
      let at_q = get_or-set marks p q true false (omega arith) in step ∙ rw at_q (ground arith)

  pub fills-unsourced :
      (es : List (ℕ × ℕ)) (q : ℕ)
      → AllFrom has w h es
      → source has w h q ≡ none
      → fills q es ≡ false
  fills-unsourced [] q f n = refl
  fills-unsourced ((p, src) ∷ es) q (from, lt, f) n =
      rw (apart p q src from n) (fills-unsourced es q f n)
