-- ===== src/Page/Log.antt =====
-- The frames in the log of the timeline, and the instant that it shows.
use voria.Prelude.{
  ℕ, ◌-◌, ◌≡◌, refl, ap, ◌∙◌, Option, none, some, List, [], ◌∷◌, ◌++◌, length, length-append, take,
  arith,
}
use voria.Prelude.Int.{pos_part}
use voria.Timeline.State.{Label, dash, dots, instant, Effect, frame}
use voria.Page.{fresh}
use voria.Page.Tells.{Says, still, dashed, said, framed, IsQuiet}

-- The instant of the last frame that was sent, as the map keeps it.
abbrev pub last_frame : List Effect → Option ℕ
last_frame [] = none
last_frame (frame t live product ∷ es) = some (pos_part t)
last_frame (e ∷ es) = last_frame es

-- An instant that is shown is that of the last frame.
abbrev pub Shown : Label → List Effect → Type 0
Shown (instant t) log = last_frame log ≡ some (pos_part t)
Shown _ log = Unit {0}

last_frame-quiet : (e : Effect) (es : List Effect) → IsQuiet e → last_frame (e ∷ es) ≡ last_frame es
last_frame-quiet (frame t live product) es q = elim q [ ]
last_frame-quiet _ es q = refl

Shown-quiet :
    (l : Label) (e : Effect) (es : List Effect) → IsQuiet e → Shown l es → Shown l (e ∷ es)
Shown-quiet dash e es q h = tt
Shown-quiet dots e es q h = tt
Shown-quiet (instant t) e es q h = last_frame-quiet e es q ∙ h

pub Shown-Says :
    {l : Label} {a : List Effect} {m : Label} {b : List Effect}
    → Says l a m b
    → Shown l a
    → Shown m b
Shown-Says still h = h
Shown-Says (dashed x) h = tt
Shown-Says {m = m} (said {log = log} e q x) h = Shown-quiet m e log q (Shown-Says x h)
Shown-Says (framed t live product x) h = refl

-- The log only grows.
pub Says-append :
    {l : Label} {a : List Effect} {m : Label} {b : List Effect}
    → Says l a m b
    → (es : List Effect) × (b ≡ es ++ a)
Says-append still = ([], refl)
Says-append (dashed x) = Says-append x
Says-append (said e q x) = let (es, h) = Says-append x in (e ∷ es, ap (e ∷◌) h)
Says-append (framed t live product x) =
    let (es, h) = Says-append x in (frame t live product ∷ es, ap (frame t live product ∷◌) h)

take-append : {A : Type 0} (xs ys : List A) → take (length xs) (xs ++ ys) ≡ xs
take-append [] ys = refl
take-append (x ∷ xs) ys = ap (x ∷◌) (take-append xs ys)

pub fresh-append : (es a : List Effect) → fresh a (es ++ a) ≡ es
unfolding fresh
fresh-append es a =
    let n : length (es ++ a) - length a ≡ length es = omega (arith, length-append es a) in
    ap (λ n. take n (es ++ a)) n ∙ take-append es a
