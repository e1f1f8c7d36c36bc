-- ===== src/Timeline/Faults.antt =====
-- What goes wrong on the way: answers that are none, messages without sense, and a socket that is
-- lost (resync, onSocketMessage, scheduleReconnect and openSocket).
use voria.Prelude.{
  true, false, ◌≡◌, refl, ◌∙◌, sym, ◌⊎◌, inl, inr, none, some, List, [], ◌∷◌, arith, subst, if_both,
  if_cases, false-true,
}
use voria.Prelude.Int.{ℤ}
use voria.Prelude.Text.{Text, text_eq}
use voria.Radar.Latest.{Response, LastProduct, fetch_latest}
use voria.Radar.Floor.{floor_to_period}
use voria.Radar.Period.{parse_period}
use voria.Timeline.State.{Timeline, dash, instant}
use voria.Timeline.Grid.{Calendar}
use voria.Timeline.Publish.{publish_frame}
use voria.Timeline.Sync.{
  Message, or_default, synced, synced_time, resync, resync_with, on_socket_message, reconnect_fires,
}
use voria.Timeline.Connection.{open_socket, schedule_reconnect}
use voria.Timeline.Step.{Event, answer, news, socket_lost, reconnect, run_event, run_events}

-- An event without news for a timeline of this product: a request that failed, a message that is no
-- JSON or has no time, and one about another product.
pub data Fault (product : Text) : Event → Type 0 where
  no_answer : {r : Response} → fetch_latest r ≡ none → Fault product (answer r)
  no_message : Fault product (news none)
  no_time : {m : Message} → m.time ≡ none → Fault product (news (some m))
  foreign : {m : Message} → text_eq m.product_type product ≡ false → Fault product (news (some m))

pub data AllFaults (product : Text) : List Event → Type 0 where
  no_more : AllFaults product []
  one_more :
      {e : Event} {es : List Event}
      → Fault product e
      → AllFaults product es
      → AllFaults product (e ∷ es)

-- The state without its two texts, and with no request on its way.
abbrev pub masked : Timeline → Timeline
masked s = record s {
  syncing = false;
  view = record s.view { time_label = dash; sub_label = dash };
}

-- The second state is the first one, field by field, but that a request may have ended, in dashes.
pub record KeepsAll (s u : Timeline) : Type 0 where
  pub enabled : u.enabled ≡ s.enabled
  pub product : u.product ≡ s.product
  pub latest : u.latest ≡ s.latest
  pub period : u.period ≡ s.period
  pub time : u.time ≡ s.time
  pub live : u.live ≡ s.live
  pub playing : u.playing ≡ s.playing
  pub ws : u.ws ≡ s.ws
  pub log : u.log ≡ s.log
  pub rest : masked u ≡ masked s
  pub sub_label : (u.view.sub_label ≡ s.view.sub_label) ⊎ (u.view.sub_label ≡ dash)
  pub label : (u.view.time_label ≡ s.view.time_label) ⊎ (u.view.time_label ≡ dash)

KeepsAll-refl : (s : Timeline) → KeepsAll s s
KeepsAll-refl s = record {
  enabled = refl;
  product = refl;
  latest = refl;
  period = refl;
  time = refl;
  live = refl;
  playing = refl;
  ws = refl;
  log = refl;
  rest = refl;
  sub_label = inl refl;
  label = inl refl;
}

KeepsAll-answer :
    (c : Calendar) (s : Timeline) (r : Response)
    → fetch_latest r ≡ none
    → KeepsAll s (run_event c s (answer r))
unfolding run_event resync_with
KeepsAll-answer c s r e = rw e (if_both (KeepsAll s) s.syncing (ground arith) (KeepsAll-refl s))

KeepsAll-news :
    (c : Calendar) (s : Timeline) (m : Message)
    → (m.time ≡ none) ⊎ (text_eq m.product_type s.product ≡ false)
    → KeepsAll s (run_event c s (news (some m)))
unfolding run_event on_socket_message
KeepsAll-news c s m e = ground (arith, KeepsAll-refl s)

KeepsAll-Fault :
    (c : Calendar) (s : Timeline) {e : Event} → Fault s.product e → KeepsAll s (run_event c s e)
unfolding run_event on_socket_message
KeepsAll-Fault c s (no_answer {r} h) = KeepsAll-answer c s r h
KeepsAll-Fault c s no_message = if_both (KeepsAll s) s.ws (KeepsAll-refl s) (KeepsAll-refl s)
KeepsAll-Fault c s (no_time {m} h) = KeepsAll-news c s m (inl h)
KeepsAll-Fault c s (foreign {m} h) = KeepsAll-news c s m (inr h)

KeepsAll-trans : (s u v : Timeline) → KeepsAll s u → KeepsAll u v → KeepsAll s v
KeepsAll-trans s u v k j = grind arith

-- However many requests fail, and however many messages come that are no JSON, have no time or are
-- about another product: nothing is sent, and nothing changes of what the timeline knows or shows, but
-- that the instant shown may give way to dashes.
pub run_events-AllFaults :
    (c : Calendar) (s : Timeline) (es : List Event)
    → AllFaults s.product es
    → KeepsAll s (run_events c s es)
run_events-AllFaults c s [] no_more = KeepsAll-refl s
run_events-AllFaults c s (e ∷ es) (one_more f fs) =
    let k = KeepsAll-Fault c s f in
    KeepsAll-trans s (run_event c s e) (run_events c (run_event c s e) es) k
      (run_events-AllFaults c (run_event c s e) es (subst (λ p. AllFaults p es) (sym k.product) fs))

-- The instant of the newest frame that the service names.
abbrev pub newest_of : Text → LastProduct → ℤ
newest_of product last = floor_to_period last.time (or_default (parse_period last.period) product)

-- A live timeline with its socket and no request on its way, which shows the newest frame.
pub record CaughtUp (newest : ℤ) (s : Timeline) : Type 0 where
  pub connected : s.ws ≡ true
  pub answered : s.syncing ≡ false
  pub latest : s.latest ≡ some newest
  pub time : s.time ≡ some newest
  pub live : s.live ≡ true
  pub shown : s.view.time_label ≡ instant newest

CaughtUp-resync_with :
    (c : Calendar) (s : Timeline) (last : LastProduct)
    → s.enabled ≡ true
    → s.live ≡ true
    → s.ws ≡ true
    → CaughtUp (newest_of s.product last) (resync_with c s (some last))
unfolding resync_with synced synced_time publish_frame
CaughtUp-resync_with c s last on live ws = ground arith

CaughtUp-answer :
    (c : Calendar) (s : Timeline) (r : Response) (last : LastProduct) (product : Text)
    → fetch_latest r ≡ some last
    → s.syncing ≡ true
    → s.product ≡ product
    → s.enabled ≡ true
    → s.live ≡ true
    → s.ws ≡ true
    → CaughtUp (newest_of product last) (run_event c s (answer r))
unfolding run_event
CaughtUp-answer c s r last product e syncing named on live ws =
    if_cases (CaughtUp (newest_of product last)) s.syncing
      (λ _. rw (e, ← named) (CaughtUp-resync_with c s last on live ws))
      (λ still. absurd (false-true (sym still ∙ syncing)))

-- The socket comes back: the state after the loss and the timer.
record Connected (s u : Timeline) : Type 0 where
  enabled : u.enabled ≡ true
  live : u.live ≡ s.live
  product : u.product ≡ s.product
  ws : u.ws ≡ true
  syncing : u.syncing ≡ true

Connected-reconnect :
    (c : Calendar) (s : Timeline)
    → s.enabled ≡ true
    → s.hidden ≡ false
    → s.ws ≡ true
    → Connected s (run_events c s (socket_lost ∷ reconnect ∷ []))
unfolding run_event schedule_reconnect reconnect_fires open_socket resync
Connected-reconnect c s on seen ws = ground arith

-- A live timeline that is on and has a socket, on a page that is seen, catches up: after its socket is
-- lost, the timer fires and the service answers, it has a socket again and shows the newest frame that
-- the service names.
pub run_events-CaughtUp :
    (c : Calendar) (s : Timeline) (r : Response) (last : LastProduct)
    → s.enabled ≡ true
    → s.hidden ≡ false
    → s.ws ≡ true
    → s.live ≡ true
    → fetch_latest r ≡ some last
    → CaughtUp (newest_of s.product last) (run_events c s (socket_lost ∷ reconnect ∷ answer r ∷ []))
run_events-CaughtUp c s r last on seen ws live e =
    let u = run_events c s (socket_lost ∷ reconnect ∷ []) in
    let k = Connected-reconnect c s on seen ws in
    CaughtUp-answer c u r last s.product e k.syncing k.product k.enabled (k.live ∙ live) k.ws
