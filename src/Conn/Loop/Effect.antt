-- ===== src/Conn/Loop/Effect.antt =====
-- connection.go: what one turn of HandleEvents does to the channels.
use goesl.Base.{
  ◌≡◌, refl, ap, ◌∙◌, inl, inr, Bool, true, false, Bool-cases, ◌&&◌, List, [], ◌∷◌, ◌++◌,
  append-nil, Option, none, some, if◌then◌else◌,
}
use goesl.Base.Outcome.{Outcome, done, panic}
use goesl.Errors.{CtxErr, Err, reading, conn_lost}
use goesl.Event.{
  Event, EventType, event_invalid, event_state, event_connect, event_auth, event_command_reply,
  event_api_response, event_disconnect, event_log, event_generic,
}
use goesl.Event.Fields.{Fslog, event2_fslog}
use goesl.Recv.{Received}
use goesl.Conn.{Conn, M, then_run, recv}
use goesl.Conn.Keeps.{After, recv-Keeps}
use goesl.Conn.Channels.{Held, Keeps-Holds}
use goesl.Conn.Dial.{Reset, succeeded, failed_with, pending}
use goesl.Conn.Dial.Channels.{reset-Holds}
use goesl.Conn.Loop.{
  Turn, plain_events, Next, goes_on, stuck_sending, returns, to_cmd_reply, to_api_resp, to_events,
  has_room, or_done, log_line, hand_on, after_reset, ctx_err, lost, received_one, read_one,
  at_top_of, turn,
}

-- The plain event that recvEvent gives in a turn, if it gives one.
abbrev pub if_plain : EventType → Event → List Event
if_plain event_generic ev = ev ∷ []
if_plain _ ev = []

abbrev pub received_event : Option Err → Event → List Event
received_event none ev = if_plain ev.type ev
received_event (some e) ev = []

abbrev pub read_event : Outcome (Received × Conn) → List Event
read_event (done (r, c)) = received_event r.err r.event
read_event (panic p) = []

abbrev pub unless_done : Option CtxErr → List Event → List Event
unless_done none es = es
unless_done (some e) es = []

unfoldable pub arrivals : Turn → Conn → List Event
arrivals t c = if c.connected then unless_done t.at_top (read_event (recv c)) else []

-- The plain event that the loop still has to send.
abbrev pub unsent : Next → List Event
unsent (stuck_sending plain_events ev) = ev ∷ []
unsent _ = []

-- The channel of plain events has grown by these, but for the one that is not sent yet.
unfoldable pub Grows : List Event → List Event → Outcome (Next × Conn) → Type 0
Grows before new (done (n, c)) = c.events ++ unsent n ≡ before ++ new
Grows before new (panic p) = Unit

Held-events : (k c : Conn) → Held k c → c.events ≡ k.events
unfolding Held
Held-events k c h = ap (λ v. v.events) h

pub Held-refl : (c : Conn) → Held c c
unfolding Held
Held-refl c = refl

module _ (k : Conn) where
  pub to_cmd_reply-Grows :
      (ev : Event) (c : Conn) → c.events ≡ k.events → Grows k.events [] (to_cmd_reply ev c)
  unfolding to_cmd_reply Grows
  to_cmd_reply-Grows ev c h = elim (Bool-cases (has_room c.cmd_reply c)) [
    | inl room ↦ rw room (ap (λ es. es ++ []) h)
    | inr full ↦ rw full (ap (λ es. es ++ []) h)
  ]

  pub to_api_resp-Grows :
      (ev : Event) (c : Conn) → c.events ≡ k.events → Grows k.events [] (to_api_resp ev c)
  unfolding to_api_resp Grows
  to_api_resp-Grows ev c h = elim (Bool-cases (has_room c.api_resp c)) [
    | inl room ↦ rw room (ap (λ es. es ++ []) h)
    | inr full ↦ rw full (ap (λ es. es ++ []) h)
  ]

  pub to_events-Grows :
      (ev : Event) (c : Conn) → c.events ≡ k.events → Grows k.events (ev ∷ []) (to_events ev c)
  unfolding to_events Grows
  to_events-Grows ev c h = elim (Bool-cases (has_room c.events c)) [
    | inl room ↦ rw room (append-nil (c.events ++ ev ∷ []) ∙ ap (λ es. es ++ ev ∷ []) h)
    | inr full ↦ rw full (ap (λ es. es ++ ev ∷ []) h)
  ]

  or_done-Grows :
      (a : Option CtxErr) (m : M Next) (c : Conn)
      → c.events ≡ k.events
      → Grows k.events [] (m c)
      → Grows k.events [] (or_done a m c)
  unfolding or_done Grows
  or_done-Grows none m c h g = g
  or_done-Grows (some e) m c h g = ap (λ es. es ++ []) h

  log_line-Grows :
      (o : Outcome (Fslog × Option Err)) (c : Conn)
      → c.events ≡ k.events
      → Grows k.events [] (log_line o c)
  unfolding log_line Grows
  log_line-Grows (panic p) c h = tt
  log_line-Grows (done (l, none)) c h = ap (λ es. es ++ []) h
  log_line-Grows (done (l, some e)) c h = ap (λ es. es ++ []) h

  hand_on-Grows :
      (a : Option CtxErr) (t : EventType) (ev : Event) (c : Conn)
      → c.events ≡ k.events
      → Grows k.events (if_plain t ev) (hand_on a t ev c)
  unfolding hand_on Grows
  hand_on-Grows a event_disconnect ev c h = ap (λ es. es ++ []) h
  hand_on-Grows a event_command_reply ev c h =
      or_done-Grows a (to_cmd_reply ev) c h (to_cmd_reply-Grows ev c h)
  hand_on-Grows a event_api_response ev c h =
      or_done-Grows a (to_api_resp ev) c h (to_api_resp-Grows ev c h)
  hand_on-Grows a event_generic ev c h = to_events-Grows ev c h
  hand_on-Grows a event_log ev c h = log_line-Grows (event2_fslog ev) c h
  hand_on-Grows a event_invalid ev c h = ap (λ es. es ++ []) h
  hand_on-Grows a event_state ev c h = ap (λ es. es ++ []) h
  hand_on-Grows a event_connect ev c h = ap (λ es. es ++ []) h
  hand_on-Grows a event_auth ev c h = ap (λ es. es ++ []) h

  after_reset-Grows :
      (o : Outcome (Reset × Conn)) → After (Held k) o → Grows k.events [] (then_run o after_reset)
  unfolding After after_reset Grows
  after_reset-Grows (done (succeeded, c)) h = ap (λ es. es ++ []) (Held-events k c h)
  after_reset-Grows (done (failed_with e, c)) h = ap (λ es. es ++ []) (Held-events k c h)
  after_reset-Grows (done (pending, c)) h = ap (λ es. es ++ []) (Held-events k c h)
  after_reset-Grows (panic p) h = tt

  pub Grows-if :
      (b : Bool) (x y : Outcome (Next × Conn))
      → Grows k.events [] x
      → Grows k.events [] y
      → Grows k.events [] (if b then x else y)
  Grows-if true x y p q = p
  Grows-if false x y p q = q

  Held-connected : (c : Conn) → Held k c → Held k (record c { connected = false })
  unfolding Held
  Held-connected c h = h

  pub lost-Grows : (t : Turn) (e : Err) (c : Conn) → Held k c → Grows k.events [] (lost t e c)
  unfolding lost
  lost-Grows t e c h =
      let still : Grows k.events [] (done (goes_on, c)) =
        unfold Grows in ap (λ es. es ++ []) (Held-events k c h) in
      let left : Grows k.events [] (done (returns (ctx_err t.at_end), c)) =
        unfold Grows in ap (λ es. es ++ []) (Held-events k c h) in
      Grows-if (conn_lost e reading) _ _
        (Grows-if (c.opts.auto_redial && c.connected) _ _
          (after_reset-Grows _
            (reset-Holds (some e) k (record c { connected = false }) (Held-connected c h)))
          left)
        still

  received_one-Grows :
      (t : Turn) (e : Option Err) (ev : Event) (c : Conn)
      → Held k c
      → Grows k.events (received_event e ev) (received_one t e ev c)
  unfolding received_one
  received_one-Grows t (some e) ev c h = lost-Grows t e c h
  received_one-Grows t none ev c h = hand_on-Grows t.at_send ev.type ev c (Held-events k c h)

  read-Grows :
      (t : Turn) (o : Outcome (Received × Conn))
      → After (Held k) o
      → Grows k.events (read_event o) (then_run o (λ r. received_one t r.err r.event))
  unfolding After
  read-Grows t (done (r, c)) h = received_one-Grows t r.err r.event c h
  read-Grows t (panic p) h = unfold Grows in tt

at_top_of-Grows :
    (t : Turn) (top : Option CtxErr) (c : Conn)
    → Grows c.events (unless_done top (read_event (recv c))) (at_top_of t top c)
unfolding at_top_of read_one
at_top_of-Grows t none c = read-Grows c t (recv c) (Keeps-Holds recv recv-Keeps c c (Held-refl c))
at_top_of-Grows t (some e) c = unfold Grows in refl

Grows-ifs :
    (before : List Event) (b : Bool) (l m : List Event) (x y : Outcome (Next × Conn))
    → Grows before l x
    → Grows before m y
    → Grows before (if b then l else m) (if b then x else y)
Grows-ifs before true l m x y p q = p
Grows-ifs before false l m x y p q = q

-- After a turn, the events that wait in the channel or to be sent are those that waited in it before
-- and, behind them, the plain event that was received, if one was.
pub turn-Grows : (t : Turn) (c : Conn) → Grows c.events (arrivals t c) (turn t c)
unfolding turn arrivals
turn-Grows t c =
    Grows-ifs c.events c.connected _ [] _ _ (at_top_of-Grows t t.at_top c) (unfold Grows in refl)
