-- ===== src/Conn/Loop.antt =====
-- connection.go: HandleEvents, the loop that reads events and hands them on.
pub mod Delivery
pub mod Replies
pub mod Closing
pub mod Effect
pub mod Invariant
pub mod Typing
pub mod Callback
pub mod Session
use goesl.Base.{
  ℕ, Bool, true, false, not, ◌&&◌, List, [], ◌∷◌, ◌++◌, Option, none, some, Bytes, codes, length,
  if◌then◌else◌,
}
use goesl.Base.Int.{ℤ, pos, ltb_ℤ}
use goesl.Base.Outcome.{Outcome, done, panic}
use goesl.Errors.{CtxErr, Err, ctx, message, reading, conn_lost}
use goesl.Event.{
  Event, EventType, event_disconnect, event_command_reply, event_api_response, event_generic,
  event_log,
}
use goesl.Event.Fields.{Fslog, event2_fslog}
use goesl.Recv.{Received}
use goesl.Conn.{Conn, on_disconnect, on_fslog, M, ◌>>=◌, ◌>>◌, pure, act, recv, cancel_callback}
use goesl.Conn.Dial.{Reset, succeeded, failed_with, pending, reset}

-- What is decided outside in one turn of the loop: the error of the context at its top, whether the
-- context's case of a select on a channel is taken, and what ctx.Err() gives where it is returned.
pub record Turn : Type 0 where
  pub at_top : Option CtxErr
  pub at_send : Option CtxErr
  pub at_end : Option CtxErr

-- The channels that the loop sends to.
pub data Channel : Type 0 where
  cmd_replies api_responses plain_events : Channel

-- How a turn ends: `stuck_sending` where a channel is full, `redialing` where reset still dials.
pub data Next : Type 0 where
  goes_on redialing : Next
  stuck_sending : Channel → Event → Next
  returns : Option Err → Next

abbrev ctx_err : Option CtxErr → Option Err
ctx_err none = none
ctx_err (some e) = some (ctx e)

has_room : List Event → Conn → Bool
has_room q c = ltb_ℤ (pos (length q)) c.opts.send_reply_cap

unfoldable pub to_cmd_reply : Event → M Next
unfolding has_room
to_cmd_reply ev c =
    if has_room c.cmd_reply c
    then done (goes_on, record c { cmd_reply = c.cmd_reply ++ ev ∷ [] })
    else done (stuck_sending cmd_replies ev, c)

pub to_api_resp : Event → M Next
unfolding has_room
to_api_resp ev c =
    if has_room c.api_resp c
    then done (goes_on, record c { api_resp = c.api_resp ++ ev ∷ [] })
    else done (stuck_sending api_responses ev, c)

pub to_events : Event → M Next
unfolding has_room
to_events ev c =
    if has_room c.events c
    then done (goes_on, record c { events = c.events ++ ev ∷ [] })
    else done (stuck_sending plain_events ev, c)

-- A select between the context and a channel.
or_done : Option CtxErr → M Next → M Next
or_done none send = send
or_done (some e) send = pure (returns (some (ctx e)))

log_line : Outcome (Fslog × Option Err) → M Next
log_line (panic p) c = panic p
log_line (done (l, none)) c = done (goes_on, act (on_fslog l) c)
log_line (done (l, some e)) c = done (goes_on, c)

-- The switch on the event's type.
hand_on : Option CtxErr → EventType → Event → M Next
unfolding or_done to_cmd_reply to_api_resp to_events log_line
hand_on at_send event_disconnect ev = λ c. done (goes_on, act (on_disconnect ev) c)
hand_on at_send event_command_reply ev = or_done at_send (to_cmd_reply ev)
hand_on at_send event_api_response ev = or_done at_send (to_api_resp ev)
hand_on at_send event_generic ev = to_events ev
hand_on at_send event_log ev = log_line (event2_fslog ev)
hand_on at_send _ ev = pure goes_on

after_reset : Reset → M Next
after_reset succeeded = pure goes_on
after_reset (failed_with e) = pure (returns (some e))
after_reset pending = pure redialing

-- Behind an error of recvEvent.
pub lost : Turn → Err → M Next
unfolding after_reset
lost t e c =
    if conn_lost e reading
    then (if c.opts.auto_redial && c.connected
        then (reset (some e) >>= after_reset) (record c { connected = false })
        else done (returns (ctx_err t.at_end), c))
    else done (goes_on, c)

received_one : Turn → Option Err → Event → M Next
unfolding lost hand_on
received_one t (some e) ev = lost t e
received_one t none ev = hand_on t.at_send ev.type ev

read_one : Turn → M Next
unfolding received_one
read_one t = do r ← recv; received_one t r.err r.event

at_top_of : Turn → Option CtxErr → M Next
unfolding read_one
at_top_of t none = read_one t
at_top_of t (some e) = pure (returns (some (ctx e)))

-- One turn.
unfoldable pub turn : Turn → M Next
unfolding at_top_of
turn t c =
    if c.connected
    then at_top_of t t.at_top c
    else done (returns (some (message (codes "disconnected"))), c)

-- The deferred function, but for its wait for the callback goroutine.
pub finish : Option Err → M Next
finish e c =
    if not c.opts.auto_redial && c.connected
    then (cancel_callback >>= λ _. pure (returns e)) c
    else done (returns e, c)

continue : M Next → Next → M Next
unfolding finish
continue rest goes_on = rest
continue rest (stuck_sending q ev) = pure (stuck_sending q ev)
continue rest redialing = pure redialing
continue rest (returns e) = finish e

-- HandleEvents, for as many turns as are given; `goes_on` where it has not returned by then.
unfoldable pub handle_events : List Turn → M Next
unfolding continue
handle_events [] = pure goes_on
handle_events (t ∷ ts) = turn t >>= continue (handle_events ts)
