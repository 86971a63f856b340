-- ===== src/Conn/Loop/Session.antt =====
-- connection.go: HandleEvents, the callback goroutines and the callers of a connection, interleaved. A
-- session goes on by one step of one of them at a time; a step ends where the code waits for another.
pub mod Pipe
pub mod Order
pub mod Invariant
pub mod Typing
pub mod Silence
pub mod Deadlock
pub mod Serving
pub mod Service
pub mod Draining
pub mod Greeting
pub mod Departing
pub mod Kept
pub mod Shutdown
pub mod Ending
use goesl.Base.{
  ℕ, zero, suc, ◌+◌, ◌-◌, Bool, true, false, ◌&&◌, List, [], ◌∷◌, ◌++◌, Option, none, some, Bytes,
  codes, ◌==◌, if◌then◌else◌,
}
use goesl.Base.Outcome.{Outcome, done, panic}
use goesl.Errors.{NetErr, CtxErr, Err, ctx}
use goesl.EvName
use goesl.EvName.{heartbeat}
use goesl.Event.{Event}
use goesl.Conn.{Conn, on_connect, M, ◌>>=◌, ◌>>◌, pure, act, set_deadline, write, close}
use goesl.Conn.Send.{
  Pick, ctx_done, from_cmd_reply, from_api_resp, Sent, answer, waiting, await, write_failed,
  command_text,
}
use goesl.Conn.Loop.Callback.{Phase, starting, stopped, Move, callback}
use goesl.Conn.Loop.Closing.{cut_turn}
use goesl.Conn.Loop.{
  Turn, Channel, cmd_replies, api_responses, plain_events, Next, goes_on, redialing, stuck_sending,
  returns, to_cmd_reply, to_api_resp, to_events, turn, finish,
}

-- A callback goroutine, and whether its context is done.
pub record Callback : Type 0 where
  pub phase : Phase
  pub done : Bool

-- Where HandleEvents is: at the top of its loop, in a send to a channel, in a reset that still dials, in
-- the wait of its deferred function, returned.
pub data Loop : Type 0 where
  reading dialing : Loop
  sending : Channel → Event → Loop
  leaving ended : Option Err → Loop

-- The callback goroutines stand with the newest first. `calls` counts the callers that wait for a reply;
-- `delivered` has the events that OnEvent was called with, oldest first.
pub record Session : Type 0 where
  pub conn : Conn
  pub loop : Loop
  pub callbacks : List Callback
  pub calls : ℕ
  pub delivered : List Event

-- One step of the session; `cuts` is a turn whose read waits when Close is called.
pub data Choice : Type 0 where
  turns : Turn → Choice
  cuts : Turn → Err → Choice
  sends leaves closes : Choice
  gives_up : CtxErr → Choice
  calls_back : ℕ → Move → Choice
  writes : Bool → Bytes → Choice
  gets_reply : Pick → Choice

pub cancel_newest : List Callback → List Callback
cancel_newest [] = []
cancel_newest (b ∷ bs) = record b { done = true } ∷ bs

-- The goroutines after a step: evCallbackCanceler may have been called, for the newest of them, and
-- behind that reset may have started another.
pub note_canceled : Conn → Conn → List Callback → List Callback
unfolding cancel_newest
note_canceled c c' bs = if c'.canceled == c.canceled then bs else cancel_newest bs

pub note_started : Conn → Conn → List Callback → List Callback
note_started c c' bs =
    if c'.started == c.started then bs else record { phase = starting; done = false } ∷ bs

-- Behind a step on the connection.
pub bind_conn : {A : Type 0} → Outcome (A × Conn) → (A → Conn → Session) → Outcome Session
bind_conn (done (a, c)) f = done (f a c)
bind_conn (panic p) f = panic p

loop_of : Next → Loop
loop_of goes_on = reading
loop_of redialing = dialing
loop_of (stuck_sending q ev) = sending q ev
loop_of (returns e) = leaving e

finished : Next → M Next
finished (returns e) = finish e
finished n = pure n

-- A turn of the loop, with the deferred function behind a turn that returns.
turn_to_end : M Next → M Next
unfolding finished
turn_to_end m = m >>= finished

after_turn : Session → Next → Conn → Session
unfolding loop_of note_started note_canceled
after_turn s n c = record s {
  conn = c;
  loop = loop_of n;
  callbacks = note_started s.conn c (note_canceled s.conn c s.callbacks);
}

send_to : Channel → Event → M Next
send_to cmd_replies ev = to_cmd_reply ev
send_to api_responses ev = to_api_resp ev
send_to plain_events ev = to_events ev

after_send : Session → Next → Conn → Session
after_send s n c = record s { conn = c; loop = loop_of n }

after_finish : Session → Next → Conn → Session
after_finish s n c = record s {
  conn = c;
  loop = loop_of n;
  callbacks = note_canceled s.conn c s.callbacks;
}

pub turn_in : Loop → M Next → Session → Outcome Session
unfolding turn_to_end after_turn
turn_in reading m s = bind_conn (turn_to_end m s.conn) (after_turn s)
turn_in l m s = done s

pub send_in : Loop → Session → Outcome Session
unfolding send_to after_send
send_in (sending q ev) s = bind_conn (send_to q ev s.conn) (after_send s)
send_in l s = done s

-- A send of a plain event has no other case in its select.
pub give_up_in : Loop → CtxErr → Session → Outcome Session
unfolding after_finish
give_up_in (sending cmd_replies ev) e s = bind_conn (finish (some (ctx e)) s.conn) (after_finish s)
give_up_in (sending api_responses ev) e s =
    bind_conn (finish (some (ctx e)) s.conn) (after_finish s)
give_up_in l e s = done s

pub has_stopped : Phase → Bool
has_stopped stopped = true
has_stopped _ = false

pub all_stopped : List Callback → Bool
unfolding has_stopped
all_stopped [] = true
all_stopped (b ∷ bs) = has_stopped b.phase && all_stopped bs

-- `conn.srWg.Wait()`
leave_in : Loop → Session → Session
unfolding all_stopped
leave_in (leaving e) s = if all_stopped s.callbacks then record s { loop = ended e } else s
leave_in l s = s

pub get_callback : ℕ → List Callback → Option Callback
get_callback i [] = none
get_callback zero (b ∷ bs) = some b
get_callback (suc i) (b ∷ bs) = get_callback i bs

pub set_phase : ℕ → Phase → List Callback → List Callback
set_phase i p [] = []
set_phase zero p (b ∷ bs) = record b { phase = p } ∷ bs
set_phase (suc i) p (b ∷ bs) = b ∷ set_phase i p bs

after_move : ℕ → Session → Phase × List Event → Conn → Session
unfolding set_phase
after_move i s r c = record s {
  conn = c;
  callbacks = set_phase i r.0 s.callbacks;
  delivered = s.delivered ++ r.1;
}

move_as : Option Callback → ℕ → Move → Session → Outcome Session
unfolding callback after_move
move_as none i m s = done s
move_as (some b) i m s = bind_conn (callback m b.done b.phase s.conn) (after_move i s)

after_close : Session → Unit {0} → Conn → Session
after_close s u c = record s { conn = c; callbacks = note_canceled s.conn c s.callbacks }

begun : Option NetErr → M Bool
begun none = pure true
begun (some e) = do write_failed e; pure false

-- A caller's command, up to its wait; a write that fails returns at once.
begin_bytes : Bytes → M Bool
unfolding begun
begin_bytes b = do e ← write b; begun e

-- By Send, which sets a deadline first, or by SendBytes.
pub begin_call : Bool → Bytes → M Bool
unfolding begin_bytes
begin_call true b = do set_deadline; begin_bytes b
begin_call false b = begin_bytes b

after_write : Session → Bool → Conn → Session
after_write s sent c = record s { conn = c; calls = if sent then s.calls + 1 else s.calls }

calls_left : ℕ → Sent → ℕ
calls_left n waiting = n
calls_left n (answer raw err) = n - 1

after_reply : Session → Sent → Conn → Session
unfolding calls_left
after_reply s r c = record s { conn = c; calls = calls_left s.calls r }

reply_in : ℕ → Pick → Session → Outcome Session
unfolding after_reply
reply_in zero pick s = done s
reply_in (suc n) pick s = bind_conn (await pick s.conn) (after_reply s)

unfoldable pub step : Choice → Session → Outcome Session
unfolding turn_in send_in give_up_in leave_in get_callback move_as after_close begin_call
    after_write reply_in bind_conn finish to_cmd_reply to_api_resp to_events
step (turns t) s = turn_in s.loop (turn t) s
step (cuts t e) s = turn_in s.loop (cut_turn t e) s
step sends s = send_in s.loop s
step (gives_up e) s = give_up_in s.loop e s
step leaves s = done (leave_in s.loop s)
step closes s = bind_conn (close s.conn) (after_close s)
step (calls_back i m) s = move_as (get_callback i s.callbacks) i m s
step (writes by_send b) s = bind_conn (begin_call by_send b s.conn) (after_write s)
step (gets_reply pick) s = reply_in s.calls pick s

next_run : Outcome Session → (Session → Outcome Session) → Outcome Session
next_run (done s) f = f s
next_run (panic p) f = panic p

unfoldable pub run : List Choice → Session → Outcome Session
unfolding next_run
run [] s = done s
run (k ∷ ks) s = next_run (step k s) (run ks)

-- HandleEvents is called on a connection that Dial has just made, with its one callback goroutine.
abbrev pub begin : Conn → Session
begin c = record {
  conn = c;
  loop = reading;
  callbacks = record { phase = starting; done = false } ∷ [];
  calls = 0;
  delivered = [];
}
