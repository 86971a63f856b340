-- ===== src/Conn/Loop/Session/Order.antt =====
-- connection.go: in a session no plain event is lost, repeated or overtaken.
use goesl.Conn.Loop.Effect.{arrivals, turn-Grows}
use goesl.Conn.Loop.{turn}
use goesl.Base.{
  ℕ, zero, suc, ◌≡◌, refl, ap, sym, ◌∙◌, Bool, true, false, List, [], ◌∷◌, ◌++◌, append_assoc,
  append-nil, Option, none, some, if◌then◌else◌, Bytes,
}
use goesl.Base.Outcome.{Outcome, done, panic}
use goesl.Errors.{NetErr, Err}
use goesl.Event.{Event}
use goesl.Conn.{Conn, pure, set_deadline, write, close}
use goesl.Conn.Keeps.{
  After, After-weaken, Keeps, Keeps->>=, pure-Keeps, set_deadline-Keeps, write-Keeps,
}
use goesl.Conn.Channels.{Held, close-Holds}
use goesl.Conn.Send.{Pick, await, write_failed}
use goesl.Conn.Send.Channels.{write_failed-Keeps}
use goesl.Conn.Loop.Closing.Effect.{cut_turn-Grows}
use goesl.Conn.Loop.Closing.{cut_turn}
use goesl.Conn.Loop.Callback.{Phase, Move, callback}
use goesl.Conn.Loop.Callback.Effect.{
  Passes, callback-Passes, events-Closed, await-Closed, Keeps-Closed,
}
use goesl.Conn.Loop.Session.{
  Session, Callback, Loop, reading, dialing, sending, leaving, ended, Choice, turns, cuts, sends,
  leaves, closes, gives_up, calls_back, writes, gets_reply, bind_conn, leave_in, after_move,
  move_as, after_close, begin_call, begin_bytes, begun, after_write, after_reply, reply_in, step,
  next_run, run, get_callback, all_stopped,
}
use goesl.Conn.Loop.Session.Pipe.{
  arriving_in, Pipe, PipeStep, accepts, hands_over, unsent_of, pipe, arriving, Steps, idle,
  unsent-nil, turn_in-Steps, send_in-Steps, give_up_in-Steps,
}

-- A step on the connection that leaves the loop and OnEvent as they are.
same_pipe :
    {A : Type 0} (s : Session) (o : Outcome (A × Conn)) (f : A → Conn → Session)
    → ((a : A) (c : Conn)
        → pipe (f a c) ≡ record { delivered = s.delivered; waiting = c.events ++ unsent_of s.loop })
    → After (λ d. d.events ≡ s.conn.events) o
    → Steps (pipe s) [] (bind_conn o f)
unfolding After Steps bind_conn
same_pipe s (done (a, c)) f p h =
    accepts (ap (λ q. q.delivered) (p a c))
      (ap (λ q. q.waiting) (p a c) ∙ ap (λ es. es ++ unsent_of s.loop) h ∙ sym (append-nil _))
same_pipe s (panic e) f p h = tt

left-Steps :
    (s : Session) (e : Option Err) (b : Bool)
    → s.loop ≡ leaving e
    → Steps (pipe s) [] (done (if b then record s { loop = ended e } else s))
unfolding Steps
left-Steps s e true h = accepts refl (unsent-nil s (leaving e) [] h refl)
left-Steps s e false h = accepts refl (sym (append-nil _))

leave_in-Steps : (l : Loop) (s : Session) → s.loop ≡ l → Steps (pipe s) [] (done (leave_in l s))
unfolding leave_in
leave_in-Steps (leaving e) s h = left-Steps s e (all_stopped s.callbacks) h
leave_in-Steps reading s h = idle s
leave_in-Steps dialing s h = idle s
leave_in-Steps (sending q ev) s h = idle s
leave_in-Steps (ended e) s h = idle s

events-Held : (k c : Conn) → Held k c → c.events ≡ k.events
unfolding Held
events-Held k c h = ap (λ v. v.events) h

close_in-Steps : (s : Session) → Steps (pipe s) [] (bind_conn (close s.conn) (after_close s))
unfolding after_close
close_in-Steps s =
    same_pipe s (close s.conn) (after_close s) (λ a c. refl)
      (After-weaken (Held s.conn) _ (close s.conn) (close-Holds s.conn s.conn (unfold Held in refl))
        (events-Held s.conn))

passed :
    (i : ℕ) (s : Session) (o : Outcome ((Phase × List Event) × Conn))
    → Passes s.conn.events o
    → Steps (pipe s) [] (bind_conn o (after_move i s))
unfolding Passes Steps bind_conn after_move
passed i s (done ((p, l), d)) h =
    hands_over l refl refl
      (ap (λ es. es ++ unsent_of s.loop) (sym h) ∙ append_assoc l d.events (unsent_of s.loop))
passed i s (panic e) h = tt

move_as-Steps :
    (b : Option Callback) (i : ℕ) (m : Move) (s : Session) → Steps (pipe s) [] (move_as b i m s)
unfolding move_as
move_as-Steps none i m s = idle s
move_as-Steps (some b) i m s =
    passed i s (callback m b.done b.phase s.conn) (callback-Passes m b.done b.phase s.conn)

begun-Keeps : (e : Option NetErr) → Keeps (begun e)
unfolding begun
begun-Keeps none = pure-Keeps true
begun-Keeps (some e) =
    Keeps->>= (write_failed e) (λ _. pure false) (write_failed-Keeps e) (λ _. pure-Keeps false)

begin_bytes-Keeps : (b : Bytes) → Keeps (begin_bytes b)
unfolding begin_bytes
begin_bytes-Keeps b = Keeps->>= (write b) begun (write-Keeps b) begun-Keeps

pub begin_call-Keeps : (by_send : Bool) (b : Bytes) → Keeps (begin_call by_send b)
unfolding begin_call
begin_call-Keeps true b =
    Keeps->>= set_deadline (λ _. begin_bytes b) set_deadline-Keeps (λ _. begin_bytes-Keeps b)
begin_call-Keeps false b = begin_bytes-Keeps b

write_in-Steps :
    (by_send : Bool) (b : Bytes) (s : Session)
    → Steps (pipe s) [] (bind_conn (begin_call by_send b s.conn) (after_write s))
unfolding after_write
write_in-Steps by_send b s =
    same_pipe s (begin_call by_send b s.conn) (after_write s) (λ a c. refl)
      (Keeps-Closed _ (events-Closed s.conn.events) (begin_call by_send b)
        (begin_call-Keeps by_send b) s.conn refl)

reply_in-Steps : (n : ℕ) (pick : Pick) (s : Session) → Steps (pipe s) [] (reply_in n pick s)
unfolding reply_in after_reply
reply_in-Steps zero pick s = idle s
reply_in-Steps (suc n) pick s =
    same_pipe s (await pick s.conn) (after_reply s) (λ a c. refl)
      (await-Closed _ (events-Closed s.conn.events) pick s.conn refl)

nothing_arrives :
    (l : Loop) (s : Session) (o : Outcome Session)
    → Steps (pipe s) (arriving_in l []) o
    → Steps (pipe s) [] o
nothing_arrives reading s o h = h
nothing_arrives dialing s o h = h
nothing_arrives (sending q ev) s o h = h
nothing_arrives (leaving e) s o h = h
nothing_arrives (ended e) s o h = h

step_in : (k : Choice) (s : Session) → Steps (pipe s) (arriving k s) (step k s)
unfolding step
step_in (turns t) s = turn_in-Steps s.loop (turn t) (arrivals t s.conn) s refl (turn-Grows t s.conn)
step_in (cuts t e) s =
    nothing_arrives s.loop s _
      (turn_in-Steps s.loop (cut_turn t e) [] s refl (cut_turn-Grows t e s.conn))
step_in sends s = send_in-Steps s.loop s refl
step_in (gives_up e) s = give_up_in-Steps s.loop e s refl
step_in leaves s = leave_in-Steps s.loop s refl
step_in closes s = close_in-Steps s
step_in (calls_back i m) s = move_as-Steps (get_callback i s.callbacks) i m s
step_in (writes by_send b) s = write_in-Steps by_send b s
step_in (gets_reply pick) s = reply_in-Steps s.calls pick s

-- Every step of a session that does not panic is a step of the pipe of plain events: the event that
-- recvEvent gives in it joins the end of the pipe and OnEvent is not called; or no event is received,
-- and OnEvent is called with the events that were at the front, which leave the pipe.
pub step-PipeStep :
    (k : Choice) (s s' : Session) → step k s ≡ done s' → PipeStep (pipe s) (arriving k s) (pipe s')
step-PipeStep k s s' h =
    let st : Steps (pipe s) (arriving k s) (done s') = rw h at (step_in k s) in unfold Steps in st

PipeStep-append :
    (p q : Pipe) (new : List Event)
    → PipeStep p new q
    → q.delivered ++ q.waiting ≡ (p.delivered ++ p.waiting) ++ new
PipeStep-append p q new (accepts d w) = rw d (rw w (sym (append_assoc p.delivered p.waiting new)))
PipeStep-append p q new (hands_over es n d w) = rw d (
    rw w (
      rw n (
        append_assoc p.delivered es q.waiting
        ∙ sym (append-nil (p.delivered ++ (es ++ q.waiting))))))

-- What recvEvent gives along a run.
unfoldable pub arrived_from : Outcome Session → (Session → List Event) → List Event
arrived_from (done s) f = f s
arrived_from (panic e) f = []

unfoldable pub arrived : List Choice → Session → List Event
unfolding arrived_from step
arrived [] s = []
arrived (k ∷ ks) s = arriving k s ++ arrived_from (step k s) (arrived ks)

-- All plain events of a session, the delivered ones first.
abbrev all_events : Session → List Event
all_events s = s.delivered ++ (pipe s).waiting

unfoldable Keeping : List Event → Outcome Session → Type 0
Keeping es (done s) = all_events s ≡ es
Keeping es (panic e) = Unit

next_run-Keeping :
    (p : Pipe) (new : List Event) (o : Outcome Session) (f : Session → Outcome Session)
    (g : Session → List Event)
    → Steps p new o
    → ((s : Session) → Keeping (all_events s ++ g s) (f s))
    → Keeping ((p.delivered ++ p.waiting) ++ (new ++ arrived_from o g)) (next_run o f)
unfolding next_run Steps Keeping arrived_from
next_run-Keeping p new (done s) f g st h =
    let in_order : all_events s ++ g s ≡ (p.delivered ++ p.waiting) ++ (new ++ g s) =
      ap (λ es. es ++ g s) (PipeStep-append p (pipe s) new st)
      ∙ append_assoc (p.delivered ++ p.waiting) new (g s) in
    rw in_order at (h s)
next_run-Keeping p new (panic e) f g st h = tt

kept_in_order : (ks : List Choice) (s : Session) → Keeping (all_events s ++ arrived ks s) (run ks s)
unfolding run arrived
kept_in_order [] s = unfold Keeping in sym (append-nil (all_events s))
kept_in_order (k ∷ ks) s =
    next_run-Keeping (pipe s) (arriving k s) (step k s) (run ks) (arrived ks) (step_in k s)
      (kept_in_order ks)

-- Along every run of a session that does not panic no plain event is lost, repeated or overtaken: those
-- that OnEvent was called with, followed by those that still wait in the channel or to be sent to it,
-- are those that were so before the run and, behind them, what recvEvent gave in its course.
pub run_in_order :
    (ks : List Choice) (s s' : Session)
    → run ks s ≡ done s'
    → s'.delivered ++ (pipe s').waiting ≡ (s.delivered ++ (pipe s).waiting) ++ arrived ks s
run_in_order ks s s' h =
    let kept : Keeping (all_events s ++ arrived ks s) (done s') = rw h at (kept_in_order ks s) in
    unfold Keeping in kept
