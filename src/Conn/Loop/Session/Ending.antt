-- ===== src/Conn/Loop/Session/Ending.antt =====
-- connection.go: where HandleEvents has returned the callback goroutines have, and OnEvent is not called.
use goesl.Base.{
  ℕ, zero, suc, ◌≡◌, refl, ap, Bool, true, false, Bool-cases, inl, inr, List, [], ◌∷◌, Option, none,
  some, if◌then◌else◌,
}
use goesl.Base.Outcome.{Outcome, done, panic}
use goesl.Errors.{CtxErr, Err}
use goesl.Event.{Event}
use goesl.Conn.{M, Conn}
use goesl.Conn.Send.{Pick}
use goesl.Conn.Loop.Closing.{cut_turn}
use goesl.Conn.Loop.{
  turn, cmd_replies, api_responses, plain_events, Next, goes_on, redialing, stuck_sending, returns,
}
use goesl.Conn.Loop.Callback.{Move}
use goesl.Conn.Loop.Session.{
  Session, Callback, Loop, reading, dialing, sending, leaving, ended, Choice, turns, cuts, sends,
  leaves, closes, gives_up, calls_back, writes, gets_reply, bind_conn, loop_of, after_turn,
  after_send, after_finish, turn_in, send_in, give_up_in, leave_in, after_move, move_as,
  after_close, after_write, after_reply, reply_in, step, next_run, run, begin, get_callback,
  all_stopped,
}
use goesl.Conn.Loop.Session.Silence.{Silent, Silently, step-Silently, run-Silently}

abbrev is_ended : Loop → Bool
is_ended (ended e) = true
is_ended _ = false

-- In a session in which HandleEvents has returned every callback goroutine has.
abbrev Quiet : Session → Type 0
Quiet s = is_ended s.loop ≡ true → all_stopped s.callbacks ≡ true

unfoldable Quietly : Outcome Session → Type 0
Quietly (done s) = Quiet s
Quietly (panic p) = Unit

quiet : (s : Session) → Quiet s → Quietly (done s)
unfolding Quietly
quiet s q = q

open_yet : (s : Session) → is_ended s.loop ≡ false → Quiet s
open_yet s h q = cc

loop_of-open : (n : Next) → is_ended (loop_of n) ≡ false
unfolding loop_of
loop_of-open goes_on = refl
loop_of-open redialing = refl
loop_of-open (stuck_sending q ev) = refl
loop_of-open (returns e) = refl

bind_conn-Quietly :
    {A : Type 0} (o : Outcome (A × Conn)) (f : A → Conn → Session)
    → ((a : A) (c : Conn) → is_ended (f a c).loop ≡ false)
    → Quietly (bind_conn o f)
unfolding bind_conn
bind_conn-Quietly (done (a, c)) f h = quiet (f a c) (open_yet (f a c) (h a c))
bind_conn-Quietly (panic p) f h = unfold Quietly in tt

Silently-Quietly :
    (e : Option Err) (es : List Event) (o : Outcome Session) → Silently e es o → Quietly o
unfolding Silently Quietly
Silently-Quietly e es (done s) h = λ _. h.stopped
Silently-Quietly e es (panic p) h = tt

turn_in-Quietly :
    (l : Loop) (m : M Next) (s : Session) → is_ended s.loop ≡ false → Quietly (turn_in l m s)
unfolding turn_in after_turn
turn_in-Quietly reading t s h = bind_conn-Quietly _ (after_turn s) (λ n c. loop_of-open n)
turn_in-Quietly dialing t s h = quiet s (open_yet s h)
turn_in-Quietly (sending q ev) t s h = quiet s (open_yet s h)
turn_in-Quietly (leaving e) t s h = quiet s (open_yet s h)
turn_in-Quietly (ended e) t s h = quiet s (open_yet s h)

send_in-Quietly : (l : Loop) (s : Session) → is_ended s.loop ≡ false → Quietly (send_in l s)
unfolding send_in after_send
send_in-Quietly (sending q ev) s h = bind_conn-Quietly _ (after_send s) (λ n c. loop_of-open n)
send_in-Quietly reading s h = quiet s (open_yet s h)
send_in-Quietly dialing s h = quiet s (open_yet s h)
send_in-Quietly (leaving e) s h = quiet s (open_yet s h)
send_in-Quietly (ended e) s h = quiet s (open_yet s h)

give_up_in-Quietly :
    (l : Loop) (e : CtxErr) (s : Session) → is_ended s.loop ≡ false → Quietly (give_up_in l e s)
unfolding give_up_in after_finish
give_up_in-Quietly (sending cmd_replies ev) e s h =
    bind_conn-Quietly _ (after_finish s) (λ n c. loop_of-open n)
give_up_in-Quietly (sending api_responses ev) e s h =
    bind_conn-Quietly _ (after_finish s) (λ n c. loop_of-open n)
give_up_in-Quietly (sending plain_events ev) e s h = quiet s (open_yet s h)
give_up_in-Quietly reading e s h = quiet s (open_yet s h)
give_up_in-Quietly dialing e s h = quiet s (open_yet s h)
give_up_in-Quietly (leaving x) e s h = quiet s (open_yet s h)
give_up_in-Quietly (ended x) e s h = quiet s (open_yet s h)

-- `conn.srWg.Wait()` is over only where every goroutine has stopped.
waited-Quiet :
    (s : Session) (e : Option Err)
    → is_ended s.loop ≡ false
    → Quiet (if all_stopped s.callbacks then record s { loop = ended e } else s)
waited-Quiet s e h = elim (Bool-cases (all_stopped s.callbacks)) [
  | inl all ↦ rw all (λ _. all)
  | inr some_goes_on ↦ rw some_goes_on (open_yet s h)
]

leave_in-Quietly :
    (l : Loop) (s : Session) → is_ended s.loop ≡ false → Quietly (done (leave_in l s))
unfolding leave_in
leave_in-Quietly (leaving e) s h = quiet _ (waited-Quiet s e h)
leave_in-Quietly reading s h = quiet s (open_yet s h)
leave_in-Quietly dialing s h = quiet s (open_yet s h)
leave_in-Quietly (sending q ev) s h = quiet s (open_yet s h)
leave_in-Quietly (ended e) s h = quiet s (open_yet s h)

move_as-Quietly :
    (b : Option Callback) (i : ℕ) (m : Move) (s : Session)
    → is_ended s.loop ≡ false
    → Quietly (move_as b i m s)
unfolding move_as after_move
move_as-Quietly none i m s h = quiet s (open_yet s h)
move_as-Quietly (some b) i m s h = bind_conn-Quietly _ (after_move i s) (λ r c. h)

reply_in-Quietly :
    (n : ℕ) (pick : Pick) (s : Session) → is_ended s.loop ≡ false → Quietly (reply_in n pick s)
unfolding reply_in after_reply
reply_in-Quietly zero pick s h = quiet s (open_yet s h)
reply_in-Quietly (suc n) pick s h = bind_conn-Quietly _ (after_reply s) (λ r c. h)

open-Quietly : (k : Choice) (s : Session) → is_ended s.loop ≡ false → Quietly (step k s)
unfolding step after_close after_write
open-Quietly (turns t) s h = turn_in-Quietly s.loop (turn t) s h
open-Quietly (cuts t e) s h = turn_in-Quietly s.loop (cut_turn t e) s h
open-Quietly sends s h = send_in-Quietly s.loop s h
open-Quietly (gives_up x) s h = give_up_in-Quietly s.loop x s h
open-Quietly leaves s h = leave_in-Quietly s.loop s h
open-Quietly closes s h = bind_conn-Quietly _ (after_close s) (λ u c. h)
open-Quietly (calls_back i m) s h = move_as-Quietly (get_callback i s.callbacks) i m s h
open-Quietly (writes by_send b) s h = bind_conn-Quietly _ (after_write s) (λ r c. h)
open-Quietly (gets_reply pick) s h = reply_in-Quietly s.calls pick s h

step-Quietly : (l : Loop) (k : Choice) (s : Session) → s.loop ≡ l → Quiet s → Quietly (step k s)
step-Quietly (ended e) k s h q = Silently-Quietly e s.delivered (step k s) (
    step-Silently e s.delivered k s
      (record { loop = h; stopped = q (ap is_ended h); delivered = refl }))
step-Quietly reading k s h q = open-Quietly k s (ap is_ended h)
step-Quietly dialing k s h q = open-Quietly k s (ap is_ended h)
step-Quietly (sending c ev) k s h q = open-Quietly k s (ap is_ended h)
step-Quietly (leaving e) k s h q = open-Quietly k s (ap is_ended h)

next_run-Quietly :
    (o : Outcome Session) (f : Session → Outcome Session)
    → Quietly o
    → ((s : Session) → Quiet s → Quietly (f s))
    → Quietly (next_run o f)
unfolding next_run Quietly
next_run-Quietly (done s) f h k = k s h
next_run-Quietly (panic p) f h k = tt

run-Quietly : (ks : List Choice) (s : Session) → Quiet s → Quietly (run ks s)
unfolding run
run-Quietly [] s h = quiet s h
run-Quietly (k ∷ ks) s h =
    next_run-Quietly (step k s) (run ks) (step-Quietly s.loop k s refl h) (run-Quietly ks)

-- Where HandleEvents has returned, in a session on a connection that Dial has made, every callback
-- goroutine has stopped; and whatever is done then that does not panic, HandleEvents has still returned
-- that error, none of them goes on, and OnEvent is not called again.
pub run-Silent :
    (c : Conn) (ks ls : List Choice) (s s' : Session) (e : Option Err)
    → run ks (begin c) ≡ done s
    → s.loop ≡ ended e
    → run ls s ≡ done s'
    → Silent e s.delivered s'
run-Silent c ks ls s s' e r h r' =
    let calm : Quietly (done s) = rw r at (run-Quietly ks (begin c) (open_yet (begin c) refl)) in
    let calm' : Quiet s = unfold Quietly in calm in
    let silent : Silent e s.delivered s = record {
      loop = h;
      stopped = calm' (ap is_ended h);
      delivered = refl;
    } in
    let after : Silently e s.delivered (done s') =
      rw r' at (run-Silently e s.delivered ls s silent) in
    unfold Silently in after
