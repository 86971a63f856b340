-- ===== src/Conn/Loop/Session/Pipe.antt =====
-- connection.go: the way of a plain event from recvEvent to OnEvent, in a session.
use goesl.Base.{
  ◌≡◌, refl, ap, sym, ◌∙◌, Bool, true, false, List, [], ◌∷◌, ◌++◌, append-nil, Option, some,
  if◌then◌else◌,
}
use goesl.Base.Outcome.{Outcome, done, panic}
use goesl.Errors.{CtxErr, Err, ctx}
use goesl.Event.{Event}
use goesl.Conn.{M, Conn, then_run, pure, cancel_callback}
use goesl.Conn.Keeps.{After}
use goesl.Conn.Channels.{Held, cancel_callback-Holds}
use goesl.Conn.Loop.{
  cmd_replies, api_responses, plain_events, Next, goes_on, redialing, stuck_sending, returns,
  finish,
}
use goesl.Conn.Loop.Effect.{
  arrivals, unsent, Grows, to_cmd_reply-Grows, to_api_resp-Grows, to_events-Grows,
}
use goesl.Conn.Loop.Session.{
  Session, Loop, reading, dialing, sending, leaving, ended, Choice, turns, bind_conn, finished,
  turn_to_end, loop_of, after_turn, send_to, after_send, after_finish, turn_in, send_in, give_up_in,
}

-- The specification: a pipe of events, in which each waits until it is handed over.
pub record Pipe : Type 0 where
  pub delivered : List Event
  pub waiting : List Event

-- What a step may do to it: accept some events at its end, or hand over those at its front.
pub data PipeStep (p : Pipe) (new : List Event) (q : Pipe) : Type 0 where
  accepts : q.delivered ≡ p.delivered → q.waiting ≡ p.waiting ++ new → PipeStep p new q
  hands_over :
      (es : List Event)
      → new ≡ []
      → q.delivered ≡ p.delivered ++ es
      → p.waiting ≡ es ++ q.waiting
      → PipeStep p new q

-- The plain event that the loop has read and not sent.
abbrev pub unsent_of : Loop → List Event
unsent_of (sending plain_events ev) = ev ∷ []
unsent_of _ = []

-- The pipe that a session is: what OnEvent was called with; and the channel, with what is to be sent.
abbrev pub pipe : Session → Pipe
pipe s = record { delivered = s.delivered; waiting = s.conn.events ++ unsent_of s.loop }

-- The plain event that recvEvent gives in a step, if it gives one.
abbrev pub arriving_in : Loop → List Event → List Event
arriving_in reading es = es
arriving_in l es = []

abbrev pub arriving : Choice → Session → List Event
arriving (turns t) s = arriving_in s.loop (arrivals t s.conn)
arriving k s = []

-- A step that does not panic is one of the specification.
unfoldable pub Steps : Pipe → List Event → Outcome Session → Type 0
Steps p new (done s) = PipeStep p new (pipe s)
Steps p new (panic e) = Unit

pub idle : (s : Session) → Steps (pipe s) [] (done s)
unfolding Steps
idle s = accepts refl (sym (append-nil _))

unsent-loop_of : (n : Next) → unsent_of (loop_of n) ≡ unsent n
unfolding loop_of
unsent-loop_of goes_on = refl
unsent-loop_of redialing = refl
unsent-loop_of (stuck_sending cmd_replies ev) = refl
unsent-loop_of (stuck_sending api_responses ev) = refl
unsent-loop_of (stuck_sending plain_events ev) = refl
unsent-loop_of (returns e) = refl

canceled-Grows :
    (before new : List Event) (e : Option Err) (k : Conn) (o : Outcome (Unit {0} × Conn))
    → k.events ++ [] ≡ before ++ new
    → After (Held k) o
    → Grows before new (then_run o (λ _. pure (returns e)))
unfolding After Held Grows
canceled-Grows before new e k (done (u, c)) h g = ap (λ v. v.events ++ []) g ∙ h
canceled-Grows before new e k (panic p) h g = tt

Grows-ifs :
    (before new : List Event) (b : Bool) (x y : Outcome (Next × Conn))
    → Grows before new x
    → Grows before new y
    → Grows before new (if b then x else y)
Grows-ifs before new true x y p q = p
Grows-ifs before new false x y p q = q

Grows-finish :
    (before new : List Event) (e : Option Err) (c : Conn)
    → c.events ++ [] ≡ before ++ new
    → Grows before new (finish e c)
unfolding finish
Grows-finish before new e c h =
    let left : Grows before new (done (returns e, c)) = unfold Grows in h in
    Grows-ifs before new _ _ _
      (canceled-Grows before new e c (cancel_callback c) h
        (cancel_callback-Holds c c (unfold Held in refl)))
      left

Grows-finished :
    (before new : List Event) (o : Outcome (Next × Conn))
    → Grows before new o
    → Grows before new (then_run o finished)
unfolding Grows finished
Grows-finished before new (done (goes_on, c)) g = g
Grows-finished before new (done (redialing, c)) g = g
Grows-finished before new (done (stuck_sending q ev, c)) g = g
Grows-finished before new (done (returns e, c)) g = Grows-finish before new e c g
Grows-finished before new (panic p) g = tt

pub grown :
    (s : Session) (l new : List Event) (o : Outcome (Next × Conn)) (f : Next → Conn → Session)
    → s.conn.events ++ l ≡ (pipe s).waiting ++ new
    → ((n : Next) (c : Conn)
        → pipe (f n c) ≡ record { delivered = s.delivered; waiting = c.events ++ unsent n })
    → Grows s.conn.events l o
    → Steps (pipe s) new (bind_conn o f)
unfolding Grows Steps bind_conn
grown s l new (done (n, c)) f w p g =
    accepts (ap (λ q. q.delivered) (p n c)) (ap (λ q. q.waiting) (p n c) ∙ g ∙ w)
grown s l new (panic e) f w p g = tt

after_turn-pipe :
    (s : Session) (n : Next) (c : Conn)
    → pipe (after_turn s n c) ≡ record { delivered = s.delivered; waiting = c.events ++ unsent n }
unfolding after_turn
after_turn-pipe s n c =
    ap (λ l. record { delivered = s.delivered; waiting = c.events ++ l }) (unsent-loop_of n)

after_send-pipe :
    (s : Session) (n : Next) (c : Conn)
    → pipe (after_send s n c) ≡ record { delivered = s.delivered; waiting = c.events ++ unsent n }
unfolding after_send
after_send-pipe s n c =
    ap (λ l. record { delivered = s.delivered; waiting = c.events ++ l }) (unsent-loop_of n)

after_finish-pipe :
    (s : Session) (n : Next) (c : Conn)
    → pipe (after_finish s n c) ≡ record { delivered = s.delivered; waiting = c.events ++ unsent n }
unfolding after_finish
after_finish-pipe s n c =
    ap (λ l. record { delivered = s.delivered; waiting = c.events ++ l }) (unsent-loop_of n)

-- The wait of a session whose loop has nothing to send.
pub unsent-nil :
    (s : Session) (l : Loop) (new : List Event)
    → s.loop ≡ l
    → unsent_of l ≡ []
    → s.conn.events ++ new ≡ (pipe s).waiting ++ new
unsent-nil s l new h u =
    ap (λ es. es ++ new)
      (sym (ap (λ es. s.conn.events ++ es) (ap unsent_of h ∙ u) ∙ append-nil s.conn.events))

pub turn_in-Steps :
    (l : Loop) (m : M Next) (new : List Event) (s : Session)
    → s.loop ≡ l
    → Grows s.conn.events new (m s.conn)
    → Steps (pipe s) (arriving_in l new) (turn_in l m s)
unfolding turn_in turn_to_end
turn_in-Steps reading m new s h g =
    grown s new new _ (after_turn s) (unsent-nil s reading _ h refl) (after_turn-pipe s)
      (Grows-finished s.conn.events new (m s.conn) g)
turn_in-Steps dialing m new s h g = idle s
turn_in-Steps (sending q ev) m new s h g = idle s
turn_in-Steps (leaving e) m new s h g = idle s
turn_in-Steps (ended e) m new s h g = idle s

pub send_in-Steps : (l : Loop) (s : Session) → s.loop ≡ l → Steps (pipe s) [] (send_in l s)
unfolding send_in send_to
send_in-Steps (sending cmd_replies ev) s h =
    grown s [] [] _ (after_send s) (unsent-nil s (sending cmd_replies ev) [] h refl)
      (after_send-pipe s) (to_cmd_reply-Grows s.conn ev s.conn refl)
send_in-Steps (sending api_responses ev) s h =
    grown s [] [] _ (after_send s) (unsent-nil s (sending api_responses ev) [] h refl)
      (after_send-pipe s) (to_api_resp-Grows s.conn ev s.conn refl)
send_in-Steps (sending plain_events ev) s h =
    grown s (ev ∷ []) [] _ (after_send s)
      (sym (ap (λ l. s.conn.events ++ unsent_of l) h) ∙ sym (append-nil _)) (after_send-pipe s)
      (to_events-Grows s.conn ev s.conn refl)
send_in-Steps reading s h = idle s
send_in-Steps dialing s h = idle s
send_in-Steps (leaving e) s h = idle s
send_in-Steps (ended e) s h = idle s

pub give_up_in-Steps :
    (l : Loop) (e : CtxErr) (s : Session) → s.loop ≡ l → Steps (pipe s) [] (give_up_in l e s)
unfolding give_up_in
give_up_in-Steps (sending cmd_replies ev) e s h =
    grown s [] [] _ (after_finish s) (unsent-nil s (sending cmd_replies ev) [] h refl)
      (after_finish-pipe s) (Grows-finish s.conn.events [] (some (ctx e)) s.conn refl)
give_up_in-Steps (sending api_responses ev) e s h =
    grown s [] [] _ (after_finish s) (unsent-nil s (sending api_responses ev) [] h refl)
      (after_finish-pipe s) (Grows-finish s.conn.events [] (some (ctx e)) s.conn refl)
give_up_in-Steps (sending plain_events ev) e s h = idle s
give_up_in-Steps reading e s h = idle s
give_up_in-Steps dialing e s h = idle s
give_up_in-Steps (leaving f) e s h = idle s
give_up_in-Steps (ended f) e s h = idle s
