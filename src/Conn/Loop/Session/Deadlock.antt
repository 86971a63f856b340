-- ===== src/Conn/Loop/Session/Deadlock.antt =====
-- connection.go: HandleEvents and eventCallback, where each waits for the other.
use goesl.Base.{
  left_true, right_true, ℕ, zero, suc, ◌≡◌, refl, ap, sym, ◌∙◌, Bool, true, false, ◌&&◌, List, [],
  ◌∷◌, append-nil, length,
}
use goesl.Base.Int.{pos, ltb_ℤ}
use goesl.Base.Outcome.{Outcome, done, panic}
use goesl.Event.{Event}
use goesl.Conn.{Conn, then_run, pure}
use goesl.Conn.Keeps.{After, Channels, channels}
use goesl.Conn.Channels.{Held, Keeps-Holds}
use goesl.Conn.Send.{Pick, ctx_done, from_cmd_reply, from_api_resp, await}
use goesl.Conn.Send.Channels.{await-After, await_cmd_reply-waiting, await_api_resp-waiting}
use goesl.Conn.Loop.{turn, plain_events, to_events, has_room}
use goesl.Conn.Loop.Callback.{
  awaiting, Move, asks, gets, greets, takes_event, stops, got, answered_phase, callback,
}
use goesl.Conn.Loop.Session.{
  Session, Callback, sending, Choice, turns, cuts, sends, leaves, closes, gives_up, calls_back,
  writes, gets_reply, bind_conn, loop_of, turn_in, send_in, send_to, after_send, give_up_in,
  leave_in, set_phase, after_move, move_as, begin_call, after_write, after_reply, reply_in, step,
  next_run, run, get_callback,
}
use goesl.Conn.Loop.Session.Order.{begin_call-Keeps}

-- No reply is there, and there is no room for another plain event.
pub record Stalled (v : Channels) : Type 0 where
  pub cmd_reply : v.cmd_reply ≡ []
  pub api_resp : v.api_resp ≡ []
  pub full : ltb_ℤ (pos (length v.events)) v.capacity ≡ false

abbrev pub asking : Callback
asking = record { phase = awaiting; done = false }

-- HandleEvents waits to send `ev`, the one callback goroutine waits for a reply, and OnEvent was called
-- with these.
pub record Deadlocked (ev : Event) (es : List Event) (s : Session) : Type 0 where
  pub loop : s.loop ≡ sending plain_events ev
  pub callbacks : s.callbacks ≡ asking ∷ []
  pub delivered : s.delivered ≡ es
  pub stalled : Stalled (channels s.conn)

abbrev not_closes : Choice → Bool
not_closes closes = false
not_closes (cuts t e) = false
not_closes _ = true

unfoldable pub never_closes : List Choice → Bool
never_closes [] = true
never_closes (k ∷ ks) = not_closes k && never_closes ks

unfoldable Deadly : Event → List Event → Outcome Session → Type 0
Deadly ev es (done s) = Deadlocked ev es s
Deadly ev es (panic p) = Unit

Held-Stalled : (k c : Conn) → Stalled (channels k) → Held k c → Stalled (channels c)
unfolding Held
Held-Stalled k c h p = rw p h

await-Held : (pick : Pick) (c : Conn) → Stalled (channels c) → After (Held c) (await pick c)
unfolding Held
await-Held pick c h =
    await-After (Held c) pick c (unfold Held in refl) (λ e es q. absurd e es (sym h.cmd_reply ∙ q))
      (λ e es q. absurd e es (sym h.api_resp ∙ q))
  where
    absurd : {A : Type 0} (e : Event) (es : List Event) → [] ≡ e ∷ es → A
    absurd e es q = cc

module _ (ev : Event) (es : List Event) where
  still : (s : Session) → Deadlocked ev es s → Deadly ev es (done s)
  unfolding Deadly
  still s d = d

  unchanged : (s : Session) (o : Outcome Session) → Deadlocked ev es s → o ≡ done s → Deadly ev es o
  unchanged s o h p = rw p (still s h)

  Held-Deadly :
      {A : Type 0} (s : Session) (o : Outcome (A × Conn)) (f : A → Conn → Session)
      → ((a : A) (c : Conn) → Stalled (channels c) → Deadlocked ev es (f a c))
      → Deadlocked ev es s
      → After (Held s.conn) o
      → Deadly ev es (bind_conn o f)
  unfolding Deadly bind_conn After
  Held-Deadly s (done (a, c)) f g d h = g a c (Held-Stalled s.conn c d.stalled h)
  Held-Deadly s (panic p) f g d h = tt

  sent-Deadly :
      (s : Session)
      → Deadlocked ev es s
      → Deadly ev es (bind_conn (to_events ev s.conn) (after_send s))
  unfolding to_events has_room bind_conn after_send loop_of Deadly
  sent-Deadly s d = rw (d.stalled.full) (record {
    loop = refl;
    callbacks = d.callbacks;
    delivered = d.delivered;
    stalled = d.stalled;
  })

  reply_in-Deadly :
      (n : ℕ) (pick : Pick) (s : Session) → Deadlocked ev es s → Deadly ev es (reply_in n pick s)
  unfolding reply_in after_reply
  reply_in-Deadly zero pick s d = still s d
  reply_in-Deadly (suc n) pick s d =
      Held-Deadly s (await pick s.conn) (after_reply s)
        (λ r c g. record {
          loop = d.loop;
          callbacks = d.callbacks;
          delivered = d.delivered;
          stalled = g;
        })
        d (await-Held pick s.conn d.stalled)

  got-awaiting :
      (pick : Pick) (c : Conn) → Stalled (channels c) → got false pick c ≡ done (awaiting, c)
  unfolding got answered_phase
  got-awaiting (ctx_done e) c h = refl
  got-awaiting from_cmd_reply c h =
      ap (λ o. then_run o (λ r. pure (answered_phase r))) (await_cmd_reply-waiting c h.cmd_reply)
  got-awaiting from_api_resp c h =
      ap (λ o. then_run o (λ r. pure (answered_phase r))) (await_api_resp-waiting c h.api_resp)

  callback-awaiting :
      (m : Move) (c : Conn)
      → Stalled (channels c)
      → callback m false awaiting c ≡ done ((awaiting, []), c)
  unfolding callback
  callback-awaiting asks c h = refl
  callback-awaiting greets c h = refl
  callback-awaiting takes_event c h = refl
  callback-awaiting stops c h = refl
  callback-awaiting (gets pick) c h =
      ap (λ o. then_run o (λ p. pure (p, []))) (got-awaiting pick c h)

  moved-Deadly :
      (i : ℕ) (m : Move) (s : Session)
      → Deadlocked ev es s
      → Deadly ev es (move_as (get_callback i (asking ∷ [])) i m s)
  unfolding get_callback move_as
  moved-Deadly zero m s d = rw (callback-awaiting m s.conn d.stalled) (
      unfold bind_conn after_move set_phase Deadly in
      record {
        loop = d.loop;
        callbacks = ap (λ bs. set_phase 0 awaiting bs) d.callbacks;
        delivered = append-nil s.delivered ∙ d.delivered;
        stalled = d.stalled;
      })
  moved-Deadly (suc i) m s d = still s d

  the_same : (o o' : Outcome Session) → o ≡ o' → Deadly ev es o' → Deadly ev es o
  the_same o o' p h = rw p h

  step-Deadly :
      (k : Choice) (s : Session)
      → not_closes k ≡ true
      → Deadlocked ev es s
      → Deadly ev es (step k s)
  unfolding step turn_in send_in send_to give_up_in leave_in after_write
  step-Deadly (turns t) s n d = unchanged s _ d (ap (λ l. turn_in l (turn t) s) d.loop)
  step-Deadly sends s n d = the_same _ _ (ap (λ l. send_in l s) d.loop) (sent-Deadly s d)
  step-Deadly (gives_up e) s n d = unchanged s _ d (ap (λ l. give_up_in l e s) d.loop)
  step-Deadly leaves s n d = unchanged s _ d (ap (λ l. done (leave_in l s)) d.loop)
  step-Deadly closes s n d = cc
  step-Deadly (cuts t e) s n d = cc
  step-Deadly (calls_back i m) s n d =
      the_same _ _ (ap (λ bs. move_as (get_callback i bs) i m s) d.callbacks) (moved-Deadly i m s d)
  step-Deadly (writes by_send b) s n d =
      Held-Deadly s (begin_call by_send b s.conn) (after_write s)
        (λ r c g. record {
          loop = d.loop;
          callbacks = d.callbacks;
          delivered = d.delivered;
          stalled = g;
        })
        d
        (Keeps-Holds (begin_call by_send b) (begin_call-Keeps by_send b) s.conn s.conn
          (unfold Held in refl))
  step-Deadly (gets_reply pick) s n d = reply_in-Deadly s.calls pick s d

  next_run-Deadly :
      (o : Outcome Session) (f : Session → Outcome Session)
      → Deadly ev es o
      → ((s : Session) → Deadlocked ev es s → Deadly ev es (f s))
      → Deadly ev es (next_run o f)
  unfolding next_run Deadly
  next_run-Deadly (done s) f h k = k s h
  next_run-Deadly (panic p) f h k = tt

  run-Deadly :
      (ks : List Choice) (s : Session)
      → never_closes ks ≡ true
      → Deadlocked ev es s
      → Deadly ev es (run ks s)
  unfolding run never_closes
  run-Deadly [] s n d = still s d
  run-Deadly (k ∷ ks) s n d =
      next_run-Deadly (step k s) (run ks)
        (step-Deadly k s (left_true (not_closes k) (never_closes ks) n) d)
        (λ t. run-Deadly ks t (right_true (not_closes k) (never_closes ks) n))

-- Where HandleEvents waits for room for a plain event while the one callback goroutine waits for the
-- reply to its first command, and no reply has been read, both wait for ever unless Close is called:
-- whatever the callers and the contexts do, HandleEvents does not return and OnEvent is not called.
pub run-Deadlocked :
    (ev : Event) (es : List Event) (ks : List Choice) (s s' : Session)
    → never_closes ks ≡ true
    → Deadlocked ev es s
    → run ks s ≡ done s'
    → Deadlocked ev es s'
run-Deadlocked ev es ks s s' n d r =
    let held : Deadly ev es (done s') = rw r at (run-Deadly ev es ks s n d) in unfold Deadly in held
