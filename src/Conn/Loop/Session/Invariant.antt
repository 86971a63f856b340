-- ===== src/Conn/Loop/Session/Invariant.antt =====
-- connection.go: in a session every invariant of the channels is kept.
use goesl.Base.{
  ℕ, zero, suc, ◌≡◌, refl, Bool, true, false, List, [], ◌∷◌, Option, none, some, Bytes,
  if◌then◌else◌,
}
use goesl.Base.Outcome.{Outcome, done, panic}
use goesl.Errors.{CtxErr, ctx}
use goesl.Event.{Event}
use goesl.Base.Int.{ℤ}
use goesl.Options.{Opt, new_options}
use goesl.Conn.{M, Conn, then_run, close, Socket, DialResult}
use goesl.Conn.Dial.{succeeded, reset, new_conn, dial}
use goesl.Conn.Dial.Channels.{reset-Holds}
use goesl.Conn.Keeps.{After, Channels}
use goesl.Conn.Channels.{close-Holds}
use goesl.Conn.Send.{Pick}
use goesl.Conn.Loop.Closing.Effect.{cut_turn-Keeping}
use goesl.Conn.Loop.Closing.{cut_turn}
use goesl.Conn.Loop.{
  Channel, cmd_replies, api_responses, plain_events, Next, goes_on, redialing, stuck_sending,
  returns, turn, finish,
}
use goesl.Conn.Loop.Invariant.{
  Invariant, Sends, type_of, Inside, Keeping, Holds-Inside, turn-Keeping, finish-Keeping,
  to_cmd_reply-Keeping, to_api_resp-Keeping, to_events-Keeping,
}
use goesl.Conn.Loop.Callback.{Move}
use goesl.Conn.Loop.Callback.Effect.{await-Closed, Keeps-Closed, Inside-Closed, callback-Inside}
use goesl.Conn.Loop.Session.{
  Session, Callback, Loop, reading, dialing, sending, leaving, ended, Choice, turns, cuts, sends,
  leaves, closes, gives_up, calls_back, writes, gets_reply, bind_conn, finished, turn_to_end,
  loop_of, after_turn, send_to, after_send, after_finish, turn_in, send_in, give_up_in, leave_in,
  after_move, move_as, after_close, begin_call, after_write, after_reply, reply_in, step, next_run,
  run, begin, get_callback, all_stopped,
}
use goesl.Conn.Loop.Session.Order.{begin_call-Keeps}

-- An event that the loop has to send has the type of its channel.
abbrev pub Sending : Loop → Type 0
Sending (sending q ev) = ev.type ≡ type_of q
Sending _ = Unit

loop_of-Sending : (n : Next) → Sends n → Sending (loop_of n)
unfolding loop_of
loop_of-Sending goes_on h = tt
loop_of-Sending redialing h = tt
loop_of-Sending (stuck_sending q ev) h = h
loop_of-Sending (returns e) h = tt

module _ (P : Channels → Type 0) (inv : Invariant P) where
  pub record Sound (s : Session) : Type 0 where
    pub inside : Inside P s.conn
    pub sending : Sending s.loop

  unfoldable Soundly : Outcome Session → Type 0
  Soundly (done s) = Sound s
  Soundly (panic e) = Unit

  still : (s : Session) → Sound s → Soundly (done s)
  unfolding Soundly
  still s f = f

  -- Behind a part of the loop.
  moved-Soundly :
      (o : Outcome (Next × Conn)) (f : Next → Conn → Session)
      → ((n : Next) (c : Conn) → ((f n c).conn ≡ c) × ((f n c).loop ≡ loop_of n))
      → Keeping P o
      → Soundly (bind_conn o f)
  unfolding Soundly bind_conn Keeping
  moved-Soundly (done (n, c)) f p (h, q) = record {
    inside = rw (p n c).0 h;
    sending = rw (p n c).1 (loop_of-Sending n q);
  }
  moved-Soundly (panic e) f p h = tt

  -- Behind a step that leaves the loop where it is.
  beside-Soundly :
      {A : Type 0} (s : Session) (o : Outcome (A × Conn)) (f : A → Conn → Session)
      → Sound s
      → ((a : A) (c : Conn) → ((f a c).conn ≡ c) × ((f a c).loop ≡ s.loop))
      → After (Inside P) o
      → Soundly (bind_conn o f)
  unfolding Soundly bind_conn After
  beside-Soundly s (done (a, c)) f d p h = record {
    inside = rw (p a c).0 h;
    sending = rw (p a c).1 (d.sending);
  }
  beside-Soundly s (panic e) f d p h = tt

  finished-Keeping : (o : Outcome (Next × Conn)) → Keeping P o → Keeping P (then_run o finished)
  unfolding Keeping finished
  finished-Keeping (done (goes_on, c)) h = h
  finished-Keeping (done (redialing, c)) h = h
  finished-Keeping (done (stuck_sending q ev, c)) h = h
  finished-Keeping (done (returns e, c)) h = finish-Keeping P e c h.0
  finished-Keeping (panic e) h = tt

  send_to-Keeping :
      (q : Channel) (ev : Event) (c : Conn)
      → ev.type ≡ type_of q
      → Inside P c
      → Keeping P (send_to q ev c)
  unfolding send_to
  send_to-Keeping cmd_replies ev c t f = to_cmd_reply-Keeping P inv ev c t f
  send_to-Keeping api_responses ev c t f = to_api_resp-Keeping P inv ev c t f
  send_to-Keeping plain_events ev c t f = to_events-Keeping P inv ev c t f

  turn_in-Soundly :
      (l : Loop) (m : M Next) (s : Session)
      → ((c : Conn) → Inside P c → Keeping P (m c))
      → Sound s
      → Soundly (turn_in l m s)
  unfolding turn_in turn_to_end after_turn
  turn_in-Soundly reading m s k f =
      moved-Soundly _ (after_turn s) (λ n c. (refl, refl))
        (finished-Keeping (m s.conn) (k s.conn f.inside))
  turn_in-Soundly dialing m s k f = still s f
  turn_in-Soundly (sending q ev) m s k f = still s f
  turn_in-Soundly (leaving e) m s k f = still s f
  turn_in-Soundly (ended e) m s k f = still s f

  send_in-Soundly : (l : Loop) (s : Session) → Sending l → Sound s → Soundly (send_in l s)
  unfolding send_in after_send
  send_in-Soundly (sending q ev) s t f =
      moved-Soundly _ (after_send s) (λ n c. (refl, refl)) (send_to-Keeping q ev s.conn t f.inside)
  send_in-Soundly reading s t f = still s f
  send_in-Soundly dialing s t f = still s f
  send_in-Soundly (leaving e) s t f = still s f
  send_in-Soundly (ended e) s t f = still s f

  gave_up :
      (e : CtxErr) (s : Session)
      → Sound s
      → Soundly (bind_conn (finish (some (ctx e)) s.conn) (after_finish s))
  unfolding after_finish
  gave_up e s f =
      moved-Soundly _ (after_finish s) (λ n c. (refl, refl))
        (finish-Keeping P (some (ctx e)) s.conn f.inside)

  give_up_in-Soundly : (l : Loop) (e : CtxErr) (s : Session) → Sound s → Soundly (give_up_in l e s)
  unfolding give_up_in
  give_up_in-Soundly (sending cmd_replies ev) e s f = gave_up e s f
  give_up_in-Soundly (sending api_responses ev) e s f = gave_up e s f
  give_up_in-Soundly (sending plain_events ev) e s f = still s f
  give_up_in-Soundly reading e s f = still s f
  give_up_in-Soundly dialing e s f = still s f
  give_up_in-Soundly (leaving x) e s f = still s f
  give_up_in-Soundly (ended x) e s f = still s f

  Soundly-if :
      (b : Bool) (s t : Session)
      → Soundly (done s)
      → Soundly (done t)
      → Soundly (done (if b then s else t))
  Soundly-if true s t p q = p
  Soundly-if false s t p q = q

  leave_in-Soundly : (l : Loop) (s : Session) → Sound s → Soundly (done (leave_in l s))
  unfolding leave_in
  leave_in-Soundly (leaving e) s f =
      Soundly-if (all_stopped s.callbacks) (record s { loop = ended e }) s
        (still (record s { loop = ended e }) (record { inside = f.inside; sending = tt }))
        (still s f)
  leave_in-Soundly reading s f = still s f
  leave_in-Soundly dialing s f = still s f
  leave_in-Soundly (sending q ev) s f = still s f
  leave_in-Soundly (ended e) s f = still s f

  move_as-Soundly :
      (b : Option Callback) (i : ℕ) (m : Move) (s : Session) → Sound s → Soundly (move_as b i m s)
  unfolding move_as after_move
  move_as-Soundly none i m s f = still s f
  move_as-Soundly (some b) i m s f =
      beside-Soundly s _ (after_move i s) f (λ r c. (refl, refl))
        (callback-Inside P inv m b.done b.phase s.conn f.inside)

  reply_in-Soundly : (n : ℕ) (pick : Pick) (s : Session) → Sound s → Soundly (reply_in n pick s)
  unfolding reply_in after_reply
  reply_in-Soundly zero pick s f = still s f
  reply_in-Soundly (suc n) pick s f =
      beside-Soundly s _ (after_reply s) f (λ r c. (refl, refl))
        (await-Closed (Inside P) (Inside-Closed P inv) pick s.conn f.inside)

  step-Soundly : (k : Choice) (s : Session) → Sound s → Soundly (step k s)
  unfolding step after_close after_write
  step-Soundly (turns t) s f = turn_in-Soundly s.loop (turn t) s (turn-Keeping P inv t) f
  step-Soundly (cuts t e) s f =
      turn_in-Soundly s.loop (cut_turn t e) s (cut_turn-Keeping P inv t e) f
  step-Soundly sends s f = send_in-Soundly s.loop s f.sending f
  step-Soundly (gives_up e) s f = give_up_in-Soundly s.loop e s f
  step-Soundly leaves s f = leave_in-Soundly s.loop s f
  step-Soundly closes s f =
      beside-Soundly s _ (after_close s) f (λ u c. (refl, refl))
        (Holds-Inside P close close-Holds s.conn f.inside)
  step-Soundly (calls_back i m) s f = move_as-Soundly (get_callback i s.callbacks) i m s f
  step-Soundly (writes by_send b) s f =
      beside-Soundly s _ (after_write s) f (λ u c. (refl, refl))
        (Keeps-Closed (Inside P) (Inside-Closed P inv) (begin_call by_send b)
          (begin_call-Keeps by_send b) s.conn f.inside)
  step-Soundly (gets_reply pick) s f = reply_in-Soundly s.calls pick s f

  next_run-Soundly :
      (o : Outcome Session) (f : Session → Outcome Session)
      → Soundly o
      → ((s : Session) → Sound s → Soundly (f s))
      → Soundly (next_run o f)
  unfolding next_run Soundly
  next_run-Soundly (done s) f h k = k s h
  next_run-Soundly (panic e) f h k = tt

  run-Soundly : (ks : List Choice) (s : Session) → Sound s → Soundly (run ks s)
  unfolding run
  run-Soundly [] s f = still s f
  run-Soundly (k ∷ ks) s f =
      next_run-Soundly (step k s) (run ks) (step-Soundly k s f) (run-Soundly ks)

  -- An invariant that holds of the channels of a connection holds of them behind every run of a session
  -- on it that does not panic.
  pub run-Sound :
      (ks : List Choice) (c : Conn) (s : Session) → Inside P c → run ks (begin c) ≡ done s → Sound s
  run-Sound ks c s f r =
      let kept : Soundly (done s) =
        rw r at (run-Soundly ks (begin c) (record { inside = f; sending = tt })) in
      unfold Soundly in kept

  pub dial-Inside :
      (level : ℤ) (os : List Opt) (password : Bytes) (dummy : Socket) (ds : List DialResult)
      → Inside P (new_conn (new_options level os).opts password dummy ds)
      → After (Inside P) (dial level os password dummy ds)
  unfolding dial
  dial-Inside level os password dummy ds f = Holds-Inside P (reset none) (reset-Holds none) _ f

  -- The same from Dial on.
  pub session-Sound :
      (level : ℤ) (os : List Opt) (password : Bytes) (dummy : Socket) (ds : List DialResult)
      (c : Conn) (ks : List Choice) (s : Session)
      → Inside P (new_conn (new_options level os).opts password dummy ds)
      → dial level os password dummy ds ≡ done (succeeded, c)
      → run ks (begin c) ≡ done s
      → Sound s
  session-Sound level os password dummy ds c ks s f h r =
      let dialed : After (Inside P) (done (succeeded, c)) =
        rw h at (dial-Inside level os password dummy ds f) in
      run-Sound ks c s (unfold After in dialed) r
