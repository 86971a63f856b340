-- ===== src/Conn/Loop/Session/Departing.antt =====
-- connection.go: HandleEvents behind a Close, and its callback goroutine.
use goesl.Base.{
  zero, suc, ℕ, ◌≡◌, refl, ap, ◌∙◌, Bool, true, false, List, [], ◌∷◌, Option, ◌==◌, if◌then◌else◌,
  Bool-cases, inl, inr, ◌⊎◌,
}
use goesl.Base.Outcome.{Outcome, done, panic}
use goesl.Errors.{Err}
use goesl.Event.{Event}
use goesl.Conn.{Conn}
use goesl.Conn.Send.{Pick}
use goesl.Conn.Loop.{turn}
use goesl.Conn.Loop.Closing.{cut_turn}
use goesl.Conn.Loop.Callback.{
  Phase, Move, asks, greets, gets, listening, stopped, stops, takes_event, take_event, callback,
}
use goesl.Conn.Loop.Session.{
  Session, Callback, Choice, turns, sends, closes, gives_up, writes, gets_reply, send_in,
  give_up_in, after_close, after_write, after_reply, reply_in, Loop, leaving, ended, cuts, leaves,
  calls_back, bind_conn, turn_in, note_canceled, cancel_newest, get_callback, set_phase, move_as,
  after_move, leave_in, all_stopped, step, next_run, run,
}

-- HandleEvents is in its last wait, or has returned `x`; the one callback goroutine, whose context is
-- done, is in its loop or has stopped.
abbrev pub done_at : Phase → Callback
done_at p = record { phase = p; done = true }

pub record Departing (x : Option Err) (s : Session) : Type 0 where
  pub loop : (s.loop ≡ leaving x) ⊎ (s.loop ≡ ended x)
  pub one : (s.callbacks ≡ done_at listening ∷ []) ⊎ (s.callbacks ≡ done_at stopped ∷ [])

unfoldable pub Departs : Option Err → Outcome Session → Type 0
Departs x (done s) = Departing x s
Departs x (panic p) = Unit

cancel_newest-done_at :
    (p : Phase) (bs : List Callback) → bs ≡ done_at p ∷ [] → cancel_newest bs ≡ done_at p ∷ []
unfolding cancel_newest
cancel_newest-done_at p bs h = rw h refl

note_canceled-done_at :
    (c c' : Conn) (p : Phase) (bs : List Callback)
    → bs ≡ done_at p ∷ []
    → note_canceled c c' bs ≡ done_at p ∷ []
unfolding note_canceled
note_canceled-done_at c c' p bs h = elim (Bool-cases (c'.canceled == c.canceled)) [
  | inl same ↦ rw same h
  | inr new ↦ rw new (cancel_newest-done_at p bs h)
]

-- The phase after a move is that of the loop of a callback goroutine, or its end.
unfoldable Rests : Outcome ((Phase × List Event) × Conn) → Type 0
Rests (done (r, c)) = (r.0 ≡ listening) ⊎ (r.0 ≡ stopped)
Rests (panic p) = Unit

take_event-Rests : (es : List Event) (c : Conn) → Rests (take_event es c)
unfolding take_event Rests
take_event-Rests [] c = inl refl
take_event-Rests (e ∷ es) c = inl refl

callback-listening : (m : Move) (c : Conn) → Rests (callback m true listening c)
unfolding callback Rests
callback-listening takes_event c = take_event-Rests c.events c
callback-listening stops c = inr refl
callback-listening asks c = inl refl
callback-listening greets c = inl refl
callback-listening (gets pick) c = inl refl

callback-stopped : (m : Move) (c : Conn) → Rests (callback m true stopped c)
unfolding callback Rests
callback-stopped takes_event c = inr refl
callback-stopped stops c = inr refl
callback-stopped asks c = inr refl
callback-stopped greets c = inr refl
callback-stopped (gets pick) c = inr refl

module _ (x : Option Err) where
  departs : (s : Session) → Departing x s → Departs x (done s)
  unfolding Departs
  departs s h = h

  bind_conn-Departs :
      {A : Type 0} (o : Outcome (A × Conn)) (f : A → Conn → Session)
      → ((a : A) (c : Conn) → Departing x (f a c))
      → Departs x (bind_conn o f)
  unfolding Departs bind_conn
  bind_conn-Departs (done (a, c)) f h = h a c
  bind_conn-Departs (panic p) f h = tt

  unchanged : (s : Session) (o : Outcome Session) → Departing x s → o ≡ done s → Departs x o
  unchanged s o h p = rw p (departs s h)

  in_loop :
      (f : Loop → Outcome Session) (s : Session)
      → Departing x s
      → f (leaving x) ≡ done s
      → f (ended x) ≡ done s
      → Departs x (f s.loop)
  in_loop f s h p q = elim h.loop [
    | inl l ↦ unchanged s (f s.loop) h (ap f l ∙ p)
    | inr l ↦ unchanged s (f s.loop) h (ap f l ∙ q)
  ]

  left-Departs :
      (b : Bool) (s : Session)
      → Departing x s
      → Departs x (done (if b then record s { loop = ended x } else s))
  unfolding Departs
  left-Departs true s h = record { loop = inr refl; one = h.one }
  left-Departs false s h = h

  along : (o o' : Outcome Session) → o ≡ o' → Departs x o' → Departs x o
  along o o' p h = rw p h

  leave_in-Departs : (s : Session) → Departing x s → Departs x (done (leave_in s.loop s))
  unfolding leave_in
  leave_in-Departs s h = elim h.loop [
    | inl l ↦
        along _ _ (ap (λ l. done (leave_in l s)) l) (left-Departs (all_stopped s.callbacks) s h)
    | inr l ↦ unchanged s _ h (ap (λ l. done (leave_in l s)) l)
  ]

  moved-Departs :
      (i : ℕ) (s : Session) (o : Outcome ((Phase × List Event) × Conn))
      → Departing x s
      → Rests o
      → ((p : Phase)
          → (p ≡ listening) ⊎ (p ≡ stopped)
          → (set_phase i p s.callbacks ≡ done_at p ∷ []))
      → Departs x (bind_conn o (after_move i s))
  unfolding Departs bind_conn after_move Rests
  moved-Departs i s (done ((p, es), c)) h r f =
      let one = f p r in
      record {
        loop = h.loop;
        one = elim r [
          | inl l ↦ inl (one ∙ ap (λ q. done_at q ∷ []) l)
          | inr l ↦ inr (one ∙ ap (λ q. done_at q ∷ []) l)
        ];
      }
  moved-Departs i s (panic p) h r f = tt

  callback_at :
      (m : Move) (p : Phase) (i : ℕ) (s : Session)
      → Departing x s
      → s.callbacks ≡ done_at p ∷ []
      → ((c : Conn) → Rests (callback m true p c))
      → Departs x (move_as (get_callback i s.callbacks) i m s)
  unfolding move_as get_callback set_phase
  callback_at m p zero s h g l = along _ _ (ap (λ bs. move_as (get_callback zero bs) zero m s) g) (
      moved-Departs zero s (callback m true p s.conn) h (l s.conn)
        (λ q r. ap (λ bs. set_phase zero q bs) g))
  callback_at m p (suc i) s h g l =
      unchanged s _ h (ap (λ bs. move_as (get_callback (suc i) bs) (suc i) m s) g)

  reply_in-Departs :
      (n : ℕ) (pick : Pick) (s : Session) → Departing x s → Departs x (reply_in n pick s)
  unfolding reply_in after_reply
  reply_in-Departs zero pick s h = departs s h
  reply_in-Departs (suc n) pick s h =
      bind_conn-Departs _ (after_reply s) (λ r c. record { loop = h.loop; one = h.one })

  pub step-Departs : (k : Choice) (s : Session) → Departing x s → Departs x (step k s)
  unfolding step turn_in send_in give_up_in after_close after_write
  step-Departs (turns t) s h = in_loop (λ l. turn_in l (turn t) s) s h refl refl
  step-Departs (cuts t e) s h = in_loop (λ l. turn_in l (cut_turn t e) s) s h refl refl
  step-Departs sends s h = in_loop (λ l. send_in l s) s h refl refl
  step-Departs (gives_up e) s h = in_loop (λ l. give_up_in l e s) s h refl refl
  step-Departs leaves s h = leave_in-Departs s h
  step-Departs closes s h = bind_conn-Departs _ (after_close s) (λ u c. record {
    loop = h.loop;
    one = elim h.one [
      | inl g ↦ inl (note_canceled-done_at s.conn c listening s.callbacks g)
      | inr g ↦ inr (note_canceled-done_at s.conn c stopped s.callbacks g)
    ];
  })
  step-Departs (calls_back i m) s h = elim h.one [
    | inl g ↦ callback_at m listening i s h g (callback-listening m)
    | inr g ↦ callback_at m stopped i s h g (callback-stopped m)
  ]
  step-Departs (writes by_send b) s h =
      bind_conn-Departs _ (after_write s) (λ r c. record { loop = h.loop; one = h.one })
  step-Departs (gets_reply pick) s h = reply_in-Departs s.calls pick s h

  next_run-Departs :
      (o : Outcome Session) (f : Session → Outcome Session)
      → Departs x o
      → ((s : Session) → Departing x s → Departs x (f s))
      → Departs x (next_run o f)
  unfolding next_run Departs
  next_run-Departs (done s) f h k = k s h
  next_run-Departs (panic p) f h k = tt

  pub run-Departs : (ks : List Choice) (s : Session) → Departing x s → Departs x (run ks s)
  unfolding run
  run-Departs [] s h = departs s h
  run-Departs (k ∷ ks) s h =
      next_run-Departs (step k s) (run ks) (step-Departs k s h) (run-Departs ks)
