-- ===== src/Conn/Loop/Session/Silence.antt =====
-- connection.go: a session in which HandleEvents has returned and the callback goroutines have.
use goesl.Conn.Loop.{turn}
use goesl.Base.{
  left_true, right_true, ℕ, zero, suc, ◌≡◌, refl, ap, sym, ◌∙◌, Bool, true, false, Bool-cases, inl,
  inr, List, [], ◌∷◌, append-nil, Option, none, some, ◌==◌,
}
use goesl.Base.Outcome.{Outcome, done, panic}
use goesl.Errors.{Err}
use goesl.Event.{Event}
use goesl.Conn.{Conn}
use goesl.Conn.Send.{Pick}
use goesl.Conn.Loop.Closing.{cut_turn}
use goesl.Conn.Loop.Callback.{
  Phase, starting, awaiting, greeting, listening, stopped, Move, asks, gets, greets, takes_event,
  stops, callback,
}
use goesl.Conn.Loop.Session.{
  Session, Callback, ended, Choice, turns, cuts, sends, leaves, closes, gives_up, calls_back,
  writes, gets_reply, has_stopped, cancel_newest, note_canceled, bind_conn, turn_in, send_in,
  give_up_in, leave_in, set_phase, after_move, move_as, after_close, after_write, after_reply,
  reply_in, step, next_run, run, get_callback, all_stopped,
}

-- HandleEvents has returned `e`, no callback goroutine goes on, and OnEvent was called with these.
pub record Silent (e : Option Err) (es : List Event) (s : Session) : Type 0 where
  pub loop : s.loop ≡ ended e
  pub stopped : all_stopped s.callbacks ≡ true
  pub delivered : s.delivered ≡ es

has_stopped-stopped : (p : Phase) → has_stopped p ≡ true → p ≡ stopped
unfolding has_stopped
has_stopped-stopped stopped h = refl
has_stopped-stopped starting h = cc
has_stopped-stopped awaiting h = cc
has_stopped-stopped greeting h = cc
has_stopped-stopped listening h = cc

callback-stopped :
    (m : Move) (b : Bool) (c : Conn) → callback m b stopped c ≡ done ((stopped, []), c)
unfolding callback
callback-stopped asks b c = refl
callback-stopped (gets pick) b c = refl
callback-stopped greets b c = refl
callback-stopped takes_event b c = refl
callback-stopped stops true c = refl
callback-stopped stops false c = refl

cancel_newest-stopped :
    (bs : List Callback) → all_stopped bs ≡ true → all_stopped (cancel_newest bs) ≡ true
unfolding cancel_newest all_stopped
cancel_newest-stopped [] h = refl
cancel_newest-stopped (b ∷ bs) h = h

note_canceled-stopped :
    (c c' : Conn) (bs : List Callback)
    → all_stopped bs ≡ true
    → all_stopped (note_canceled c c' bs) ≡ true
unfolding note_canceled
note_canceled-stopped c c' bs h = elim (Bool-cases (c'.canceled == c.canceled)) [
  | inl same ↦ rw same h
  | inr new ↦ rw new (cancel_newest-stopped bs h)
]

set_phase-stopped :
    (i : ℕ) (bs : List Callback)
    → all_stopped bs ≡ true
    → all_stopped (set_phase i stopped bs) ≡ true
unfolding set_phase all_stopped has_stopped
set_phase-stopped i [] h = refl
set_phase-stopped zero (b ∷ bs) h = right_true (has_stopped b.phase) (all_stopped bs) h
set_phase-stopped (suc i) (b ∷ bs) h =
    rw (left_true (has_stopped b.phase) (all_stopped bs) h)
      (set_phase-stopped i bs (right_true (has_stopped b.phase) (all_stopped bs) h))

get_callback-stopped :
    (i : ℕ) (bs : List Callback) (b : Callback)
    → all_stopped bs ≡ true
    → get_callback i bs ≡ some b
    → b.phase ≡ stopped
unfolding get_callback all_stopped
get_callback-stopped i [] b h g = cc
get_callback-stopped zero (x ∷ bs) b h g =
    let same : x ≡ b = cc in
    ap (λ y. y.phase) (sym same)
    ∙ has_stopped-stopped x.phase (left_true (has_stopped x.phase) (all_stopped bs) h)
get_callback-stopped (suc i) (x ∷ bs) b h g =
    get_callback-stopped i bs b (right_true (has_stopped x.phase) (all_stopped bs) h) g

unfoldable pub Silently : Option Err → List Event → Outcome Session → Type 0
Silently e es (done s) = Silent e es s
Silently e es (panic p) = Unit

module _ (e : Option Err) (es : List Event) where
  bind_conn-Silently :
      {A : Type 0} (o : Outcome (A × Conn)) (f : A → Conn → Session)
      → ((a : A) (c : Conn) → Silent e es (f a c))
      → Silently e es (bind_conn o f)
  unfolding Silently bind_conn
  bind_conn-Silently (done (a, c)) f h = h a c
  bind_conn-Silently (panic p) f h = tt

  still : (s : Session) → Silent e es s → Silently e es (done s)
  unfolding Silently
  still s h = h

  move_as-Silently :
      (b : Option Callback) (i : ℕ) (m : Move) (s : Session)
      → Silent e es s
      → get_callback i s.callbacks ≡ b
      → Silently e es (move_as b i m s)
  unfolding move_as
  move_as-Silently none i m s h g = still s h
  move_as-Silently (some b) i m s h g =
      let moved : callback m b.done b.phase s.conn ≡ done ((stopped, []), s.conn) =
        ap (λ p. callback m b.done p s.conn) (get_callback-stopped i s.callbacks b h.stopped g)
        ∙ callback-stopped m b.done s.conn in
      rw moved (
        unfold Silently bind_conn after_move in
        record {
          loop = h.loop;
          stopped = set_phase-stopped i s.callbacks h.stopped;
          delivered = append-nil s.delivered ∙ h.delivered;
        })

  reply_in-Silently :
      (n : ℕ) (pick : Pick) (s : Session) → Silent e es s → Silently e es (reply_in n pick s)
  unfolding reply_in after_reply
  reply_in-Silently zero pick s h = still s h
  reply_in-Silently (suc n) pick s h =
      bind_conn-Silently _ (after_reply s)
        (λ r c. record { loop = h.loop; stopped = h.stopped; delivered = h.delivered })

  unchanged : (s : Session) (o : Outcome Session) → Silent e es s → o ≡ done s → Silently e es o
  unchanged s o h p = rw p (still s h)

  pub step-Silently : (k : Choice) (s : Session) → Silent e es s → Silently e es (step k s)
  unfolding step turn_in send_in give_up_in leave_in after_close after_write
  step-Silently (turns t) s h = unchanged s _ h (ap (λ l. turn_in l (turn t) s) h.loop)
  step-Silently (cuts t x) s h = unchanged s _ h (ap (λ l. turn_in l (cut_turn t x) s) h.loop)
  step-Silently sends s h = unchanged s _ h (ap (λ l. send_in l s) h.loop)
  step-Silently (gives_up x) s h = unchanged s _ h (ap (λ l. give_up_in l x s) h.loop)
  step-Silently leaves s h = unchanged s _ h (ap (λ l. done (leave_in l s)) h.loop)
  step-Silently closes s h = bind_conn-Silently _ (after_close s) (λ u c. record {
    loop = h.loop;
    stopped = note_canceled-stopped s.conn c s.callbacks h.stopped;
    delivered = h.delivered;
  })
  step-Silently (calls_back i m) s h = move_as-Silently (get_callback i s.callbacks) i m s h refl
  step-Silently (writes by_send b) s h =
      bind_conn-Silently _ (after_write s)
        (λ r c. record { loop = h.loop; stopped = h.stopped; delivered = h.delivered })
  step-Silently (gets_reply pick) s h = reply_in-Silently s.calls pick s h

  next_run-Silently :
      (o : Outcome Session) (f : Session → Outcome Session)
      → Silently e es o
      → ((s : Session) → Silent e es s → Silently e es (f s))
      → Silently e es (next_run o f)
  unfolding next_run Silently
  next_run-Silently (done s) f h k = k s h
  next_run-Silently (panic p) f h k = tt

  pub run-Silently : (ks : List Choice) (s : Session) → Silent e es s → Silently e es (run ks s)
  unfolding run
  run-Silently [] s h = still s h
  run-Silently (k ∷ ks) s h =
      next_run-Silently (step k s) (run ks) (step-Silently k s h) (run-Silently ks)
