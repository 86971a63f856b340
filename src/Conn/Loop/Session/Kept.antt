-- ===== src/Conn/Loop/Session/Kept.antt =====
-- connection.go: the plain events behind a Close, and the end of HandleEvents and the callback goroutine.
use goesl.Conn.Loop.Session.Departing.{Departing, Departs, done_at, step-Departs, run-Departs}
use goesl.Base.{sym, ◌≡◌, refl, ap, ◌∙◌, List, [], ◌∷◌, ◌++◌, append-nil, Option, inl, inr}
use goesl.Base.Outcome.{Outcome, done, panic}
use goesl.Errors.{Err}
use goesl.Event.{Event}
use goesl.Conn.Loop.Effect.{arrivals}
use goesl.Conn.Loop.Callback.{stopped, stops, callback}
use goesl.Conn.Loop.Session.{
  Session, Choice, turns, sends, closes, gives_up, writes, gets_reply, ended, cuts, leaves,
  calls_back, bind_conn, get_callback, set_phase, move_as, after_move, leave_in, all_stopped,
  has_stopped, step, next_run, run,
}
use goesl.Conn.Loop.Session.Pipe.{arriving, arriving_in, pipe, unsent_of}
use goesl.Conn.Loop.Session.Order.{arrived, arrived_from, run_in_order}

module _ (x : Option Err) where
  arriving-nil : (k : Choice) (s : Session) → Departing x s → arriving k s ≡ []
  arriving-nil (turns t) s h = elim h.loop [
    | inl l ↦ ap (λ l. arriving_in l (arrivals t s.conn)) l
    | inr l ↦ ap (λ l. arriving_in l (arrivals t s.conn)) l
  ]
  arriving-nil (cuts t e) s h = refl
  arriving-nil sends s h = refl
  arriving-nil leaves s h = refl
  arriving-nil closes s h = refl
  arriving-nil (gives_up e) s h = refl
  arriving-nil (calls_back i m) s h = refl
  arriving-nil (writes by_send b) s h = refl
  arriving-nil (gets_reply pick) s h = refl

  arrived_from-nil :
      (o : Outcome Session) (f : Session → List Event)
      → Departs x o
      → ((s : Session) → Departing x s → f s ≡ [])
      → arrived_from o f ≡ []
  unfolding arrived_from Departs
  arrived_from-nil (done s) f h k = k s h
  arrived_from-nil (panic p) f h k = refl

  arrived-nil : (ks : List Choice) (s : Session) → Departing x s → arrived ks s ≡ []
  unfolding arrived
  arrived-nil [] s h = refl
  arrived-nil (k ∷ ks) s h =
      ap (λ es. es ++ arrived_from (step k s) (arrived ks)) (arriving-nil k s h)
      ∙ arrived_from-nil (step k s) (arrived ks) (step-Departs x k s h) (arrived-nil ks)

  waiting-Departing : (s : Session) → Departing x s → (pipe s).waiting ≡ s.conn.events
  waiting-Departing s h = elim h.loop [
    | inl l ↦ ap (λ l. s.conn.events ++ unsent_of l) l ∙ append-nil s.conn.events
    | inr l ↦ ap (λ l. s.conn.events ++ unsent_of l) l ∙ append-nil s.conn.events
  ]

  -- Whatever a departing session does, its events stay in order and none comes to them.
  pub kept_by :
      (ks : List Choice) (s s' : Session)
      → Departing x s
      → run ks s ≡ done s'
      → Departing x s' × (s'.delivered ++ s'.conn.events ≡ s.delivered ++ s.conn.events)
  kept_by ks s s' h r =
      let d : Departs x (done s') = rw r at (run-Departs x ks s h) in
      let h' : Departing x s' = unfold Departs in d in
      (
        h',
        ap (λ es. s'.delivered ++ es) (sym (waiting-Departing s' h'))
            ∙ run_in_order ks s s' r
            ∙ ap (λ es. (s.delivered ++ (pipe s).waiting) ++ es) (arrived-nil ks s h)
            ∙ append-nil (s.delivered ++ (pipe s).waiting)
            ∙ ap (λ es. s.delivered ++ es) (waiting-Departing s h),
      )

  -- The session where both have ended.
  abbrev pub gone : Session → Session
  gone s = record s {
    loop = ended x;
    callbacks = done_at stopped ∷ [];
    delivered = s.delivered ++ [];
  }

  pub ends :
      (s : Session) → Departing x s → run (calls_back 0 stops ∷ leaves ∷ []) s ≡ done (gone s)
  unfolding run next_run step move_as after_move callback bind_conn get_callback set_phase leave_in
      all_stopped has_stopped
  ends s h = elim h.loop [
    | inl l ↦ elim h.one [ inl g ↦ rw (l, g) refl | inr g ↦ rw (l, g) refl ]
    | inr l ↦ elim h.one [ inl g ↦ rw (l, g) refl | inr g ↦ rw (l, g) refl ]
  ]
