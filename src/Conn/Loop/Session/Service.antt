-- ===== src/Conn/Loop/Session/Service.antt =====
-- connection.go: a session with a server that prints plain events, from its frames to OnEvent.
use goesl.Base.{
  ℕ, ◌+◌, ◌≤◌, ◌≡◌, refl, ap, sym, ◌∙◌, inl, inr, Bool, true, List, [], ◌∷◌, ◌++◌, append_assoc,
  append-nil, map, length, All, arith, Option, none, some, Bytes,
}
use goesl.Base.Outcome.{done}
use goesl.Errors.{NetErr}
use goesl.Event.{Event}
use goesl.Recv.Frames.{Frame}
use goesl.Conn.Dial.Auth.{up}
use goesl.Conn.Loop.{turn}
use goesl.Conn.Loop.Delivery.{IsPlainEvent, plain_event, print_frames, started}
use goesl.Conn.Loop.Callback.{
  Phase, starting, awaiting, greeting, listening, stopped, takes_event, take_event, callback,
}
use goesl.Conn.Loop.Session.{
  Session, Callback, reading, bind_conn, turn_in, send_in, after_move, move_as, get_callback, step,
  next_run, run,
}
use goesl.Conn.Loop.Session.Pipe.{unsent_of}
use goesl.Conn.Loop.Session.Serving.{
  Deed, reads, goes_on_sending, takes, choice, cost, reads_of, queue, Serving, Serves, Served,
  unchanged, send-Served, turn-Served,
}

module _ (rest : Bytes) (ending : NetErr) (all : List Event) where
  take-Served :
      (q : List Event) (i : ℕ) (gs : List Frame) (s : Session)
      → Serves rest ending all gs s
      → s.conn.events ≡ q
      → Served rest ending all 0 gs (bind_conn (take_event q s.conn) (after_move i s))
  unfolding take_event bind_conn after_move
  take-Served [] i gs s h e = (
    after_move i s (listening, []) s.conn,
    gs,
    refl,
    record {
      are_plain = h.are_plain;
      is_up = h.is_up;
      connected = h.connected;
      loop = h.loop;
      order =
          ap (λ v. v ++ (s.conn.events ++ (unsent_of s.loop ++ map plain_event gs)))
            (append-nil s.delivered)
          ∙ h.order;
    },
    omega arith,
  )
  take-Served (x ∷ q) i gs s h e = (
    after_move i s (listening, x ∷ []) (queue q s.conn),
    gs,
    refl,
    record {
      are_plain = h.are_plain;
      is_up = unfold up in ap (queue q) h.is_up;
      connected = h.connected;
      loop = h.loop;
      order =
          append_assoc s.delivered (x ∷ []) (q ++ (unsent_of s.loop ++ map plain_event gs))
          ∙ ap (λ v. s.delivered ++ (v ++ (unsent_of s.loop ++ map plain_event gs))) (sym e)
          ∙ h.order;
    },
    omega arith,
  )

  nothing_taken :
      (p : Phase) (i : ℕ) (gs : List Frame) (s : Session)
      → Serves rest ending all gs s
      → Served rest ending all 0 gs (bind_conn (done ((p, []), s.conn)) (after_move i s))
  unfolding bind_conn after_move
  nothing_taken p i gs s h = (
    after_move i s (p, []) s.conn,
    gs,
    refl,
    record {
      are_plain = h.are_plain;
      is_up = h.is_up;
      connected = h.connected;
      loop = h.loop;
      order =
          ap (λ v. v ++ (s.conn.events ++ (unsent_of s.loop ++ map plain_event gs)))
            (append-nil s.delivered)
          ∙ h.order;
    },
    omega arith,
  )

  callback-Served :
      (b : Bool) (p : Phase) (i : ℕ) (gs : List Frame) (s : Session)
      → Serves rest ending all gs s
      → Served rest ending all 0 gs (bind_conn (callback takes_event b p s.conn) (after_move i s))
  unfolding callback
  callback-Served b listening i gs s h = take-Served s.conn.events i gs s h refl
  callback-Served b starting i gs s h = nothing_taken starting i gs s h
  callback-Served b awaiting i gs s h = nothing_taken awaiting i gs s h
  callback-Served b greeting i gs s h = nothing_taken greeting i gs s h
  callback-Served b stopped i gs s h = nothing_taken stopped i gs s h

  move_as-Served :
      (b : Option Callback) (i : ℕ) (gs : List Frame) (s : Session)
      → Serves rest ending all gs s
      → Served rest ending all 0 gs (move_as b i takes_event s)
  unfolding move_as
  move_as-Served none i gs s h = unchanged rest ending all 0 gs s _ h refl
  move_as-Served (some b) i gs s h = callback-Served b.done b.phase i gs s h

  step-Served :
      (d : Deed) (gs : List Frame) (s : Session)
      → Serves rest ending all gs s
      → cost d ≤ length gs
      → Served rest ending all (cost d) gs (step (choice d) s)
  unfolding step
  step-Served (takes i) gs s h l = move_as-Served (get_callback i s.callbacks) i gs s h
  step-Served goes_on_sending gs s h l = elim h.loop [
    | inl r ↦ unchanged rest ending all 0 gs s _ h (unfold send_in in ap (λ m. send_in m s) r)
    | inr (ev, r) ↦ send-Served rest ending all ev gs s h r
  ]
  step-Served (reads a b) [] s h l = elim h.loop [
    | inl r ↦ absurd (omega arith)
    | inr r ↦ absurd (omega arith)
  ]
  step-Served (reads a b) (f ∷ gs) s h l = elim h.loop [
    | inl r ↦ turn-Served rest ending all a b f gs s h r
    | inr (ev, r) ↦
        unchanged rest ending all 1 (f ∷ gs) s _ h
          (unfold turn_in in ap (λ m. turn_in m (turn (started a b)) s) r)
  ]

  run-Served :
      (ds : List Deed) (gs : List Frame) (s : Session)
      → Serves rest ending all gs s
      → reads_of ds ≤ length gs
      → (s' : Session) × (gs' : List Frame) × (run (map choice ds) s ≡ done s')
        × Serves rest ending all gs' s'
        × (length gs ≤ reads_of ds + length gs')
  unfolding run reads_of next_run
  run-Served [] gs s h l = (s, gs, refl, h, omega arith)
  run-Served (d ∷ ds) gs s h l =
      let (s1, gs1, e, g, m) = step-Served d gs s h (omega arith) in
      let (s', gs', r, k, q) = run-Served ds gs1 s1 g (omega arith) in
      (s', gs', ap (λ o. next_run o (run (map choice ds))) e ∙ r, k, omega arith)

-- On a connection that is up, with calls on the socket that succeed, whose loop reads and whose server
-- prints frames with plain events: turns in which the context is not done at the top, not more of them
-- than there are frames, sends that had to wait, and callback goroutines that take events, in any order,
-- do not panic. Frames are then still to be read, by not more than those turns fewer; and the events that
-- OnEvent was called with, those in the channel, the one that the loop has to send, if it has one, and
-- those of the frames still to be read are, in this order, the ones that OnEvent had been called with,
-- that were in the channel, and those of all the frames.
pub run-served :
    (ds : List Deed) (fs : List Frame) (rest : Bytes) (ending : NetErr) (s : Session)
    → All IsPlainEvent fs
    → s.conn ≡ up (print_frames fs rest) ending s.conn
    → s.conn.connected ≡ true
    → s.loop ≡ reading
    → reads_of ds ≤ length fs
    → (s' : Session) × (unread : List Frame) × (run (map choice ds) s ≡ done s')
      × (s'.conn ≡ up (print_frames unread rest) ending s'.conn)
      × (length fs ≤ reads_of ds + length unread)
      × (s'.delivered ++ (s'.conn.events ++ (unsent_of s'.loop ++ map plain_event unread))
          ≡ s.delivered ++ (s.conn.events ++ map plain_event fs))
run-served ds fs rest ending s p u on l n =
    let all = s.delivered ++ (s.conn.events ++ map plain_event fs) in
    let start : Serving rest ending all fs s.conn s.loop s.delivered = record {
      are_plain = p;
      is_up = u;
      connected = on;
      loop = inl l;
      order = ap (λ m. s.delivered ++ (s.conn.events ++ (unsent_of m ++ map plain_event fs))) l;
    } in
    let (s', gs', r, h, m) = run-Served rest ending all ds fs s start n in
    (s', gs', r, h.is_up, m, h.order)
