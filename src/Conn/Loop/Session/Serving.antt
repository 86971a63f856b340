-- ===== src/Conn/Loop/Session/Serving.antt =====
-- connection.go: a session with a server that prints plain events: its frames, the loop and its channel.
use goesl.Base.{
  ℕ, ◌+◌, ◌≤◌, ◌≡◌, refl, ap, sym, ◌∙◌, ◌⊎◌, inl, inr, true, Bool-cases, List, [], ◌∷◌, ◌++◌,
  append_assoc, map, length, All, arith, Option, Bytes,
}
use goesl.Base.Outcome.{Outcome, done}
use goesl.Errors.{NetErr, CtxErr}
use goesl.Event.{Event}
use goesl.Recv.Frames.{Frame}
use goesl.Conn.{Conn, then_run}
use goesl.Conn.Dial.Auth.{up}
use goesl.Conn.Loop.{plain_events, Next, goes_on, stuck_sending, to_events, has_room, turn}
use goesl.Conn.Loop.Delivery.{IsPlainEvent, plain_event, print_frames, started, turn-plain}
use goesl.Conn.Loop.Callback.{takes_event}
use goesl.Conn.Loop.Session.{
  Session, Loop, reading, sending, Choice, turns, sends, calls_back, bind_conn, finished,
  turn_to_end, loop_of, after_turn, send_to, after_send, turn_in, send_in,
}
use goesl.Conn.Loop.Session.Pipe.{unsent_of}

-- What is done: a turn of the loop, a send that was waiting, a callback goroutine that takes an event.
pub data Deed : Type 0 where
  reads : Option CtxErr → Option CtxErr → Deed
  goes_on_sending : Deed
  takes : ℕ → Deed

abbrev pub choice : Deed → Choice
choice (reads s e) = turns (started s e)
choice goes_on_sending = sends
choice (takes i) = calls_back i takes_event

abbrev pub cost : Deed → ℕ
cost (reads s e) = 1
cost _ = 0

unfoldable pub reads_of : List Deed → ℕ
reads_of [] = 0
reads_of (d ∷ ds) = cost d + reads_of ds

abbrev pub queue : List Event → Conn → Conn
queue es k = record k { events = es }

module _ (rest : Bytes) (ending : NetErr) (all : List Event) where
  -- The connection is up, the frames are still to be read, and with the events of them those that were
  -- handed over or wait are all.
  pub record Serving (gs : List Frame) (c : Conn) (l : Loop) (delivered : List Event) : Type 0 where
    pub are_plain : All IsPlainEvent gs
    pub is_up : c ≡ up (print_frames gs rest) ending c
    pub connected : c.connected ≡ true
    pub loop : (l ≡ reading) ⊎ ((ev : Event) × (l ≡ sending plain_events ev))
    pub order : delivered ++ (c.events ++ (unsent_of l ++ map plain_event gs)) ≡ all

  abbrev pub Serves : List Frame → Session → Type 0
  Serves gs s = Serving gs s.conn s.loop s.delivered

  to_events_cases :
      (ev : Event) (c : Conn)
      → (to_events ev c ≡ done (goes_on, queue (c.events ++ ev ∷ []) c))
        ⊎ (to_events ev c ≡ done (stuck_sending plain_events ev, c))
  unfolding to_events
  to_events_cases ev c = elim (Bool-cases (has_room c.events c)) [
    | inl room ↦ inl (rw room refl)
    | inr full ↦ inr (rw full refl)
  ]

  -- An event that the loop has is sent, or waits for room.
  sent :
      (ev : Event) (gs : List Frame) (c : Conn) (d : List Event)
      → All IsPlainEvent gs
      → c ≡ up (print_frames gs rest) ending c
      → c.connected ≡ true
      → d ++ (c.events ++ (ev ∷ map plain_event gs)) ≡ all
      → (n : Next) × (c' : Conn) × (to_events ev c ≡ done (n, c'))
        × (finished n c' ≡ done (n, c'))
        × Serving gs c' (loop_of n) d
  unfolding loop_of finished up
  sent ev gs c d p u on o = elim (to_events_cases ev c) [
    | inl room ↦ (
      goes_on,
      queue (c.events ++ ev ∷ []) c,
      room,
      refl,
      record {
        are_plain = p;
        is_up = ap (queue (c.events ++ ev ∷ [])) u;
        connected = on;
        loop = inl refl;
        order = ap (λ v. d ++ v) (append_assoc c.events (ev ∷ []) (map plain_event gs)) ∙ o;
      },
    )
    | inr full ↦ (
      stuck_sending plain_events ev,
      c,
      full,
      refl,
      record { are_plain = p; is_up = u; connected = on; loop = inr (ev, refl); order = o },
    )
  ]

  -- What a step leaves: at most `k` frames fewer.
  abbrev pub Served : ℕ → List Frame → Outcome Session → Type 0
  Served k gs o =
      (s' : Session) × (gs' : List Frame) × (o ≡ done s')
      × Serves gs' s'
      × (length gs ≤ k + length gs')

  pub unchanged :
      (k : ℕ) (gs : List Frame) (s : Session) (o : Outcome Session)
      → Serves gs s
      → o ≡ done s
      → Served k gs o
  unchanged k gs s o h e = (s, gs, e, h, omega arith)

  pub send-Served :
      (ev : Event) (gs : List Frame) (s : Session)
      → Serves gs s
      → s.loop ≡ sending plain_events ev
      → Served 0 gs (send_in s.loop s)
  unfolding send_in send_to after_send bind_conn
  send-Served ev gs s h l =
      let o =
        ap (λ m. s.delivered ++ (s.conn.events ++ (unsent_of m ++ map plain_event gs))) (sym l)
        ∙ h.order in
      let (n, c', e, _, g) = sent ev gs s.conn s.delivered h.are_plain h.is_up h.connected o in
      (
        after_send s n c',
        gs,
        ap (λ m. send_in m s) l ∙ ap (λ r. bind_conn r (after_send s)) e,
        g,
        omega arith,
      )

  pub turn-Served :
      (a b : Option CtxErr) (f : Frame) (gs : List Frame) (s : Session)
      → Serves (f ∷ gs) s
      → s.loop ≡ reading
      → Served 1 (f ∷ gs) (turn_in s.loop (turn (started a b)) s)
  unfolding turn_in turn_to_end after_turn bind_conn print_frames
  turn-Served a b f gs s h l =
      let c = up (print_frames gs rest) ending s.conn in
      let o =
        ap (λ m. s.delivered ++ (s.conn.events ++ (unsent_of m ++ map plain_event (f ∷ gs))))
          (sym l)
        ∙ h.order in
      let (n, c', e, fin, g) =
        sent (plain_event f) gs c s.delivered h.are_plain.1 (unfold up in refl)
          (unfold up in h.connected) (unfold up in o) in
      (
        after_turn s n c',
        gs,
        ap (λ m. turn_in m (turn (started a b)) s) l
            ∙ ap (λ r. bind_conn r (after_turn s))
                (ap (λ k. then_run (turn (started a b) k) finished) h.is_up
                  ∙ ap (λ r. then_run r finished)
                      (turn-plain a b f (print_frames gs rest) ending s.conn h.are_plain.0
                          h.connected
                        ∙ e)
                  ∙ fin),
        g,
        omega arith,
      )
