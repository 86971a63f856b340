-- ===== src/Conn/Loop/Session/Draining.antt =====
-- connection.go: a session whose callback goroutine takes each event when it has been read.
use goesl.Base.{
  ℕ, zero, suc, ◌≡◌, refl, ap, sym, ◌∙◌, false, List, [], ◌∷◌, ◌++◌, append_assoc, append-nil, map,
  length, All, none, Bytes,
}
use goesl.Base.Outcome.{done}
use goesl.Errors.{NetErr}
use goesl.Event.{Event}
use goesl.Recv.Frames.{Frame, print_frame}
use goesl.Conn.{Conn, then_run}
use goesl.Conn.Dial.Auth.{up}
use goesl.Conn.Loop.{goes_on, to_events, has_room}
use goesl.Conn.Loop.Delivery.{IsPlainEvent, plain_event, print_frames, started, turn-plain}
use goesl.Conn.Loop.Callback.{listening, takes_event, take_event, callback}
use goesl.Conn.Loop.Session.{
  Session, reading, turns, calls_back, bind_conn, turn_in, turn_to_end, finished, after_turn,
  loop_of, note_started, note_canceled, get_callback, set_phase, move_as, after_move, step, run,
}
use goesl.Conn.Loop.Session.Serving.{Deed, reads, takes, choice}
use goesl.Conn.Loop.Session.Greeting.{attended, run-step}

-- For each frame a turn that reads it, and then the callback goroutine.
unfoldable pub drains : ℕ → List Deed
drains zero = []
drains (suc n) = reads none none ∷ takes 0 ∷ drains n

abbrev pub roomy : Conn → Conn
roomy k = record (attended k) { events = [] }

-- A session of a loop that reads and a callback goroutine that waits for events.
abbrev pub session_with : List Event → Conn → Session
session_with es c = record {
  conn = c;
  loop = reading;
  callbacks = record { phase = listening; done = false } ∷ [];
  calls = 0;
  delivered = es;
}

abbrev one_event : Event → Conn → Conn
one_event e k = record (roomy k) { events = e ∷ [] }

sent-up :
    (e : Event) (s : Bytes) (ending : NetErr) (k : Conn)
    → to_events e (up s ending (roomy k)) ≡ done (goes_on, up s ending (one_event e k))
unfolding to_events has_room up
sent-up e s ending k = refl

reads-up :
    (f : Frame) (s : Bytes) (ending : NetErr) (k : Conn) (es : List Event)
    → IsPlainEvent f
    → step (turns (started none none)) (session_with es (up (print_frame f s) ending (roomy k)))
      ≡ done (session_with es (up s ending (one_event (plain_event f) k)))
unfolding step turn_in turn_to_end finished after_turn loop_of note_started note_canceled bind_conn
    up
reads-up f s ending k es h =
    ap
      (λ o.
        bind_conn (then_run o finished)
          (after_turn (session_with es (up (print_frame f s) ending (roomy k)))))
      (turn-plain none none f s ending (roomy k) h refl ∙ sent-up (plain_event f) s ending k)

takes-up :
    (e : Event) (s : Bytes) (ending : NetErr) (k : Conn) (es : List Event)
    → step (calls_back 0 takes_event) (session_with es (up s ending (one_event e k)))
      ≡ done (session_with (es ++ e ∷ []) (up s ending (roomy k)))
unfolding step move_as after_move callback take_event bind_conn get_callback set_phase up
takes-up e s ending k es = refl

-- It is called with each event.
pub run-drains :
    (fs : List Frame) (rest : Bytes) (ending : NetErr) (k : Conn) (es : List Event)
    → All IsPlainEvent fs
    → run
        (map choice (drains (length fs)))
        (session_with es (up (print_frames fs rest) ending (roomy k)))
      ≡ done (session_with (es ++ map plain_event fs) (up rest ending (roomy k)))
unfolding drains print_frames
run-drains [] rest ending k es h =
    unfold run in ap (λ l. done (session_with l (up rest ending (roomy k)))) (sym (append-nil es))
run-drains (f ∷ fs) rest ending k es (hf, h) =
    run-step _ _ _ _ _ (reads-up f (print_frames fs rest) ending k es hf) (
      run-step _ _ _ _ _ (takes-up (plain_event f) (print_frames fs rest) ending k es) (
        run-drains fs rest ending k (es ++ plain_event f ∷ []) h
        ∙ ap (λ l. done (session_with l (up rest ending (roomy k))))
            (append_assoc es (plain_event f ∷ []) (map plain_event fs))))
