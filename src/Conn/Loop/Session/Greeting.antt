-- ===== src/Conn/Loop/Session/Greeting.antt =====
-- connection.go: the start of a session, up to the loop of eventCallback.
use goesl.Base.{◌≡◌, refl, ap, ◌∙◌, true, false, List, [], ◌∷◌, ◌++◌, Bytes, codes, ℕ}
use goesl.Base.Int.{pos}
use goesl.Base.Outcome.{Outcome, done}
use goesl.Errors.{NetErr}
use goesl.EvName
use goesl.EvName.{heartbeat}
use goesl.Event.{Event}
use goesl.Recv.Frames.{Frame, IsFrame, field, print_frame}
use goesl.Conn.{
  Conn, on_connect, wrote, act, set_deadline, write, write_as, write_out, then_run, pure,
}
use goesl.Conn.Send.{from_cmd_reply, command_text, await}
use goesl.Conn.Send.Ready.{ready, answer_of, reply_result, await_cmd_reply-ready}
use goesl.Conn.Dial.Auth.{up}
use goesl.Conn.Loop.{goes_on, to_cmd_reply, has_room}
use goesl.Conn.Loop.Delivery.{quiet}
use goesl.Conn.Loop.Replies.{turn-reply}
use goesl.Conn.Loop.Callback.{
  Phase, awaiting, greeting, listening, asks, gets, greets, ask, asked, got, answered_phase,
  callback,
}
use goesl.Conn.Loop.Session.{
  Session, Choice, reading, turns, calls_back, writes, gets_reply, bind_conn, turn_in, turn_to_end,
  finished, after_turn, loop_of, note_started, note_canceled, get_callback, set_phase, move_as,
  after_move, begin_call, begin_bytes, begun, after_write, reply_in, after_reply, calls_left, step,
  next_run, run, begin,
}

-- A connection as Dial gives it, with the options that matter here, and nothing in its channel yet.
abbrev pub attended : Conn → Conn
attended k = record k {
  opts = record k.opts { auto_redial = true; send_reply_cap = pos 20 };
  connected = true;
  cmd_reply = [];
  started = 1;
  canceled = 0;
}

-- The subscription of the callback goroutine.
abbrev pub subscription : Bytes
subscription = command_text (codes "event") (codes "plain" ∷ EvName.to_string heartbeat ∷ [])

-- The callback goroutine subscribes, gets its reply, and calls OnConnect, which sends one command and
-- waits for its reply.
abbrev pub greets_with : Bytes → List Choice
greets_with cmd =
    calls_back 0 asks
    ∷ turns quiet
    ∷ calls_back 0 (gets from_cmd_reply)
    ∷ calls_back 0 greets
    ∷ writes true cmd
    ∷ turns quiet
    ∷ gets_reply from_cmd_reply
    ∷ []

abbrev pub greeted : Bytes → Conn → Conn
greeted cmd k = act (wrote cmd) (act on_connect (act (wrote subscription) (attended k)))

pub run-step :
    (k : Choice) (ks : List Choice) (s s' : Session) (o : Outcome Session)
    → step k s ≡ done s'
    → run ks s' ≡ o
    → run (k ∷ ks) s ≡ o
unfolding run next_run
run-step k ks s s' o h e = ap (λ v. next_run v (run ks)) h ∙ e

-- A session of a loop that reads and one callback goroutine, where nothing has been delivered.
abbrev pub session_at : Phase → ℕ → Conn → Session
session_at p n c = record {
  conn = c;
  loop = reading;
  callbacks = record { phase = p; done = false } ∷ [];
  calls = n;
  delivered = [];
}

asks-up :
    (s : Bytes) (ending : NetErr) (k : Conn)
    → step (calls_back 0 asks) (begin (up s ending (attended k)))
      ≡ done (session_at awaiting 0 (up s ending (attended (act (wrote subscription) k))))
unfolding step move_as after_move callback ask asked up set_deadline write write_as write_out
    bind_conn get_callback set_phase command_text
asks-up s ending k = refl

abbrev holding : Event → Conn → Conn
holding e k = record (attended k) { cmd_reply = e ∷ [] }

room-up :
    (e : Event) (s : Bytes) (ending : NetErr) (k : Conn)
    → to_cmd_reply e (up s ending (attended k)) ≡ done (goes_on, up s ending (holding e k))
unfolding to_cmd_reply has_room up
room-up e s ending k = refl

turns-up :
    (p : Phase) (n : ℕ) (g : Frame) (s : Bytes) (ending : NetErr) (k : Conn)
    → IsFrame g
    → field (codes "Content-Type") g ≡ codes "command/reply"
    → (e : Event) × (step (turns quiet) (session_at p n (up (print_frame g s) ending (attended k)))
        ≡ done (session_at p n (up s ending (holding e k))))
unfolding step turn_in turn_to_end finished after_turn loop_of note_started note_canceled bind_conn
    up
turns-up p n g s ending k h t =
    let (e, q) = turn-reply g s ending (attended k) h t refl in
    (
      e,
      ap
          (λ o.
            bind_conn (then_run o finished)
              (after_turn (session_at p n (up (print_frame g s) ending (attended k)))))
          (q ∙ room-up e s ending k),
    )

reply-up :
    (e : Event) (s : Bytes) (ending : NetErr) (k : Conn)
    → await from_cmd_reply (up s ending (holding e k))
      ≡ done (answer_of (reply_result e), up s ending (attended k))
unfolding up ready
reply-up e s ending k = await_cmd_reply-ready e [] k.api_resp (up s ending (attended k))

gets-up :
    (e : Event) (s : Bytes) (ending : NetErr) (k : Conn)
    → step (calls_back 0 (gets from_cmd_reply)) (session_at awaiting 0 (up s ending (holding e k)))
      ≡ done (session_at greeting 0 (up s ending (attended k)))
unfolding step move_as after_move callback got answered_phase bind_conn get_callback set_phase
gets-up e s ending k =
    ap
      (λ o.
        bind_conn (then_run (then_run o (λ r. pure (answered_phase r))) (λ p. pure (p, [])))
          (after_move 0 (session_at awaiting 0 (up s ending (holding e k)))))
      (reply-up e s ending k)

greets-up :
    (s : Bytes) (ending : NetErr) (k : Conn)
    → step (calls_back 0 greets) (session_at greeting 0 (up s ending (attended k)))
      ≡ done (session_at listening 0 (up s ending (attended (act on_connect k))))
unfolding step move_as after_move callback up bind_conn get_callback set_phase
greets-up s ending k = refl

writes-up :
    (cmd s : Bytes) (ending : NetErr) (k : Conn)
    → step (writes true cmd) (session_at listening 0 (up s ending (attended k)))
      ≡ done (session_at listening 1 (up s ending (attended (act (wrote cmd) k))))
unfolding step begin_call begin_bytes begun after_write bind_conn up set_deadline write write_as
    write_out
writes-up cmd s ending k = refl

answered-up :
    (e : Event) (s : Bytes) (ending : NetErr) (k : Conn)
    → step (gets_reply from_cmd_reply) (session_at listening 1 (up s ending (holding e k)))
      ≡ done (session_at listening 0 (up s ending (attended k)))
unfolding step reply_in after_reply calls_left bind_conn
answered-up e s ending k =
    ap (λ o. bind_conn o (after_reply (session_at listening 1 (up s ending (holding e k)))))
      (reply-up e s ending k)

-- Where the server answers both commands, with well-formed replies, they are each answered by its own,
-- and the callback goroutine is then in its loop.
pub run-greets_with :
    (cmd : Bytes) (g h : Frame) (s : Bytes) (ending : NetErr) (k : Conn) (ks : List Choice)
    → IsFrame g
    → IsFrame h
    → field (codes "Content-Type") g ≡ codes "command/reply"
    → field (codes "Content-Type") h ≡ codes "command/reply"
    → run (greets_with cmd ++ ks) (begin (up (print_frame g (print_frame h s)) ending (attended k)))
      ≡ run ks (session_at listening 0 (up s ending (greeted cmd k)))
run-greets_with cmd g h s ending k ks fg fh tg th =
    let k1 = act (wrote subscription) k in
    let k2 = act on_connect k1 in
    let k3 = act (wrote cmd) k2 in
    let (e1, r1) = turns-up awaiting 0 g (print_frame h s) ending k1 fg tg in
    let (e2, r2) = turns-up listening 1 h s ending k3 fh th in
    run-step _ _ _ _ _ (asks-up (print_frame g (print_frame h s)) ending k) (
      run-step _ _ _ _ _ r1 (
        run-step _ _ _ _ _ (gets-up e1 (print_frame h s) ending k1) (
          run-step _ _ _ _ _ (greets-up (print_frame h s) ending k1) (
            run-step _ _ _ _ _ (writes-up cmd (print_frame h s) ending k2)
              (run-step _ _ _ _ _ r2 (run-step _ _ _ _ _ (answered-up e2 s ending k3) refl))))))
