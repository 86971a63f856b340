-- ===== src/Tests/Sessions.antt =====
-- Runs of sessions: HandleEvents, a callback goroutine, and Close.
use goesl.Base.{
  ◌⊎◌, ◌+◌, ◌≤◌, length, none, arith, ◌≡◌, refl, false, true, List, [], ◌∷◌, ◌++◌, codes, some,
  same, map,
}
use goesl.Base.Int.{pos}
use goesl.Base.Outcome.{Outcome, done, panic}
use goesl.Text.{has_prefix, contains_byte}
use goesl.Text.Number.{atoi}
use goesl.Options.{new_options, apply_one}
use goesl.Errors.{
  message, eof, canceled, ctx, net, deadline_exceeded, conn_lost, closed_or_canceled,
}
use goesl.Mime.{
  canonical, read_mime_header, starts_blank, header_get, values, add, all_token, token_byte, trim,
  chomp, cut_colon,
}
use goesl.Mime.Frame.{print_fields, field_text, add_fields}
use goesl.Event.{get, mime_get, parse_text_body}
use goesl.Recv.{recv_event, dispatch, recv_body}
use goesl.Recv.Frames.{Frame, print_frame}
use goesl.Conn.{
  Conn, Socket, opened, recv, set_deadline, write, shut_socket, cancel_callback, close,
}
use goesl.Conn.Dial.{Reset, succeeded, pending, auth, reset, dial_times, dial}
use goesl.Conn.Loop.{turn}
use goesl.Conn.Loop.Closing.{cut_turn}
use goesl.Conn.Loop.Delivery.{quiet, started, plain_event, print_frames}
use goesl.Conn.Loop.Session.Deadlock.{Deadlocked, never_closes, run-Deadlocked}
use goesl.Conn.Dial.Auth.{up}
use goesl.Conn.Send.{from_cmd_reply, await}
use goesl.Conn.Loop.Callback.{
  listening, gets, got, answered_phase, asks, greets, takes_event, stops, callback,
}
use goesl.Conn.Loop.Session.{
  Session, Choice, reading, leaving, ended, all_stopped, cuts, turns, sends, gives_up, leaves,
  closes, calls_back, step, run, begin,
}
use goesl.Conn.Loop.Session.Pipe.{PipeStep, unsent_of, pipe, arriving}
use goesl.Conn.Loop.Session.Order.{step-PipeStep, arrived, run_in_order}
use goesl.Conn.Loop.Session.Typing.{WellTyped, run-WellTyped}
use goesl.Conn.Loop.Session.Shutdown.{attended_by, open_conn, run-shuts_down}
use goesl.Conn.Loop.Session.Silence.{Silent}
use goesl.Conn.Loop.Session.Ending.{run-Silent}
use goesl.Conn.Loop.Session.Serving.{Deed, reads, goes_on_sending, takes, choice, reads_of}
use goesl.Conn.Loop.Session.Service.{run-served}
use goesl.Tests.Conns.{socket_of, request, welcome, result_of}
use goesl.Tests.Loop.{lettered-IsPlainEvent, lettered, crowded, at_work}

-- A server that accepts the password and sends two events.
abbrev serving : Socket
serving =
    socket_of
      (print_frame request (print_frame welcome (print_frame lettered (print_frame lettered []))))

abbrev made : Reset × Conn
made = result_of pending (dial (pos 0) [] (codes "ClueCon") (socket_of []) (opened serving ∷ []))

abbrev session_of : Outcome Session → Session
session_of (done s) = s
session_of (panic p) = begin made.1

abbrev one_each : List Choice
one_each =
    turns quiet
    ∷ calls_back 0 asks
    ∷ calls_back 0 greets
    ∷ calls_back 0 takes_event
    ∷ turns quiet
    ∷ []

abbrev halfway : Session
halfway = session_of (run one_each (begin made.1))

made-succeeded : made.0 ≡ succeeded
unfolding dial dial_times auth recv recv_event recv_body dispatch set_deadline write shut_socket
    close new_options read_mime_header starts_blank print_frame print_fields field_text get mime_get
    header_get canonical values add all_token token_byte contains_byte same trim has_prefix reset
    apply_one chomp cut_colon
made-succeeded = refl

abbrev first_read : Session
first_read = session_of (step (turns quiet) (begin made.1))

step-PipeStep_example :
    PipeStep (pipe (begin made.1)) (arriving (turns quiet) (begin made.1)) (pipe first_read)
unfolding dial dial_times auth recv recv_event recv_body dispatch set_deadline write shut_socket
    close new_options read_mime_header starts_blank print_frame print_fields field_text get mime_get
    header_get canonical values add all_token token_byte contains_byte same trim has_prefix reset
    apply_one chomp cut_colon run step turn callback parse_text_body atoi
step-PipeStep_example = step-PipeStep (turns quiet) (begin made.1) first_read refl

run_in_order_example :
    halfway.delivered ++ (pipe halfway).waiting
    ≡ ([] ++ (pipe (begin made.1)).waiting) ++ arrived one_each (begin made.1)
unfolding dial dial_times auth recv recv_event recv_body dispatch set_deadline write shut_socket
    close new_options read_mime_header starts_blank print_frame print_fields field_text get mime_get
    header_get canonical values add all_token token_byte contains_byte same trim has_prefix reset
    apply_one chomp cut_colon run step turn callback parse_text_body atoi
run_in_order_example = run_in_order one_each (begin made.1) halfway refl

run-WellTyped_example : WellTyped halfway
unfolding dial dial_times auth recv recv_event recv_body dispatch set_deadline write shut_socket
    close new_options read_mime_header starts_blank print_frame print_fields field_text get mime_get
    header_get canonical values add all_token token_byte contains_byte same trim has_prefix reset
    apply_one chomp cut_colon run step turn callback parse_text_body atoi
run-WellTyped_example =
    run-WellTyped (pos 0) [] (codes "ClueCon") (socket_of []) (opened serving ∷ []) made.1 one_each
      halfway refl refl

-- One event was handed over.
halfway-delivered : map (λ e. e.raw_body) halfway.delivered ≡ lettered.body ∷ []
unfolding dial dial_times auth recv recv_event recv_body dispatch set_deadline write shut_socket
    close new_options read_mime_header starts_blank print_frame print_fields field_text get mime_get
    header_get canonical values add all_token token_byte contains_byte same trim has_prefix reset
    apply_one chomp cut_colon run step turn callback parse_text_body atoi
halfway-delivered = refl

-- A connection that Close can be called on, with two events in the channel.
abbrev closable : Conn
closable = record crowded { present = true; once = some false; canceler = some false }

abbrev all_through : List Choice
all_through =
    calls_back 0 asks
    ∷ calls_back 0 greets
    ∷ calls_back 0 takes_event
    ∷ closes
    ∷ turns quiet
    ∷ calls_back 0 stops
    ∷ leaves
    ∷ []

abbrev over : Session
over = session_of (run all_through (begin closable))

abbrev afterwards : List Choice
afterwards = calls_back 0 takes_event ∷ closes ∷ turns quiet ∷ []

abbrev much_later : Session
much_later = session_of (run afterwards over)

over-delivered : over.delivered ≡ plain_event lettered ∷ []
unfolding run step turn callback close set_deadline shut_socket
over-delivered = refl

run-Silent_example : Silent (some (message (codes "disconnected"))) over.delivered much_later
unfolding run step turn callback close set_deadline shut_socket
run-Silent_example =
    run-Silent closable all_through afterwards over much_later
      (some (message (codes "disconnected"))) refl refl refl

-- A connection with room for one event, whose server sends two before its reply.
abbrev hasty : Conn
hasty = up (print_frame lettered (print_frame lettered [])) eof (record at_work {
  opts = record at_work.opts { auto_redial = true; send_reply_cap = pos 1 };
  present = true;
})

abbrev both_wait : Session
both_wait = session_of (run (calls_back 0 asks ∷ turns quiet ∷ turns quiet ∷ []) (begin hasty))

abbrev patience : List Choice
patience =
    sends ∷ turns quiet ∷ calls_back 0 (gets from_cmd_reply) ∷ gives_up canceled ∷ leaves ∷ []

abbrev still_waiting : Session
still_waiting = session_of (run patience both_wait)

run-Deadlocked_example : Deadlocked (plain_event lettered) [] still_waiting
unfolding run step turn callback recv recv_event recv_body dispatch set_deadline write
    read_mime_header starts_blank print_frame print_fields field_text get mime_get header_get values
    canonical add all_token token_byte contains_byte same trim chomp cut_colon parse_text_body atoi
    await up got answered_phase never_closes add_fields
run-Deadlocked_example =
    run-Deadlocked (plain_event lettered) [] patience both_wait still_waiting refl
      (record {
        loop = refl;
        callbacks = refl;
        delivered = refl;
        stalled = record { cmd_reply = refl; api_resp = refl; full = refl };
      })
      refl

abbrev attentive : Session
attentive = record (begin hasty) { callbacks = record { phase = listening; done = false } ∷ [] }

abbrev deeds : List Deed
deeds = reads none none ∷ reads none none ∷ takes 0 ∷ goes_on_sending ∷ takes 0 ∷ []

run-served_example :
    (s' : Session) × (unread : List Frame) × (run (map choice deeds) attentive ≡ done s')
    × (s'.conn ≡ up (print_frames unread []) eof s'.conn)
    × (2 ≤ reads_of deeds + length unread)
    × (s'.delivered ++ (s'.conn.events ++ (unsent_of s'.loop ++ map plain_event unread))
        ≡ [] ++ ([] ++ map plain_event (lettered ∷ lettered ∷ [])))
unfolding reads_of print_frames up
run-served_example =
    run-served deeds (lettered ∷ lettered ∷ []) [] eof attentive
      (lettered-IsPlainEvent, (lettered-IsPlainEvent, tt)) refl refl refl (omega arith)

abbrev closing_run : List Choice
closing_run =
    cuts (started none (some canceled)) (net deadline_exceeded) ∷ calls_back 0 takes_event ∷ []

abbrev crowded_session : Session
crowded_session =
    attended_by (record { phase = listening; done = false }) reading (open_conn crowded) 0 []

abbrev after_closing : Session
after_closing = session_of (run closing_run crowded_session)

run-shuts_down_example :
    (s' : Session) × ((after_closing.loop ≡ leaving (some (ctx canceled)))
      ⊎ (after_closing.loop ≡ ended (some (ctx canceled))))
    × (after_closing.delivered ++ after_closing.conn.events ≡ [] ++ crowded.events)
    × (run (calls_back 0 stops ∷ leaves ∷ []) after_closing ≡ done s')
    × (s'.loop ≡ ended (some (ctx canceled)))
    × (all_stopped s'.callbacks ≡ true)
    × (s'.delivered ≡ after_closing.delivered)
unfolding conn_lost run step callback close set_deadline shut_socket cancel_callback cut_turn
    closed_or_canceled
run-shuts_down_example =
    run-shuts_down (started none (some canceled)) (net deadline_exceeded) crowded false 0 []
      (calls_back 0 takes_event ∷ []) after_closing refl refl refl
