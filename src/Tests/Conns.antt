-- ===== src/Tests/Conns.antt =====
-- Runs of the connection: dialing, the handshake, the replies to commands, and Close.
use goesl.Base.{
  ℕ, suc, ◌≡◌, ◌≤◌, refl, inl, true, false, List, [], ◌∷◌, ◌++◌, Bytes, codes, none, some, arith,
  map, same,
}
use goesl.Base.Int.{pos}
use goesl.Base.Outcome.{Outcome, done, panic}
use goesl.Text.{has_prefix, contains_byte}
use goesl.Text.Query.{hex_value, Stray}
use goesl.Redo.{Strategy, default_redo}
use goesl.Options.{defaults, new_options, apply_one}
use goesl.Errors.{eof, broken_pipe, canceled, ctx, conn_lost}
use goesl.Mime.{
  canonical, read_mime_header, starts_blank, header_get, values, add, all_token, token_byte, trim,
  chomp, cut_colon,
}
use goesl.Mime.Frame.{print_fields, field_text}
use goesl.Event.{Event, MimeMap, get, mime_get, event_api_response, no_headers}
use goesl.Event.Get.{first_field}
use goesl.Recv.{recv_event, dispatch, recv_body}
use goesl.Recv.Frames.{Frame, IsFrame, print_frame}
use goesl.Conn.{
  Conn, Socket, DialResult, failed, opened, dialed, wrote, shut, recv, set_deadline, write,
  shut_socket, close,
}
use goesl.Conn.Send.{ctx_done, from_cmd_reply, answer, send_bytes}
use goesl.Conn.Send.Replies
use goesl.Conn.Send.Replies.{
  reply_to, send_all, send_all-in_order, send_bytes-late_reply, send_bytes-lost,
}
use goesl.Conn.Dial.{
  reached, gave_up, Reset, pending, auth, bad_preamble, reset, dial_times, dial, new_conn,
}
use goesl.Conn.Dial.Auth
use goesl.Conn.Dial.Auth.{verdict, reply_text, auth-print_frame}
use goesl.Conn.Dial.Refusal.{auth-refusal_accepted}
use goesl.Conn.Dial.Preamble.{auth-bad_preamble}
use goesl.Conn.Dial.Failing.{attempts, settled, last_err}
use goesl.Conn.Dial.Retries.{dial_times-gave_up, dial_times-reached}
use goesl.Conn.Dial.Callbacks.{closing, calls, calls-at_most_one}
use goesl.Tests.Fields.{
  type_request, type_request-IsField, type_reply, type_reply-IsField, accepted, accepted-IsField,
  refused, refused-IsField,
}

abbrev pub socket_of : Bytes → Socket
socket_of b = record {
  input = record { bytes = b; ending = eof };
  deadlines = [];
  writes = [];
  stuck = none;
  closed = false;
}

abbrev fresh : Strategy
fresh = default_redo (record { redo_waited = [] })

-- A connection that redials up to `n` times, and what its dials will give.
abbrev redialing : ℕ → List DialResult → Conn
redialing n ds =
    new_conn
      (record defaults { redial_strategy = some fresh; auto_redial = true; max_retries = pos n })
      (codes "ClueCon") (socket_of []) ds

dial_times-gave_up_example :
    (c' : Conn) × (dial_times true
        (redialing 1 (failed eof ∷ failed broken_pipe ∷ opened (socket_of []) ∷ []))
      ≡ done (gave_up (last_err eof (broken_pipe ∷ [])), c'))
    × (c'.log ≡ [] ++ attempts fresh (suc 1))
    × (c'.dials ≡ opened (socket_of []) ∷ [])
    × (c'.present ≡ false)
dial_times-gave_up_example =
    dial_times-gave_up (redialing 1 (failed eof ∷ failed broken_pipe ∷ opened (socket_of []) ∷ []))
      fresh 1 eof (broken_pipe ∷ []) (opened (socket_of []) ∷ []) refl refl refl refl

dial_times-reached_example :
    (c' : Conn) × (dial_times true (redialing 2 (failed eof ∷ opened (socket_of []) ∷ []))
      ≡ done (reached, c'))
    × (c'.opts.redial_strategy ≡ some (settled fresh 1))
    × (c'.log ≡ ([] ++ attempts fresh 1) ++ dialed ∷ [])
    × (c'.sock ≡ socket_of [])
    × (c'.present ≡ true)
    × (c'.dials ≡ [])
dial_times-reached_example =
    dial_times-reached (redialing 2 (failed eof ∷ opened (socket_of []) ∷ [])) fresh (eof ∷ [])
      (socket_of []) [] refl (omega arith) refl

abbrev pub request : Frame
request = record { crlf = false; fields = type_request ∷ []; body = [] }

abbrev pub welcome : Frame
welcome = record { crlf = false; fields = type_reply ∷ accepted ∷ []; body = [] }

request-IsFrame : IsFrame request
unfolding first_field canonical same
request-IsFrame = record {
  are_fields = (type_request-IsField, tt);
  body_fits = omega arith;
  sized = inl (refl, refl);
}

welcome-IsFrame : IsFrame welcome
unfolding first_field canonical same
welcome-IsFrame = record {
  are_fields = (type_reply-IsField, (accepted-IsField, tt));
  body_fits = omega arith;
  sized = inl (refl, refl);
}

auth-print_frame_example :
    auth (Auth.up (print_frame request (print_frame welcome (codes "rest"))) eof (redialing 1 []))
    ≡ done (
      verdict (reply_text welcome),
      Auth.up (codes "rest") eof (record (redialing 1 []) {
        log = wrote (codes "auth " ++ (codes "ClueCon" ++ codes "\r\n\r\n")) ∷ [];
      }),
    )
unfolding first_field canonical same
auth-print_frame_example =
    auth-print_frame (redialing 1 []) request welcome (codes "rest") eof request-IsFrame
      welcome-IsFrame refl refl

abbrev refusal : Frame
refusal = record { crlf = false; fields = type_reply ∷ refused ∷ []; body = [] }

refusal-IsFrame : IsFrame refusal
unfolding first_field canonical same
refusal-IsFrame = record {
  are_fields = (type_reply-IsField, (refused-IsField, tt));
  body_fits = omega arith;
  sized = inl (refl, refl);
}

auth-refusal_accepted_example :
    auth (Auth.up (print_frame request (print_frame refusal (codes "rest"))) eof (redialing 1 []))
    ≡ done (
      none,
      Auth.up (codes "rest") eof (record (redialing 1 []) {
        log = wrote (codes "auth " ++ (codes "ClueCon" ++ codes "\r\n\r\n")) ∷ [];
      }),
    )
unfolding first_field canonical same hex_value Stray
auth-refusal_accepted_example =
    auth-refusal_accepted (redialing 1 []) request refusal (codes "50") (codes " wrong")
      (codes "rest") eof request-IsFrame refusal-IsFrame refl refl refl refl

abbrev pub result_of : {A : Type 0} → A → Outcome (A × Conn) → A × Conn
result_of a (done r) = r
result_of a (panic p) = (a, redialing 0 [])

abbrev welcoming : Socket
welcoming = socket_of (print_frame request (print_frame welcome []))

abbrev dialed_once : Reset × Conn
dialed_once =
    result_of pending (dial (pos 0) [] (codes "ClueCon") (socket_of []) (opened welcoming ∷ []))

abbrev closed_twice : Unit {0} × Conn
closed_twice = result_of tt (calls (closing ∷ closing ∷ []) dialed_once.1)

dialed_once-started : dialed_once.1.started ≡ 1
unfolding dial dial_times auth recv recv_event recv_body dispatch set_deadline write shut_socket
    close new_options read_mime_header starts_blank print_frame print_fields field_text get mime_get
    header_get canonical values add all_token token_byte contains_byte same trim has_prefix reset
    apply_one chomp cut_colon
dialed_once-started = refl

calls-at_most_one_example :
    (closed_twice.1.canceled ≤ closed_twice.1.started)
    × (closed_twice.1.started ≤ suc closed_twice.1.canceled)
unfolding dial dial_times auth recv recv_event recv_body dispatch set_deadline write shut_socket
    close new_options read_mime_header starts_blank print_frame print_fields field_text get mime_get
    header_get canonical values add all_token token_byte contains_byte same trim has_prefix reset
    apply_one chomp cut_colon
calls-at_most_one_example =
    calls-at_most_one (pos 0) [] (codes "ClueCon") (socket_of []) (opened welcoming ∷ [])
      (closing ∷ closing ∷ []) refl refl

abbrev unasked : Conn
unasked = record (redialing 1 []) { sock = socket_of (print_frame welcome []); present = true }

abbrev reply_header : MimeMap
reply_header = record {
  headers =
      (codes "Content-Type", codes "command/reply" ∷ [])
      ∷ (codes "Reply-Text", codes "+OK accepted" ∷ [])
      ∷ [];
  escaped = false;
}

auth-bad_preamble_example :
    (d : Conn) × (auth unasked ≡ done (some (bad_preamble reply_header), d))
    × (d.log ≡ [] ++ shut ∷ [])
unfolding recv recv_event recv_body dispatch set_deadline read_mime_header starts_blank print_frame
    print_fields field_text get mime_get header_get canonical values add all_token token_byte
    contains_byte same trim chomp cut_colon
auth-bad_preamble_example = auth-bad_preamble unasked refl refl (inl cc)

abbrev accepted_event : Event
accepted_event = record {
  header = no_headers;
  body = no_headers;
  raw_body = codes "+OK";
  type = event_api_response;
}

send_all-in_order_example :
    (c' : Conn) × (send_all
        (codes "a" ∷ [])
        (Replies.up ((accepted_event ∷ []) ++ []) (redialing 1 []))
      ≡ done (map reply_to (accepted_event ∷ []), c'))
    × (c'.log ≡ [] ++ map wrote (codes "a" ∷ []))
    × (c'.cmd_reply ≡ [])
send_all-in_order_example =
    send_all-in_order (codes "a" ∷ []) (accepted_event ∷ []) [] (redialing 1 []) refl

send_bytes-late_reply_example :
    (c' : Conn) × (send_bytes (ctx_done canceled) (codes "a") (Replies.up [] (redialing 1 []))
      ≡ done (answer [] (some (ctx canceled)), Replies.up [] c'))
    × (send_bytes from_cmd_reply (codes "b") (Replies.up (accepted_event ∷ []) c')
        ≡ done (
          reply_to accepted_event,
          Replies.up [] (record c' { log = c'.log ++ wrote (codes "b") ∷ [] }),
        ))
send_bytes-late_reply_example =
    send_bytes-late_reply (codes "a") (codes "b") accepted_event canceled (redialing 1 [])

abbrev broken : Conn
broken = record (redialing 1 []) {
  sock = record (socket_of []) { stuck = some broken_pipe };
  present = true;
}

send_bytes-lost_example :
    (c' : Conn) × (send_bytes from_cmd_reply (codes "a") broken ≡ done (answer [] none, c'))
    × (c'.log ≡ [])
unfolding conn_lost
send_bytes-lost_example =
    send_bytes-lost from_cmd_reply (codes "a") broken_pipe broken refl refl refl
