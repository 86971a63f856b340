-- ===== src/Tests/Wire.antt =====
-- Runs of recv_event, of the readers of events, and of the printers of commands.
use goesl.Base.{
  ℕ, ◌≡◌, ◌≢◌, ◌⊎◌, ◌↔◌, refl, inl, inr, true, false, [], ◌∷◌, ◌++◌, Bytes, codes, Option, none,
  some, arith, if◌then◌else◌, same, All,
}
use goesl.Base.Int.{pos}
use goesl.Base.Outcome.{done, panic, make_range, slice_range}
use goesl.Text.Number.{format_int, format_uint, atoi}
use goesl.Text.Query.{query_unescape}
use goesl.Errors.{eof, Err, message, reading, conn_lost}
use goesl.Tests.Fields.{
  type_api, type_api-IsField, length_three, length_three-IsField, type_plain, type_plain-IsField,
  length_negative, length_negative-IsField, job_command, job_command-IsField, call_command-IsField,
  app_name-IsField, app_args-IsField, event_lock-IsField, loops_two-IsField,
}
use goesl.Text.{contains_byte}
use goesl.Mime.{starts_blank, values, canonical, read_mime_header, header_get}
use goesl.Mime.Frame.{IsField, print_fields, add_fields}
use goesl.Event.{
  Event, is_text_type, no_headers, event_generic, event_command_reply, event_invalid, get, mime_get,
  or_empty, parse_text_body, get_text_body, err_or_res,
}
use goesl.Event.Get.{first_field, get-parse_text_body}
use goesl.Event.Body.{HasLength, Fits, get_text_body-panic, get_text_body-payload}
use goesl.Event.Reply.{err_or_res-done, err_or_res_exact}
use goesl.Recv.{Received, recv_event}
use goesl.Recv.Frames.{Frame, IsFrame, print_frame, frame_result, recv_event-print_frame}
use goesl.Recv.Faults.{recv_event-negative, recv_event-truncated, recv_event-unfinished_plain}
use goesl.Command.{Command, serialize}
use goesl.Command.Wire.{command_fields, serialize-read_mime_header}

abbrev answer_frame : Frame
answer_frame = record { crlf = false; fields = type_api ∷ length_three ∷ []; body = codes "+OK" }

answer_frame-IsFrame : IsFrame answer_frame
unfolding format_int first_field canonical same
answer_frame-IsFrame = record {
  are_fields = (type_api-IsField, (length_three-IsField, tt));
  body_fits = omega arith;
  sized = inr refl;
}

recv_event-print_frame_example :
    recv_event true none (record { bytes = print_frame answer_frame (codes "next"); ending = eof })
    ≡ done (frame_result answer_frame (codes "next") eof)
recv_event-print_frame_example =
    recv_event-print_frame true none answer_frame (codes "next") eof refl answer_frame-IsFrame

abbrev below_zero : Frame
below_zero = record { crlf = true; fields = length_negative ∷ []; body = [] }

recv_event-negative_example :
    recv_event false none (record { bytes = print_frame below_zero []; ending = eof })
    ≡ panic make_range
recv_event-negative_example =
    recv_event-negative false none refl below_zero 0 [] eof (length_negative-IsField, tt)
      (omega arith)
      (unfold format_int in unfold first_field in unfold canonical in unfold same in refl)

abbrev cut_short : Frame
cut_short = record { crlf = true; fields = length_three ∷ []; body = codes "+O" }

recv_event-truncated_example :
    (r : Received) × (e : Err) × (recv_event false none
        (record { bytes = print_frame cut_short []; ending = eof })
      ≡ done r)
    × (r.err ≡ some e)
    × (conn_lost e reading ≡ true)
    × (r.event.type ≡ event_invalid)
recv_event-truncated_example =
    recv_event-truncated false none refl cut_short 3 (length_three-IsField, tt) (omega arith)
      (unfold format_int in unfold first_field in unfold canonical in unfold same in refl)
      (omega arith)

abbrev plain_frame : Frame
plain_frame = record { crlf = false; fields = type_plain ∷ length_three ∷ []; body = codes "a:b" }

plain_frame-IsFrame : IsFrame plain_frame
unfolding format_int first_field canonical same
plain_frame-IsFrame = record {
  are_fields = (type_plain-IsField, (length_three-IsField, tt));
  body_fits = omega arith;
  sized = inr refl;
}

recv_event-unfinished_plain_example :
    (r : Received) × (e : Err) × (recv_event false none
        (record { bytes = print_frame plain_frame (codes "more"); ending = eof })
      ≡ done r)
    × (r.err ≡ some e)
    × (conn_lost e reading ≡ true)
    × (r.input ≡ record { bytes = codes "more"; ending = eof })
unfolding read_mime_header starts_blank same contains_byte first_field canonical
recv_event-unfinished_plain_example =
    recv_event-unfinished_plain false none plain_frame (codes "more") eof refl plain_frame-IsFrame
      refl refl

abbrev played : Event
played = record {
  header = no_headers;
  body = no_headers;
  raw_body = print_fields false (job_command ∷ []) (codes "rest");
  type = event_generic;
}

get-parse_text_body_example :
    let fs = job_command ∷ [] in
    let v = or_empty (query_unescape (first_field (canonical (codes "job-command")) fs)) in
    ((parse_text_body played).1 ≡ none)
    × (get (parse_text_body played).0 (codes "job-command")
        ≡ (if same v [] then mime_get played.header (codes "job-command") else v))
get-parse_text_body_example =
    get-parse_text_body played false (job_command ∷ []) (codes "rest") (codes "job-command") refl
      (job_command-IsField, tt)

abbrev refused : Event
refused = record {
  header = record {
    headers = (codes "Reply-Text", codes "-ERR no such call" ∷ []) ∷ [];
    escaped = false;
  };
  body = no_headers;
  raw_body = [];
  type = event_command_reply;
}

err_or_res-done_example : (r : Bytes × Option Err) × (err_or_res refused ≡ done r)
err_or_res-done_example = err_or_res-done refused

err_or_res_exact_example :
    ((m : Bytes) × (m ≢ [])
      × (codes "-ERR no such call" ≡ codes "-ERR " ++ m)
      × (err_or_res refused ≡ done (codes "-ERR no such call", some (message m))))
    ⊎ (((m : Bytes) → m ≢ [] → codes "-ERR no such call" ≢ codes "-ERR " ++ m)
        × (err_or_res refused ≡ done (codes "-ERR no such call", none)))
unfolding get mime_get header_get canonical same values
err_or_res_exact_example = err_or_res_exact refused (codes "-ERR no such call") (inl (refl, refl))

abbrev job_done : ℕ → Event
job_done digit = record {
  header = no_headers;
  body = record { headers = (codes "Content-Length", (digit ∷ []) ∷ []) ∷ []; escaped = true };
  raw_body = codes "+OK\n";
  type = event_generic;
}

four-HasLength : HasLength (job_done b'4') (pos 4)
unfolding is_text_type mime_get header_get canonical values same query_unescape atoi
four-HasLength = record { not_text = refl; present = cc; number = refl }

nine-HasLength : HasLength (job_done b'9') (pos 9)
unfolding is_text_type mime_get header_get canonical values same query_unescape atoi
nine-HasLength = record { not_text = refl; present = cc; number = refl }

get_text_body-panic_example :
    (get_text_body (job_done b'9') ≡ panic slice_range) ↔ (¬ Fits (pos 9) 4)
get_text_body-panic_example = get_text_body-panic (job_done b'9') (pos 9) nine-HasLength

get_text_body-payload_example : get_text_body (job_done b'4') ≡ done (codes "+OK")
get_text_body-payload_example =
    get_text_body-payload (job_done b'4') [] (codes "+OK") b'\n' refl four-HasLength

abbrev played_twice : Command
played_twice = record {
  uuid = codes "b1";
  app = codes "playback";
  args = codes "a.wav";
  sync = true;
  loops = 2;
}

played_twice-fields : All IsField (command_fields played_twice)
unfolding command_fields format_uint
played_twice-fields = (
  call_command-IsField,
  (app_name-IsField, (app_args-IsField, (event_lock-IsField, (loops_two-IsField, tt)))),
)

serialize-read_mime_header_example :
    (block : Bytes) × (serialize played_twice
      ≡ codes "sendmsg " ++ (codes "b1" ++ (codes "\r\n" ++ block)))
    × (read_mime_header block ≡ record {
      header = add_fields (command_fields played_twice) [];
      problem = none;
      rest = codes "\r\n";
    })
serialize-read_mime_header_example = serialize-read_mime_header played_twice played_twice-fields
