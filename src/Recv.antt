-- ===== src/Recv.antt =====
-- recvEvent of connection.go: one event from the bytes of a connection.
pub mod Frames
pub mod Faults
use goesl.Base.{
  ℕ, ◌+◌, ◌-◌, Bool, true, false, List, [], ◌∷◌, ◌++◌, Option, none, some, Bytes, codes, length,
  take, drop, replicate, leb, ◌==◌, ◌^◌, same, if◌then◌else◌,
}
use goesl.Base.Int.{ℤ, pos, negsuc}
use goesl.Base.Outcome.{Outcome, done, panic, make_range, ◌>>=◌}
use goesl.Text.{contains_byte}
use goesl.Text.Number.{Parsed, parsed, atoi}
use goesl.Mime.{Header, Got, Problem, input_ended, malformed, read_mime_header}
use goesl.Errors.{
  NetErr, eof, unexpected_eof, Err, net, message, mime_malformed, not_a_number, wrap,
}
use goesl.Event.{
  MimeMap, no_headers, Event, EventType, event_invalid, event_auth, event_command_reply,
  event_generic, event_disconnect, event_api_response, event_log, get, parse_text_body,
}

-- What can still be read: the bytes that come, and the error that every read gives behind them.
pub record Input : Type 0 where
  pub bytes : Bytes
  pub ending : NetErr

pub record Received : Type 0 where
  pub event : Event
  pub err : Option Err
  pub input : Input

abbrev pub new_event : Event
new_event = record { header = no_headers; body = no_headers; raw_body = []; type = event_invalid }

abbrev pub headers_err : NetErr → Problem → Err
headers_err ending input_ended = net ending
headers_err ending (malformed line) = mime_malformed line

-- io.ReadFull with fewer bytes than wanted: an end of file behind some of them is unexpected.
abbrev pub short_read : NetErr → Bytes → NetErr
short_read eof (c ∷ s) = unexpected_eof
short_read e s = e

abbrev pub read_body_text : Bytes
read_body_text = codes "read body: "

abbrev pub received : Event → Option Err → Bytes → NetErr → Received
received e err rest ending = record {
  event = e;
  err = err;
  input = record { bytes = rest; ending = ending };
}

typed : Event → EventType → Event
typed e t = record e { type = t }

-- The switch on Content-Type.
unfoldable pub dispatch : Bytes → Event → Event × Option Err
unfolding typed
dispatch t e =
    if same t (codes "auth/request")
    then (typed e event_auth, none)
    else if same t (codes "command/reply")
    then (
      let e' = typed e event_command_reply in
          (if contains_byte b'%' (get e' (codes "Reply-Text"))
            then record e' { header = record e'.header { escaped = true } }
            else e'),
      none,
    )
    else if same t (codes "text/event-plain")
    then parse_text_body (typed e event_generic)
    else if same t (codes "text/event-json")
    then (e, some (message (codes "unsupported format " ++ t)))
    else if same t (codes "text/event-xml")
    then (e, some (message (codes "unsupported format " ++ t)))
    else if same t (codes "text/disconnect-notice")
    then (typed e event_disconnect, none)
    else if same t (codes "text/rude-rejection")
    then (typed e event_disconnect, none)
    else if same t (codes "api/response")
    then (typed e event_api_response, none)
    else if same t (codes "log/data")
    then (typed e event_log, none)
    else (typed e event_invalid, none)

pub dispatched : Event → Bytes → NetErr → Received
dispatched e rest ending =
    let (e', err) = dispatch (get e (codes "Content-Type")) e in received e' err rest ending

-- The body of a given length; the buffer is all zeros where nothing was read.
pub with_body : Event → ℕ → Bytes → NetErr → Received
unfolding dispatched
with_body e l s ending =
    if leb l (length s)
    then dispatched (record e { raw_body = take l s }) (drop l s) ending
    else received (record e { raw_body = s ++ replicate (l - length s) 0 })
        (some (wrap read_body_text (net (short_read ending s)))) [] ending

-- make([]byte, l) panics for a length of more bytes than can be allocated, which is 2^48 where an address
-- has 48 bits, as for a negative one.
abbrev pub max_alloc : ℕ
max_alloc = 2 ^ 48

pub body_of : Event → Bytes → Parsed → Bytes → NetErr → Outcome Received
unfolding with_body
body_of e slen (parsed (pos l)) s ending =
    if leb l max_alloc then done (with_body e l s ending) else panic make_range
body_of e slen (parsed (negsuc l)) s ending = panic make_range
body_of e slen _ s ending =
    done (received e (some (wrap (codes "convert content-length ") (not_a_number slen))) s ending)

-- Behind the headers.
unfoldable pub recv_body : Event → Bytes → NetErr → Outcome Received
unfolding body_of
recv_body e s ending =
    let slen = get e (codes "Content-Length") in
    if same slen [] then done (dispatched e s ending) else body_of e slen (atoi slen) s ending

recv_behind : Option Problem → Event → Bytes → NetErr → Outcome Received
recv_behind none e rest ending = recv_body e rest ending
recv_behind (some p) e rest ending = done (received e (some (headers_err ending p)) rest ending)

unfoldable pub recv_headers : Got → NetErr → Outcome Received
unfolding recv_behind
recv_headers got ending =
    recv_behind got.problem
      (record new_event { header = record { headers = got.header; escaped = false } }) got.rest
      ending

abbrev pub deadline_of : Bool → Option NetErr → Option NetErr
deadline_of true set = set
deadline_of false set = none

recv_under : Option NetErr → Input → Outcome Received
unfolding recv_headers
recv_under (some e) input = done (received new_event (some (net e)) input.bytes input.ending)
recv_under none input = recv_headers (read_mime_header input.bytes) input.ending

-- `set` is what SetReadDeadline gives; it is called with automatic redial only.
unfoldable pub recv_event : Bool → Option NetErr → Input → Outcome Received
unfolding recv_under
recv_event auto_redial set input = recv_under (deadline_of auto_redial set) input
