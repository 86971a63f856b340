-- ===== src/Tests/Loop.antt =====
-- Runs of the event loop.
use goesl.Base.{
  ◌≡◌, refl, inr, true, false, [], ◌∷◌, ◌++◌, codes, none, some, arith, map, replicate, same,
}
use goesl.Base.Int.{pos}
use goesl.Base.Outcome.{Outcome, done, panic}
use goesl.Text.Number.{format_int}
use goesl.Options.{defaults}
use goesl.Errors.{eof, canceled, deadline_exceeded, net, message, conn_lost, closed_or_canceled}
use goesl.Mime.{canonical}
use goesl.Mime.Frame.{print_fields, field_text}
use goesl.Event.Get.{first_field}
use goesl.Recv.Frames.{Frame, IsFrame, print_frame}
use goesl.Conn.{Conn, Socket, close, set_deadline, shut_socket, cancel_callback}
use goesl.Conn.Dial.{new_conn}
use goesl.Conn.Dial.Auth.{up}
use goesl.Conn.Loop.Closing.{disconnected, cut_events, handle_events-closed}
use goesl.Conn.Loop.{goes_on, returns, stuck_sending, plain_events, handle_events}
use goesl.Conn.Loop.Delivery.{
  quiet, started, IsPlainEvent, plain_event, print_frames, handle_events-in_order,
  handle_events-full,
}
use goesl.Tests.Fields.{
  type_plain, type_plain-IsField, length_six, length_six-IsField, letter, letter-IsField,
}

abbrev pub lettered : Frame
lettered = record { crlf = false; fields = type_plain ∷ length_six ∷ []; body = codes "a: b\n\n" }

lettered-IsFrame : IsFrame lettered
unfolding format_int first_field canonical same
lettered-IsFrame = record {
  are_fields = (type_plain-IsField, (length_six-IsField, tt));
  body_fits = omega arith;
  sized = inr refl;
}

pub lettered-IsPlainEvent : IsPlainEvent lettered
unfolding first_field canonical same print_fields field_text
lettered-IsPlainEvent = record {
  is_frame = lettered-IsFrame;
  plain = refl;
  crlf = false;
  fields = letter ∷ [];
  behind = [];
  are_fields = (letter-IsField, tt);
  body = refl;
}

abbrev no_socket : Socket
no_socket = record {
  input = record { bytes = []; ending = eof };
  deadlines = [];
  writes = [];
  stuck = none;
  closed = false;
}

abbrev pub at_work : Conn
at_work = record (new_conn (record defaults { send_reply_cap = pos 2 }) [] no_socket []) {
  connected = true;
}

handle_events-in_order_example :
    (c' : Conn) × (handle_events
        (replicate 2 quiet)
        (up (print_frames (lettered ∷ lettered ∷ []) (codes "rest")) eof at_work)
      ≡ done (goes_on, up (codes "rest") eof c'))
    × (c'.events ≡ [] ++ map plain_event (lettered ∷ lettered ∷ []))
    × (c'.cmd_reply ≡ [])
    × (c'.api_resp ≡ [])
    × (c'.log ≡ [])
handle_events-in_order_example =
    handle_events-in_order (lettered ∷ lettered ∷ []) (codes "rest") eof at_work 2
      (lettered-IsPlainEvent, (lettered-IsPlainEvent, tt)) refl refl (omega arith)

abbrev pub crowded : Conn
crowded = record at_work { events = plain_event lettered ∷ plain_event lettered ∷ [] }

handle_events-full_example :
    handle_events
      (started (some canceled) (some canceled) ∷ [])
      (up (print_frame lettered []) eof crowded)
    ≡ done (stuck_sending plain_events (plain_event lettered), up [] eof crowded)
handle_events-full_example =
    handle_events-full (some canceled) (some canceled) [] lettered [] eof crowded 2
      lettered-IsPlainEvent refl refl (omega arith)

-- A connection that Close can end, and what Close leaves of it.
abbrev closable : Conn
closable = record at_work { once = some false; canceler = some false; started = 1; present = true }

abbrev closed : Outcome (Unit {0} × Conn) → Conn
closed (done r) = r.1
closed (panic p) = closable

closable-closed : close closable ≡ done (tt, closed (close closable))
unfolding close set_deadline shut_socket cancel_callback
closable-closed = refl

handle_events-closed_example :
    (cut_events (started none none) (net deadline_exceeded) [] closable
      ≡ done (returns none, closed (close closable)))
    × (handle_events (started none (some canceled) ∷ []) (closed (close closable))
        ≡ done (returns disconnected, closed (close closable)))
    × (closed_or_canceled (message (codes "disconnected")) ≡ false)
unfolding conn_lost
handle_events-closed_example =
    handle_events-closed (started none none) (started none (some canceled)) (net deadline_exceeded)
      [] closable (closed (close closable)) refl refl refl refl closable-closed
