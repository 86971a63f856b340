-- ===== src/EventGenerator/Service.antt =====
-- examples/event_generator/main.go: the client of the server gets its heartbeats.
use goesl.Base.{ℕ, List, [], ◌∷◌, replicate, Bytes, codes}
use goesl.Base.Int.{ℤ}
use goesl.Errors.{NetErr}
use goesl.Options.{Writer}
use goesl.Recv.Frames.{print_frame}
use goesl.Conn.{Conn, Socket, DialResult}
use goesl.Conn.Send.{command_text}
use goesl.Conn.Dial.Auth.{up}
use goesl.Conn.Dial.Arrival.{client}
use goesl.Conn.Loop.Delivery.{print_frames}
use goesl.Conn.Loop.Callback.{listening}
use goesl.Conn.Loop.Session.{Session}
use goesl.Conn.Loop.Session.Greeting.{greeted, session_at}
use goesl.EventGenerator.{client_options}
use goesl.EventGenerator.Frames.{plain_frame, heartbeat_frame}

-- What the server sends behind the request for the password.
abbrev beats : ℕ → Bytes → Bytes
beats n rest = print_frames (replicate n heartbeat_frame) rest

abbrev behind_auth : ℕ → Bytes → Bytes
behind_auth n rest = print_frame plain_frame (print_frame plain_frame (beats n rest))

-- What OnConnect sends.
abbrev pub all_events : Bytes
all_events = command_text (codes "event") (codes "plain" ∷ codes "ALL" ∷ [])

abbrev ready_at : ℤ → Writer → Bytes → Socket → ℕ → Bytes → NetErr → List DialResult → Session
ready_at level file password dummy n rest ending ds = session_at listening 0 (
    up (beats n rest) ending
      (greeted all_events (client level (client_options file) password dummy ds)))
