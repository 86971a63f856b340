-- ===== src/Conn.antt =====
-- connection.go: the state of a Connection, the calls that it makes outside, and Close.
pub mod Dial
pub mod Send
pub mod Keeps
pub mod Callbacks
pub mod Channels
pub mod Loop
use goesl.Base.{
  ℕ, suc, ◌+◌, Bool, true, false, ◌&&◌, List, [], ◌∷◌, ◌++◌, Option, none, some, Bytes,
  if◌then◌else◌,
}
use goesl.Base.Outcome.{Outcome, done, panic, nil_call}
use goesl.Redo.{Duration}
use goesl.Options.{Options}
use goesl.Errors.{NetErr, net_closed}
use goesl.Event.{Event}
use goesl.Event.Fields.{Fslog}
use goesl.Recv.{Input, Received, recv_event}

-- A network connection: what it has to read, what its next deadline calls and writes give, and whether
-- it has been closed here. `stuck` is the error that a buffered writer keeps once it has met one.
pub record Socket : Type 0 where
  pub input : Input
  pub deadlines : List (Option NetErr)
  pub writes : List (Option NetErr)
  pub stuck : Option NetErr
  pub closed : Bool

pub data DialResult : Type 0 where
  failed : NetErr → DialResult
  opened : Socket → DialResult

-- What the connection does to the outside, in order.
pub data Act : Type 0 where
  dialed shut started_callback canceled_callback on_connect on_close : Act
  slept : Duration → Act
  wrote : Bytes → Act
  on_disconnect : Event → Act
  on_fslog : Fslog → Act

-- `present` tells whether the field `c` is not nil; the buffer stays on the last socket. `once` and
-- `canceler` are nil at first; then they tell whether Close has run on this `closeOnce`, and whether
-- the callback goroutine of this canceler has been canceled. The channels are queues, oldest first.
pub record Conn : Type 0 where
  pub opts : Options
  pub password : Bytes
  pub connected : Bool
  pub once : Option Bool
  pub canceler : Option Bool
  pub started : ℕ
  pub canceled : ℕ
  pub present : Bool
  pub sock : Socket
  pub dials : List DialResult
  pub cmd_reply : List Event
  pub api_resp : List Event
  pub events : List Event
  pub log : List Act

-- A method that may panic.
abbrev pub M : Type 0 → Type 0
M A = Conn → Outcome (A × Conn)

abbrev pub then_run : {A B : Type 0} → Outcome (A × Conn) → (A → M B) → Outcome (B × Conn)
then_run (done r) f = f r.0 r.1
then_run (panic p) f = panic p

infixl 5 ◌>>=◌ ◌>>◌
abbrev pub ◌>>=◌ : {A B : Type 0} → M A → (A → M B) → M B
◌>>=◌ m f c = then_run (m c) f

abbrev pub ◌>>◌ : {A B : Type 0} → M A → M B → M B
m >> n = m >>= λ _. n

abbrev pub pure : {A : Type 0} → A → M A
pure a c = done (a, c)

abbrev pub nil_pointer : {A : Type 0} → M A
nil_pointer c = panic nil_call

abbrev pub act : Act → Conn → Conn
act a c = record c { log = c.log ++ a ∷ [] }

abbrev pub first_of : List (Option NetErr) → Option NetErr
first_of [] = none
first_of (e ∷ es) = e

abbrev pub rest_of : List (Option NetErr) → List (Option NetErr)
rest_of [] = []
rest_of (e ∷ es) = es

-- What a deadline call gives; on a closed connection each fails.
abbrev pub deadline_result : Socket → Option NetErr
deadline_result s = if s.closed then some net_closed else first_of s.deadlines

-- SetDeadline, SetReadDeadline and SetWriteDeadline.
unfoldable pub set_deadline : M (Option NetErr)
set_deadline c =
    if c.present
    then done (
      deadline_result c.sock,
      record c { sock = record c.sock { deadlines = rest_of c.sock.deadlines } },
    )
    else panic nil_call

write_out : Option NetErr → Bytes → Conn → Option NetErr × Conn
write_out none b c = (none, act (wrote b) c)
write_out (some e) b c = (some e, record c { sock = record c.sock { stuck = some e } })

write_as : Option NetErr → Bytes → M (Option NetErr)
unfolding write_out
write_as (some e) b c = done (some e, c)
write_as none b c = done (
    write_out (first_of c.sock.writes) b
      (record c { sock = record c.sock { writes = rest_of c.sock.writes } }))

-- write: into the buffer and flushed under the lock. A writer that has failed fails for good.
unfoldable pub write : Bytes → M (Option NetErr)
unfolding write_as
write b c = write_as c.sock.stuck b c

took : Outcome Received → Conn → Outcome (Received × Conn)
took (done r) c = done (r, record c { sock = record c.sock { input = r.input } })
took (panic p) c = panic p

-- recvEvent on the buffer; its deadline call is on the field `c`.
unfoldable pub recv : M Received
unfolding took
recv c =
    let deadline = (set_deadline >>= λ set c'. took (recv_event true set c'.sock.input) c') c in
    if c.opts.auto_redial then deadline else took (recv_event false none c.sock.input) c

-- Closing the socket ends its reads; its writes and deadline calls fail.
abbrev pub shut_down : Conn → Conn
shut_down c = act shut (record c {
  sock = record {
    input = record { bytes = []; ending = net_closed };
    deadlines = [];
    writes = [];
    stuck = some net_closed;
    closed = true;
  };
})

unfoldable pub shut_socket : M Unit
shut_socket c = if c.present then done (tt, shut_down c) else panic nil_call

cancel_as : Option Bool → M Unit
cancel_as none c = panic nil_call
cancel_as (some true) c = done (tt, c)
cancel_as (some false) c =
    done (tt, act canceled_callback (record c { canceler = some true; canceled = c.canceled + 1 }))

-- evCallbackCanceler()
unfoldable pub cancel_callback : M Unit
unfolding cancel_as
cancel_callback c = cancel_as c.canceler c

announce_as : Bool → M Unit
announce_as true c = done (tt, act on_close (record c { connected = false }))
announce_as false c = done (tt, c)

announce : M Unit
unfolding announce_as
announce c = announce_as c.connected c

close_body : M Unit
unfolding announce cancel_callback set_deadline shut_socket
close_body = do announce; cancel_callback; set_deadline; shut_socket

close_as : Option Bool → M Unit
unfolding close_body
close_as none c = panic nil_call
close_as (some true) c = done (tt, c)
close_as (some false) c = close_body (record c { once = some true })

-- Close
unfoldable pub close : M Unit
unfolding close_as
close c = close_as c.once c
