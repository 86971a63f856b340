-- ===== src/Conn/Dial.antt =====
-- connection.go: dialTimes, auth, reset and Dial.
pub mod Failing
pub mod Retries
pub mod Auth
pub mod Preamble
pub mod Refusal
pub mod Callbacks
pub mod Channels
pub mod Waits
pub mod Arrival
use goesl.Base.{
  ℕ, zero, suc, ◌+◌, Bool, true, false, not, ◌||◌, List, [], ◌∷◌, ◌++◌, Option, none, some, Bytes,
  codes, drop, leb, ltb, if◌then◌else◌,
}
use goesl.Base.Int.{ℤ, pos, is_neg, leb_ℤ}
use goesl.Base.Outcome.{Outcome, done, panic, nil_call}
use goesl.Text.{has_prefix}
use goesl.Redo.{Duration, Strategy, strategy_next, strategy_reset}
use goesl.Options.{Options, Opt, Settings, new_options}
use goesl.Errors.{NetErr, eof, Err, net, message, wrap, closed_or_canceled}
use goesl.Event.{
  Event, EventType, MimeMap, event_auth, event_command_reply, event_invalid, get, mime_string,
}
use goesl.Recv.{Received}
use goesl.Conn.{
  Conn, Socket, DialResult, failed, opened, dialed, slept, started_callback, M, ◌>>=◌, ◌>>◌, pure,
  act, set_deadline, write, recv, shut_socket, close,
}

-- What dialTimes ends in; `still_dialing` where the outcomes given are used up before that.
pub data Dialed : Type 0 where
  reached : Dialed
  gave_up : NetErr → Dialed
  still_dialing : Dialed

-- `conn.c, err = net.DialTimeout(…)`
abbrev pub use_socket : Socket → Conn → Conn
use_socket s c = record c { sock = s; present = true }

abbrev no_socket : Conn → Conn
no_socket c = record c { present = false }

abbrev with_strategy : Strategy → Conn → Conn
with_strategy s c = record c { opts = record c.opts { redial_strategy = some s } }

-- `if i > 0 { redialStrategy.Reset() }`
reset_strategy : ℕ → Option Strategy → M Unit
reset_strategy zero s c = done (tt, c)
reset_strategy (suc i) none c = panic nil_call
reset_strategy (suc i) (some s) c = done (tt, with_strategy (strategy_reset s) c)

-- The wait behind a dial that failed.
wait_next : Option Strategy → M Unit
wait_next none c = panic nil_call
wait_next (some s) c = let r = strategy_next s in done (tt, act (slept r.0) (with_strategy r.1 c))

-- `i <= conn.opts.maxRetries || conn.opts.maxRetries < 0`
abbrev pub may_dial : ℕ → ℤ → Bool
may_dial i max = leb_ℤ (pos i) max || is_neg max

-- The loop, with its counter and the error of the last dial; the list has the outcomes to come.
unfoldable pub dial_loop : ℕ → NetErr → List DialResult → M Dialed
unfolding reset_strategy wait_next
dial_loop i last [] c =
    done (if may_dial i c.opts.max_retries then still_dialing else gave_up last, c)
dial_loop i last (opened s ∷ ds) c =
    if may_dial i c.opts.max_retries
    then (reset_strategy i c.opts.redial_strategy >>= λ _. pure reached)
        (use_socket s (act dialed (record c { dials = ds })))
    else done (gave_up last, c)
dial_loop i last (failed e ∷ ds) c =
    let again =
      (wait_next c.opts.redial_strategy >>= λ _. dial_loop (suc i) e ds)
        (no_socket (act dialed (record c { dials = ds }))) in
    if may_dial i c.opts.max_retries then again else done (gave_up last, c)

dial_once : List DialResult → M Dialed
dial_once [] c = done (still_dialing, c)
dial_once (opened s ∷ ds) c = done (reached, use_socket s (act dialed (record c { dials = ds })))
dial_once (failed e ∷ ds) c = done (gave_up e, no_socket (act dialed (record c { dials = ds })))

-- dialTimes; the error that the loop would start with is none, and is not returned: it dials first.
unfoldable pub dial_times : Bool → M Dialed
unfolding dial_once
dial_times true c = dial_loop 0 eof c.dials c
dial_times false c = dial_once c.dials c

-- What fmt prints for a value with a String method, and for one whose String slices out of range.
shown : Outcome Bytes → Bytes
shown (done s) = s
shown (panic p) = codes "%!s(PANIC=String method: runtime error: slice bounds out of range [:-1])"

unfoldable pub bad_preamble : MimeMap → Err
unfolding shown
bad_preamble header =
    message (codes "bad auth preamble: [" ++ shown (mime_string header) ++ codes "]")

abbrev pub read_error_text : Bytes
read_error_text = codes "socket read error: "

is_auth : EventType → Bool
is_auth event_auth = true
is_auth _ = false

unfoldable pub is_command_reply : EventType → Bool
is_command_reply event_command_reply = true
is_command_reply _ = false

preamble_err : Event → Option Err → Option Err
preamble_err ev none = if is_auth ev.type then none else some (bad_preamble ev.header)
preamble_err ev (some e) =
    if is_auth ev.type then some (wrap read_error_text e) else some (bad_preamble ev.header)

abbrev pub auth_text : Bytes → Bytes
auth_text password = codes "auth " ++ (password ++ codes "\r\n\r\n")

-- `err` with the socket closed, and the deadline taken off by the deferred block().
close_with : Err → M (Option Err)
close_with e = do shut_socket; set_deadline; pure (some e)

reply_of : Bytes → M (Option Err)
reply_of reply = do
  set_deadline
  pure (
      if has_prefix reply (codes "-ERR ")
      then some (message (codes "auth reply: " ++ drop 5 reply))
      else none)

judge_reply : Option Err → Event → M (Option Err)
judge_reply (some e) ev = close_with (wrap (codes "auth reply: ") e)
judge_reply none ev =
    if is_command_reply ev.type
    then reply_of (get ev (codes "Reply-Text"))
    else close_with (message (codes "bad reply type"))

after_write : Option NetErr → M (Option Err)
unfolding close_with judge_reply reply_of is_command_reply
after_write (some e) = close_with (wrap (codes "passwd buffer flush: ") (net e))
after_write none = do r ← recv; judge_reply r.err r.event

send_password : Option NetErr → M (Option Err)
unfolding after_write
send_password (some e) c = done (some (wrap (codes "set deadline") (net e)), c)
send_password none c = (write (auth_text c.password) >>= after_write) c

after_preamble : Option Err → M (Option Err)
unfolding send_password
after_preamble (some e) = do shut_socket; pure (some e)
after_preamble none = do set ← set_deadline; send_password set

-- auth
unfoldable pub auth : M (Option Err)
unfolding preamble_err is_auth after_preamble recv set_deadline shut_socket
auth = do r ← recv; after_preamble (preamble_err r.event r.err)

-- What reset returns; `pending` while it is still dialing.
pub data Reset : Type 0 where
  succeeded : Reset
  failed_with : Err → Reset
  pending : Reset

start_callback : Option Err → M Reset
start_callback (some e) c = done (failed_with e, c)
start_callback none c =
    done (
      succeeded,
      act started_callback (record c { started = c.started + 1; canceler = some false }),
    )

after_dial : Dialed → M Reset
unfolding start_callback
after_dial still_dialing c = done (pending, c)
after_dial (gave_up e) c = done (failed_with (net e), c)
after_dial reached c = (auth >>= start_callback) (record c { connected = true; once = some false })

abbrev ends_it : Option Err → Bool
ends_it none = false
ends_it (some e) = closed_or_canceled e

redial : Option Err → M Reset
unfolding after_dial
redial none = do d ← dial_times false; after_dial d
redial (some e) = do close; d ← dial_times true; after_dial d

refuse : Option Err → Reset
refuse none = succeeded
refuse (some e) = failed_with (wrap (codes "former error: ") e)

-- reset, with the error that it is called for
unfoldable pub reset : Option Err → M Reset
unfolding redial refuse dial_times
reset former c = if ends_it former then done (refuse former, c) else redial former c

-- The connection that Dial makes before it calls reset(nil).
abbrev pub new_conn : Options → Bytes → Socket → List DialResult → Conn
new_conn opts password dummy ds = record {
  opts = opts;
  password = password;
  connected = false;
  once = none;
  canceler = none;
  started = 0;
  canceled = 0;
  present = false;
  sock = dummy;
  dials = ds;
  cmd_reply = [];
  api_resp = [];
  events = [];
  log = [];
}

-- Dial; the connection is returned where reset has succeeded.
unfoldable pub dial : ℤ → List Opt → Bytes → Socket → List DialResult → Outcome (Reset × Conn)
unfolding reset
dial level os password dummy ds =
    reset none (new_conn (new_options level os).opts password dummy ds)
