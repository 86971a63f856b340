-- ===== src/Conn/Send.antt =====
-- connection.go: the commands that a caller sends, and the wait for their replies.
pub mod Replies
pub mod Channels
pub mod Ready
use goesl.Base.{
  ℕ, Bool, true, false, List, [], ◌∷◌, ◌++◌, Option, none, some, Bytes, codes, map, length,
  if◌then◌else◌,
}
use goesl.Base.Int.{ℤ, pos}
use goesl.Base.Outcome.{Outcome, done, panic}
use goesl.Text.Number.{format_uint}
use goesl.Errors.{NetErr, CtxErr, Err, net, ctx, Mode, writing, conn_lost}
use goesl.EvName
use goesl.EvName.{EventName}
use goesl.Fslog
use goesl.Event.{Event, err_or_res}
use goesl.Command.{Command, serialize}
use goesl.Conn.{Conn, M, ◌>>=◌, ◌>>◌, pure, set_deadline, write}

-- Which ready case of a select is taken: the context is done, or a channel has an event.
pub data Pick : Type 0 where
  ctx_done : CtxErr → Pick
  from_cmd_reply from_api_resp : Pick

-- The result and the error; or the caller still waits, since the channel has nothing.
pub data Sent : Type 0 where
  answer : Bytes → Option Err → Sent
  waiting : Sent

answered : Outcome (Bytes × Option Err) → M Sent
answered (done (raw, err)) c = done (answer raw err, c)
answered (panic p) c = panic p

take_cmd_reply : List Event → M Sent
unfolding answered
take_cmd_reply [] c = done (waiting, c)
take_cmd_reply (e ∷ es) c = answered (err_or_res e) (record c { cmd_reply = es })

take_api_resp : List Event → M Sent
unfolding answered
take_api_resp [] c = done (waiting, c)
take_api_resp (e ∷ es) c = answered (err_or_res e) (record c { api_resp = es })

unfoldable pub await : Pick → M Sent
unfolding take_cmd_reply take_api_resp
await (ctx_done e) c = done (answer [] (some (ctx e)), c)
await from_cmd_reply c = take_cmd_reply c.cmd_reply c
await from_api_resp c = take_api_resp c.api_resp c

abbrev pub as_err : Option NetErr → Option Err
as_err none = none
as_err (some e) = some (net e)

-- Behind a failed write: SetReadDeadline assigns to the `err` that is returned.
pub write_failed : NetErr → M Sent
write_failed e =
    if conn_lost (net e) writing
    then (do set ← set_deadline; pure (answer [] (as_err set)))
    else pure (answer [] (some (net e)))

after_write : Option NetErr → Pick → M Sent
unfolding write_failed await
after_write (some e) pick = write_failed e
after_write none pick = await pick

-- SendBytes
unfoldable pub send_bytes : Pick → Bytes → M Sent
unfolding after_write
send_bytes pick buf = do e ← write buf; after_write e pick

spaced : List Bytes → Bytes
spaced [] = codes "\r\n\r\n"
spaced (a ∷ as') = b' ' ∷ (a ++ spaced as')

-- The text of a command and its arguments.
unfoldable pub command_text : Bytes → List Bytes → Bytes
unfolding spaced
command_text cmd args = cmd ++ spaced args

-- Send; an error of SetWriteDeadline is only logged.
unfoldable pub send : Pick → Bytes → List Bytes → M Sent
unfolding command_text
send pick cmd args = do set_deadline; send_bytes pick (command_text cmd args)

-- MustSendOK ends the program, through the default logger, where Send has an error.
pub data Must : Type 0 where
  went_on fatal still_waiting : Must

unfoldable pub must_of : Sent → Must
must_of (answer raw none) = went_on
must_of (answer raw (some e)) = fatal
must_of waiting = still_waiting

unfoldable pub must_send_ok : Pick → Bytes → List Bytes → M Must
unfolding must_of
must_send_ok pick cmd args = do r ← send pick cmd args; pure (must_of r)

unfoldable pub plain_texts : Pick → List Bytes → M Must
plain_texts pick strs = must_send_ok pick (codes "event") (codes "plain" ∷ strs)

-- Plain; its last argument is not used.
unfoldable pub plain : Pick → List EventName → List Bytes → M Must
unfolding plain_texts
plain pick ens subs = plain_texts pick (map EvName.to_string ens)

fslog_as : Pick → Outcome Bytes → M Must
fslog_as pick (done s) = must_send_ok pick (codes "log") (s ∷ [])
fslog_as pick (panic p) = λ c. panic p

unfoldable pub fslog : Pick → ℤ → M Must
unfolding fslog_as
fslog pick lv = fslog_as pick (Fslog.to_string lv)

header_lines : List (Bytes × Bytes) → Bytes → Bytes
header_lines [] rest = rest
header_lines ((k, v) ∷ hs) rest = k ++ (b':' ∷ b' ' ∷ (v ++ (b'\r' ∷ b'\n' ∷ header_lines hs rest)))

-- The text of SendEvent, for the order in which the map of headers is gone through.
unfoldable pub event_text : EventName → List (Bytes × Bytes) → Bytes → Bytes
unfolding header_lines
event_text en headers body =
    codes "sendevent "
    ++ (EvName.to_string en
        ++ (codes "\r\n"
            ++ header_lines headers (
                codes "Content-Length: "
                ++ (format_uint (length body) ++ (codes "\r\n\r\n" ++ body)))))

unfoldable pub send_event : Pick → EventName → List (Bytes × Bytes) → Bytes → M Sent
unfolding event_text
send_event pick en headers body = send_bytes pick (event_text en headers body)

unfoldable pub api : Pick → Bytes → List Bytes → M Sent
api pick cmd args = send pick (codes "api " ++ cmd) args

-- BgApi, with the identifier that uuid.New made; it is returned beside the error.
unfoldable pub bg_api : Bytes → Pick → Bytes → List Bytes → M (Bytes × Sent)
bg_api job pick cmd args = do
  r ← send pick (codes "api bgapi uuid:" ++ (job ++ (codes " " ++ cmd))) args
  pure (job, r)

join_params : List Bytes → Bytes
join_params [] = []
join_params (p ∷ []) = p
join_params (p ∷ q ∷ ps) = p ++ (b' ' ∷ join_params (q ∷ ps))

-- ExecuteLooped and ExecuteLoopedSync; Execute and ExecuteSync are the cases of one loop.
unfoldable pub execute_command : Bool → Bytes → Bytes → ℕ → List Bytes → Command
unfolding join_params
execute_command sync app uuid loops params = record {
  uuid = uuid;
  app = app;
  args = join_params params;
  sync = sync;
  loops = loops;
}

unfoldable pub execute : Pick → Command → M Sent
execute pick cmd = send_bytes pick (serialize cmd)
