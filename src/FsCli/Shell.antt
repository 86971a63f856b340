-- ===== src/FsCli/Shell.antt =====
-- examples/fs_cli/main.go: the commands that are typed, as send and messageSend read them.
pub mod Asked
pub mod Order
use goesl.Base.{
  ℕ, Bool, true, false, ◌||◌, List, [], ◌∷◌, ◌++◌, Option, none, some, Bytes, codes, ◌==◌, same,
  if◌then◌else◌,
}
use goesl.Base.Outcome.{Outcome, done, panic, index_range}
use goesl.Errors.{Err}
use goesl.Conn.{Conn, M, ◌>>=◌, ◌>>◌, pure, close}
use goesl.Conn.Send.{Pick, Sent, answer, waiting, send, api, bg_api}

-- `strings.Split(cmd, " ")[0]`
first_word : Bytes → Bytes
first_word [] = []
first_word (c ∷ s) = let rest = first_word s in if c == b' ' then [] else c ∷ rest

-- BgApi returns the identifier of the job beside the error.
job_or : Bytes × Sent → M Sent
job_or (job, answer raw err) = pure (answer job err)
job_or (job, waiting) = pure waiting

-- send, up to its check of what the call returns. Where uuid.New is called it makes `job`.
unfoldable pub send_typed : Pick → Bytes → Bytes → M Sent
unfolding first_word job_or
send_typed pick job [] = λ c. panic index_range
send_typed pick job (c ∷ cmd) =
    if c == b'/'
    then send pick cmd []
    else if same (first_word (c ∷ cmd)) (codes "originate")
    then (bg_api job pick (c ∷ cmd) [] >>= job_or)
    else api pick (c ∷ cmd) []

pub data Said : Type 0 where
  prompt result : Bytes → Said
  api_error host_error : Err → Said

-- check
pub said_of : Bytes → Option Err → Said
said_of res none = result res
said_of res (some e) = api_error e

-- How messageSend ends: at the end of its input, by Close, where it has no host name, or not: `blocked`
-- where a call waits for its reply.
pub data End : Type 0 where
  input_over closed no_host blocked : End

-- A line of the input; how the wait for its reply ends; and the identifier of its job.
pub record Typed : Type 0 where
  pub text : Bytes
  pub pick : Pick
  pub job : Bytes

pub data Kind : Type 0 where
  nothing quits command : Kind

unfoldable pub kind_of : Bytes → Kind
kind_of cmd =
    if same cmd []
    then nothing
    else if same cmd (codes "...")
        || same cmd (codes "/exit")
        || same cmd (codes "/bye")
        || same cmd (codes "/quit")
    then quits
    else command

say : Said → List Said × End → List Said × End
say a (as', e) = (a ∷ as', e)

-- Behind a command, with the rest of the loop.
after_command : Sent → M (List Said × End) → M (List Said × End)
unfolding said_of say
after_command waiting rest = pure ([], blocked)
after_command (answer res err) rest = do r ← rest; pure (say (said_of res err) r)

-- `cancel` is the caller's; it is called before Close.
run_line : Kind → Typed → M (List Said × End) → M (List Said × End)
unfolding after_command
run_line nothing t rest = rest
run_line quits t rest = do close; pure ([], closed)
run_line command t rest = do r ← send_typed t.pick t.job t.text; after_command r rest

-- The loop of messageSend, which prints the prompt for each line first.
unfoldable pub read_lines : Bytes → List Typed → M (List Said × End)
unfolding run_line say
read_lines p [] = pure ([], input_over)
read_lines p (t ∷ ts) = do
  r ← run_line (kind_of t.text) t (read_lines p ts)
  pure (say (prompt p) r)

pub cli_prefix : Bytes → Bytes
cli_prefix host = codes "freeswitch/" ++ host ++ codes "> "

after_host : Sent → List Typed → M (List Said × End)
unfolding cli_prefix say
after_host waiting ts = pure ([], blocked)
after_host (answer host (some e)) ts = pure (host_error e ∷ [], no_host)
after_host (answer host none) ts = do
  r ← read_lines (cli_prefix host) ts
  pure (say (prompt (cli_prefix host)) r)

unfoldable pub message_send : Pick → List Typed → M (List Said × End)
unfolding after_host
message_send pick ts = do
  r ← api pick (codes "global_getvar") (codes "hostname" ∷ [])
  after_host r ts
