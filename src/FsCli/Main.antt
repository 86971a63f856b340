-- ===== src/FsCli/Main.antt =====
-- examples/fs_cli/main.go: the options of main and how it ends, and OnConnect.
pub mod Redialing
pub mod Greeting
use goesl.Base.{◌*◌, List, [], ◌∷◌, ◌++◌, Option, none, some, Bytes, codes, if◌then◌else◌}
use goesl.Base.Int.{ℤ, pos, negsuc}
use goesl.Base.Outcome.{Outcome, done, panic}
use goesl.Redo.{second}
use goesl.Options.{
  Opt, Writer, with_default_auto_redial, with_heart_beat, with_net_delay, with_max_retries,
  with_log_level, with_log_output, with_log_prefix,
}
use goesl.Log.{level_debug}
use goesl.Errors.{Err, closed_or_canceled}
use goesl.Fslog.{fslog_string2_level}
use goesl.Conn.{M, ◌>>=◌, ◌>>◌, pure, close}
use goesl.Conn.Send.{Pick, Sent, answer, waiting, Must, went_on, fatal, still_waiting, api, fslog}
use goesl.FsCli.{SofiaEntry, sofia_status}

abbrev common_options : List Opt
common_options =
    with_default_auto_redial
    ∷ with_heart_beat (pos (20 * second))
    ∷ with_net_delay (pos (2 * second))
    ∷ with_max_retries (negsuc 0)
    ∷ with_log_level level_debug
    ∷ with_log_prefix (codes "<fs_cli>")
    ∷ []

log_option : Option Writer → List Opt
log_option none = []
log_option (some w) = with_log_output w ∷ []

-- The options that main gives Dial; the writer is the file of -log_file, where that is given and opened.
unfoldable pub main_options : Option Writer → List Opt
unfolding log_option
main_options file = common_options ++ log_option file

-- The last line that main logs, for what HandleEvents returns.
pub data Exit : Type 0 where
  exiting : Exit
  exiting_with : Err → Exit

unfoldable pub exit_of : Option Err → Exit
exit_of none = exiting
exit_of (some e) = if closed_or_canceled e then exiting else exiting_with e

-- SofiaEntry.String
unfoldable pub entry_text : SofiaEntry → Bytes
entry_text se =
    codes "{\"name\":\""
    ++ (se.name
        ++ (codes "\",\"type\":\""
            ++ (se.type
                ++ (codes "\",\"url\":\""
                    ++ (se.url
                        ++ (codes "\",\"status\":\""
                            ++ (se.status
                                ++ (codes "\",\"extra\":\"" ++ (se.extra ++ codes "\"}")))))))))

-- How OnConnect ends: with its notice; with `die`, which logs the error as fatal and so ends the process;
-- in MustSendOK, which does the same; or not yet, where a call waits for its reply.
pub data Greeted : Type 0 where
  shows : Bytes → List SofiaEntry → Greeted
  died : Err → Greeted
  refused unanswered : Greeted

die : Sent → (Bytes → M Greeted) → M Greeted
die waiting k = pure unanswered
die (answer s none) k = k s
die (answer s (some e)) k = do close; pure (died e)

read_entries : Bytes → Outcome (List SofiaEntry) → M Greeted
read_entries core (done es) c = done (shows core es, c)
read_entries core (panic p) c = panic p

ask_status : Pick → Bytes → M Greeted
unfolding die read_entries
ask_status pick core = do
  raw ← api pick (codes "sofia") (codes "status" ∷ [])
  die raw (λ s. read_entries core (sofia_status s))

ask_core : Pick → Pick → M Greeted
unfolding die ask_status
ask_core p q = do
  core ← api p (codes "global_getvar") (codes "core_uuid" ∷ [])
  die core (ask_status q)

after_fslog : Pick → Pick → Must → M Greeted
unfolding ask_core
after_fslog p q went_on = ask_core p q
after_fslog p q fatal = pure refused
after_fslog p q still_waiting = pure unanswered

-- OnConnect, with the flag of the log level, and how each of its three calls ends its wait.
unfoldable pub on_connect : Bytes → Pick → Pick → Pick → M Greeted
unfolding after_fslog
on_connect level p q r = do m ← fslog p (fslog_string2_level level); after_fslog q r m
