-- ===== src/FsCli/Main/Greeting.antt =====
-- examples/fs_cli/main.go: what OnConnect asks the server for, and what it shows.
use goesl.Base.{◌≡◌, ap, ◌∙◌, List, [], ◌∷◌, ◌++◌, map, All, Option, none, some, Bytes, codes}
use goesl.Base.Outcome.{done}
use goesl.Errors.{Err}
use goesl.Event.{Event}
use goesl.Fslog
use goesl.Fslog.{fslog_string2_level}
use goesl.Fslog.Levels.{to_string-fslog_string2_level}
use goesl.Conn.{Conn, M, ◌>>=◌, then_run, pure, close, act, wrote}
use goesl.Conn.Send.{from_cmd_reply, from_api_resp, must_of, api, command_text}
use goesl.Conn.Send.Ready.{
  ready, reply_result, writing_all, answer_of, send-ready, await_api_resp-ready, log_text,
  fslog-ready,
}
use goesl.FsCli.{SofiaEntry, sofia_status}
use goesl.FsCli.Table.{
  Row, IsRow, IsLine, IsContent, row_entry, unlines, table_lines, sofia_status-table,
}
use goesl.FsCli.Main.{
  Greeted, shows, died, die, read_entries, ask_status, ask_core, after_fslog, on_connect,
}

abbrev pub core_text : Bytes
core_text = codes "api global_getvar core_uuid\r\n\r\n"

abbrev pub status_text : Bytes
status_text = codes "api sofia status\r\n\r\n"

core_asked :
    (e : Event) (q r : List Event) (c : Conn)
    → api from_api_resp (codes "global_getvar") (codes "core_uuid" ∷ []) (ready q (e ∷ r) c)
      ≡ done (answer_of (reply_result e), ready q r (act (wrote core_text) c))
unfolding api command_text
core_asked e q r c =
    send-ready from_api_resp (codes "api global_getvar") (codes "core_uuid" ∷ []) q (e ∷ r) c
    ∙ await_api_resp-ready e q r (act (wrote core_text) c)

status_asked :
    (e : Event) (q r : List Event) (c : Conn)
    → api from_api_resp (codes "sofia") (codes "status" ∷ []) (ready q (e ∷ r) c)
      ≡ done (answer_of (reply_result e), ready q r (act (wrote status_text) c))
unfolding api command_text
status_asked e q r c =
    send-ready from_api_resp (codes "api sofia") (codes "status" ∷ []) q (e ∷ r) c
    ∙ await_api_resp-ready e q r (act (wrote status_text) c)

-- Behind a reply that is no error, or one that is.
die-none :
    (x : Bytes × Option Err) (s : Bytes) (k : Bytes → M Greeted) (c : Conn)
    → x ≡ (s, none)
    → die (answer_of x) k c ≡ k s c
unfolding die
die-none x s k c h = ap (λ y. die (answer_of y) k c) h

die-some :
    (x : Bytes × Option Err) (s : Bytes) (err : Err) (k : Bytes → M Greeted) (c : Conn)
    → x ≡ (s, some err)
    → die (answer_of x) k c ≡ (close >>= λ _. pure (died err)) c
unfolding die
die-some x s err k c h = ap (λ y. die (answer_of y) k c) h

ask_status-ready :
    (core raw : Bytes) (es : List SofiaEntry) (e : Event) (q r : List Event) (c : Conn)
    → reply_result e ≡ (raw, none)
    → sofia_status raw ≡ done es
    → ask_status from_api_resp core (ready q (e ∷ r) c)
      ≡ done (shows core es, ready q r (act (wrote status_text) c))
unfolding ask_status read_entries
ask_status-ready core raw es e q r c h t =
    let k : Bytes → M Greeted = λ s. read_entries core (sofia_status s) in
    let c' = ready q r (act (wrote status_text) c) in
    ap (λ o. then_run o (λ x. die x k)) (status_asked e q r c)
    ∙ die-none (reply_result e) raw k c' h
    ∙ ap (λ o. read_entries core o c') t

ask_core-ready :
    (core : Bytes) (e : Event) (q r : List Event) (c : Conn)
    → reply_result e ≡ (core, none)
    → ask_core from_api_resp from_api_resp (ready q (e ∷ r) c)
      ≡ ask_status from_api_resp core (ready q r (act (wrote core_text) c))
unfolding ask_core
ask_core-ready core e q r c h =
    ap (λ o. then_run o (λ x. die x (ask_status from_api_resp))) (core_asked e q r c)
    ∙ die-none (reply_result e) core (ask_status from_api_resp)
        (ready q r (act (wrote core_text) c)) h

ask_core-error :
    (raw : Bytes) (err : Err) (e : Event) (q r : List Event) (c : Conn)
    → reply_result e ≡ (raw, some err)
    → ask_core from_api_resp from_api_resp (ready q (e ∷ r) c)
      ≡ (close >>= λ _. pure (died err)) (ready q r (act (wrote core_text) c))
unfolding ask_core
ask_core-error raw err e q r c h =
    ap (λ o. then_run o (λ x. die x (ask_status from_api_resp))) (core_asked e q r c)
    ∙ die-some (reply_result e) raw err (ask_status from_api_resp)
        (ready q r (act (wrote core_text) c)) h

-- OnConnect, where the reply to its first command is no error.
logged :
    (level name x : Bytes) (e : Event) (q r : List Event) (c : Conn)
    → Fslog.to_string (fslog_string2_level level) ≡ done name
    → reply_result e ≡ (x, none)
    → on_connect level from_cmd_reply from_api_resp from_api_resp (ready (e ∷ q) r c)
      ≡ ask_core from_api_resp from_api_resp (ready q r (act (wrote (log_text name)) c))
unfolding on_connect after_fslog must_of
logged level name x e q r c t h =
    ap (λ o. then_run o (after_fslog from_api_resp from_api_resp))
      (fslog-ready (fslog_string2_level level) name e q r c t)
    ∙ ap
        (λ y.
          after_fslog from_api_resp from_api_resp (must_of (answer_of y))
            (ready q r (act (wrote (log_text name)) c)))
        h

-- On a connection whose calls succeed, with replies that are no errors, the last of which is a status of
-- sofia with a table, OnConnect sends three commands, in this order: the level of the log lines, by the
-- name of the level that its flag means, whatever text that is, then the questions for the core and for
-- the status. It shows the core that the server gave and the rows of the table, in their order.
pub on_connect-shows :
    (level x core : Bytes) (e0 e1 e2 : Event) (front : List Bytes) (u : Bytes) (rs : List Row)
    (v rest : Bytes) (q r : List Event) (c : Conn)
    → reply_result e0 ≡ (x, none)
    → reply_result e1 ≡ (core, none)
    → reply_result e2 ≡ (unlines (table_lines front u rs v) ++ rest, none)
    → All IsLine (table_lines front u rs v)
    → All IsContent front
    → All IsRow rs
    → (name : Bytes) × (Fslog.to_string (fslog_string2_level level) ≡ done name)
      × (on_connect level from_cmd_reply from_api_resp from_api_resp
            (ready (e0 ∷ q) (e1 ∷ e2 ∷ r) c)
          ≡ done (
            shows core (map row_entry rs),
            ready q r (writing_all (log_text name ∷ core_text ∷ status_text ∷ []) c),
          ))
unfolding writing_all
on_connect-shows level x core e0 e1 e2 front u rs v rest q r c h0 h1 h2 hl hf hr =
    let (name, t) = to_string-fslog_string2_level level in
    let c1 = act (wrote (log_text name)) c in
    let c2 = act (wrote core_text) c1 in
    (
      name,
      t,
      logged level name x e0 q (e1 ∷ e2 ∷ r) c t h0
          ∙ ask_core-ready core e1 q (e2 ∷ r) c1 h1
          ∙ ask_status-ready core _ (map row_entry rs) e2 q r c2 h2
              (sofia_status-table front u rs v rest hl hf hr),
    )

-- On such a connection, where the reply to the question for the core is an error, OnConnect closes the
-- connection and ends the process with that error, and the status is not asked for.
pub on_connect-died :
    (level x raw : Bytes) (err : Err) (e0 e1 : Event) (q r : List Event) (c : Conn)
    → reply_result e0 ≡ (x, none)
    → reply_result e1 ≡ (raw, some err)
    → (name : Bytes) × (Fslog.to_string (fslog_string2_level level) ≡ done name)
      × (on_connect level from_cmd_reply from_api_resp from_api_resp (ready (e0 ∷ q) (e1 ∷ r) c)
          ≡ (close >>= λ _. pure (died err))
              (ready q r (writing_all (log_text name ∷ core_text ∷ []) c)))
unfolding writing_all
on_connect-died level x raw err e0 e1 q r c h0 h1 =
    let (name, t) = to_string-fslog_string2_level level in
    (
      name,
      t,
      logged level name x e0 q (e1 ∷ r) c t h0
          ∙ ask_core-error raw err e1 q r (act (wrote (log_text name)) c) h1,
    )
