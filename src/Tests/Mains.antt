-- ===== src/Tests/Mains.antt =====
-- Runs of the examples: fs_cli redials, and its OnConnect; the client of event_generator is served.
use goesl.Base.{◌≡◌, refl, true, false, List, [], ◌∷◌, ◌++◌, map, some, none, codes, Bytes, same}
use goesl.Base.Int.{pos}
use goesl.Base.Outcome.{done}
use goesl.Text.{trim_space, has_prefix}
use goesl.Errors.{eof, broken_pipe, canceled}
use goesl.Event.{
  Event, event_command_reply, event_generic, err_or_res, get, mime_get, get_text_body, no_headers,
}
use goesl.Mime.{canonical, header_get, values, add}
use goesl.Fslog
use goesl.Fslog.{fslog_string2_level}
use goesl.Options.{new_options}
use goesl.Conn.{Conn, failed, opened, dialed}
use goesl.Conn.Send.{from_cmd_reply, from_api_resp}
use goesl.Conn.Send.Ready.{ready, reply_result, writing_all, log_text}
use goesl.Conn.Dial.{reached, dial_times, new_conn}
use goesl.Conn.Dial.Waits.{backoff}
use goesl.FsCli.Words.{spread}
use goesl.FsCli.Main.{main_options, shows, on_connect}
use goesl.FsCli.Main.Redialing.{dial_times-unlimited}
use goesl.FsCli.Main.Greeting.{core_text, status_text, on_connect-shows}
use goesl.FsCli.Table.{unlines, table_lines, row_entry, starts_rule}
use goesl.Text.Query.{query_unescape}
use goesl.Recv.Frames.{frame_event}
use goesl.Event.Get.{first_field, get-parse_text_body}
use goesl.Conn.Loop.Delivery.{plain_event}
use goesl.Conn.Loop.Session.{Session}
use goesl.Conn.Loop.Session.Serving.{Deed, reads, takes}
use goesl.EventGenerator.Frames.{heartbeat_frame, heartbeat_fields, heartbeat_fields-All}
use goesl.Tests.Conns.{socket_of}
use goesl.Tests.Loop.{at_work}
use goesl.Tests.Shell.{text_reply}
use goesl.Tests.Tables.{front, rule, behind, internal, table_lines-IsLine, internal-IsRow}

abbrev client : Conn
client =
    new_conn (new_options (pos 1) (main_options (some 7))).opts (codes "ClueCon") (socket_of [])
      (failed eof ∷ failed broken_pipe ∷ opened (socket_of []) ∷ [])

dial_times-unlimited_example :
    (c' : Conn) × (dial_times true client ≡ done (reached, c'))
    × (c'.log ≡ ([] ++ backoff 0 2) ++ dialed ∷ [])
    × (c'.opts.redial_strategy ≡ client.opts.redial_strategy)
    × (c'.sock ≡ socket_of [])
    × (c'.present ≡ true)
    × (c'.dials ≡ [])
dial_times-unlimited_example =
    dial_times-unlimited (pos 1) (some 7) client (eof ∷ broken_pipe ∷ []) (socket_of []) [] refl
      refl

-- The reply to the level of the log lines.
abbrev accepted_log : Event
accepted_log = record {
  header = record {
    headers = add (codes "Reply-Text") (codes "+OK log level") [];
    escaped = false;
  };
  body = no_headers;
  raw_body = [];
  type = event_command_reply;
}

log_reply : reply_result accepted_log ≡ (codes "+OK log level", none)
unfolding reply_result err_or_res has_prefix get mime_get header_get values canonical add same
log_reply = refl

core_reply : reply_result (text_reply (codes "c0re\n")) ≡ (codes "c0re", none)
unfolding reply_result err_or_res get_text_body trim_space has_prefix
core_reply = refl

abbrev status_reply : Event
status_reply =
    text_reply (codes "  " ++ (unlines (table_lines front rule (internal ∷ []) rule) ++ behind))

abbrev status_raw : Bytes
status_raw = unlines (table_lines front rule (internal ∷ []) rule) ++ codes "1 profile"

status_result : reply_result status_reply ≡ (status_raw, none)
unfolding reply_result err_or_res get_text_body trim_space has_prefix spread unlines
status_result = refl

on_connect-shows_example :
    (name : Bytes) × (Fslog.to_string (fslog_string2_level (codes "debug")) ≡ done name)
    × (on_connect
          (codes "debug")
          from_cmd_reply
          from_api_resp
          from_api_resp
          (ready (accepted_log ∷ []) (text_reply (codes "c0re\n") ∷ status_reply ∷ []) at_work)
        ≡ done (
          shows (codes "c0re") (map row_entry (internal ∷ [])),
          ready [] [] (writing_all (log_text name ∷ core_text ∷ status_text ∷ []) at_work),
        ))
unfolding starts_rule
on_connect-shows_example =
    on_connect-shows (codes "debug") (codes "+OK log level") (codes "c0re") accepted_log
      (text_reply (codes "c0re\n")) status_reply front rule (internal ∷ []) rule (codes "1 profile")
      [] [] at_work log_reply core_reply status_result table_lines-IsLine (refl, tt)
      (internal-IsRow, tt)

abbrev deeds : List Deed
deeds = reads none none ∷ takes 0 ∷ reads none (some canceled) ∷ takes 0 ∷ []

-- The name of a heartbeat.
heartbeat_named : get (plain_event heartbeat_frame) (codes "Event-Name") ≡ codes "HEARTBEAT"
unfolding first_field canonical same query_unescape
heartbeat_named =
    (get-parse_text_body (record (frame_event heartbeat_frame) { type = event_generic }) true
      heartbeat_fields [] (codes "Event-Name") refl heartbeat_fields-All).1
