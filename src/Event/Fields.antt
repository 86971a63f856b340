-- ===== src/Event/Fields.antt =====
-- The helpers of event.go that read one header or two of an event, and Event2Fslog of fslog.go.
use goesl.Base.{ℕ, suc, ◌-◌, ◌%◌, ◌^◌, Option, none, some, [], Bytes, codes}
use goesl.Base.Int.{ℤ, pos, negsuc}
use goesl.Base.Outcome.{Outcome, done, ◌>>=◌}
use goesl.Text.Number.{Parsed, parsed, atoi, value_of}
use goesl.Errors.{Err, message, not_a_number}
use goesl.EvName.{EventName, event_name_string, custom}
use goesl.EvHeader
use goesl.EvHeader.{text}
use goesl.Fslog.{fslog_string2_level}
use goesl.Event.{Event, EventType, event_log, get, get_text_body}

or_custom : Option EventName → EventName
or_custom none = custom
or_custom (some en) = en

-- Event.Name: CUSTOM where the header names no event.
unfoldable pub name : Event → EventName
unfolding or_custom
name e = or_custom (event_name_string (get e (text EvHeader.event_name)))

-- FireTime(ft): an int64 read as a uint64.
as_uint64 : ℤ → ℕ
as_uint64 (pos n) = n % 2 ^ 64
as_uint64 (negsuc n) = 2 ^ 64 - suc n

fire_time_of : Parsed → ℕ
unfolding as_uint64
fire_time_of (parsed i) = as_uint64 i
fire_time_of _ = 0

unfoldable pub fire_time : Event → ℕ
unfolding fire_time_of
fire_time e = fire_time_of (atoi (get e (text EvHeader.event_date_timestamp)))

unfoldable pub bg_job_response : Event → Outcome Bytes
bg_job_response e = get_text_body e

unfoldable pub core_uuid : Event → Bytes
core_uuid e = get e (text EvHeader.core_uuid)

unfoldable pub uuid : Event → Bytes
uuid e = get e (text EvHeader.unique_id)

unfoldable pub app : Event → Bytes × Bytes
app e = (get e (text EvHeader.application_data), get e (text EvHeader.application_data))

unfoldable pub api : Event → Bytes × Bytes
api e = (get e (text EvHeader.api_command), get e (text EvHeader.api_command_argument))

unfoldable pub current_app : Event → Bytes × Bytes
current_app e = (get e (text EvHeader.current_app), get e (text EvHeader.current_app_data))

unfoldable pub digits : Event → Bytes
digits e = get e (text EvHeader.dtmf_digit)

unfoldable pub digits_source : Event → Bytes
digits_source e = get e (text EvHeader.dtmf_source)

unfoldable pub call_direction : Event → Bytes
call_direction e = get e (text EvHeader.call_direction)

unfoldable pub caller : Event → Bytes
caller e = get e (text EvHeader.caller_id_number)

unfoldable pub callee : Event → Bytes
callee e = get e (text EvHeader.callee_destination_number)

unfoldable pub sequence : Event → Bytes
sequence e = get e (text EvHeader.event_sequence)

unfoldable pub sip_from : Event → Bytes
sip_from e = get e (text EvHeader.sip_from_host)

unfoldable pub sip_to : Event → Bytes
sip_to e = get e (text EvHeader.sip_to_host)

unfoldable pub core_network_addr : Event → Bytes
core_network_addr e = get e (text EvHeader.caller_network_addr)

unfoldable pub core_ip : Event → Bytes
core_ip e = get e (text EvHeader.freeswitch_ipv4)

unfoldable pub bg_job : Event → Bytes
bg_job e = get e (text EvHeader.bg_job_uuid)

unfoldable pub bg_command : Event → Bytes × Bytes
bg_command e = (get e (text EvHeader.bg_job_command), get e (text EvHeader.bg_job_command_arg))

-- fslog.go
pub record Fslog : Type 0 where
  pub content : Bytes
  pub file : Bytes
  pub user_data : Bytes
  pub func : Bytes
  pub line : ℤ
  pub level : ℤ

abbrev pub no_fslog : Fslog
no_fslog = record {
  content = [];
  file = [];
  user_data = [];
  func = [];
  line = pos 0;
  level = pos 0;
}

number_err : Bytes → Parsed → Option Err
number_err s (parsed _) = none
number_err s _ = some (not_a_number s)

log_fields : Event → Outcome (Fslog × Option Err)
unfolding number_err
log_fields e = do
  content ← get_text_body e
  let line = atoi (get e (codes "Log-Line"))
  done (
    record {
      content = content;
      file = get e (codes "Log-File");
      user_data = get e (codes "User-Data");
      func = get e (codes "Log-Func");
      line = value_of line;
      level = fslog_string2_level (get e (codes "Log-Level"));
    },
    number_err (get e (codes "Log-Line")) line,
  )

event2_fslog_as : EventType → Event → Outcome (Fslog × Option Err)
unfolding log_fields
event2_fslog_as event_log e = log_fields e
event2_fslog_as _ e = done (no_fslog, some (message (codes "not a FreeSWITCH log event")))

unfoldable pub event2_fslog : Event → Outcome (Fslog × Option Err)
unfolding event2_fslog_as
event2_fslog e = event2_fslog_as e.type e
