-- ===== src/EventGenerator/Frames.antt =====
-- examples/event_generator/main.go: the texts of the server, as frames.
use goesl.Base.{
  ℕ, ◌≡◌, ◌≢◌, refl, Bool, true, ◌&&◌, left_true, right_true, not, List, [], ◌∷◌, ◌++◌, All, Bytes,
  codes, arith, ◌==◌, same, same_iff,
}
use goesl.Text.{contains_byte}
use goesl.Mime.{all_token, token_byte, trim_left, trim_right}
use goesl.Mime.Frame.{IsField, Plain, print_fields, field_text}
use goesl.Recv.Frames.{Frame, print_frame}
use goesl.EventGenerator.{auth_request, auth_reply, heartbeat, plain_reply}

abbrev pub heartbeat_fields : List (Bytes × Bytes)
heartbeat_fields =
    (codes "Event-Name", codes "HEARTBEAT")
    ∷ (codes "Core-UUID", codes "3f531e10-0b35-4f5a-abdc-0f6c058095a5")
    ∷ (codes "FreeSWITCH-Hostname", codes "sza92131")
    ∷ (codes "FreeSWITCH-Switchname", codes "sza92131")
    ∷ (codes "FreeSWITCH-IPv4", codes "10.132.92.131")
    ∷ (codes "FreeSWITCH-IPv6", codes "::1")
    ∷ (codes "Event-Date-Local", codes "2022-03-23 16:27:45")
    ∷ (codes "Event-Date-GMT", codes "Wed, 23 Mar 2022 08:27:45 GMT")
    ∷ (codes "Event-Date-Timestamp", codes "1648024065289541")
    ∷ (codes "Event-Calling-File", codes "switch_core.c")
    ∷ (codes "Event-Calling-Function", codes "send_heartbeat")
    ∷ (codes "Event-Calling-Line-Number", codes "81")
    ∷ (codes "Event-Sequence", codes "57728710")
    ∷ (codes "Event-Info", codes "System Ready")
    ∷ (
      codes "Up-Time",
      codes "0 years, 78 days, 2 hours, 11 minutes, 40 seconds, 201 milliseconds, 301 microseconds",
    )
    ∷ (codes "FreeSWITCH-Version", codes "1.10.5-release+git~20200818T185121Z~25569c1631~64bit")
    ∷ (codes "Uptime-msec", codes "6747100201")
    ∷ (codes "Session-Count", codes "39")
    ∷ (codes "Max-Sessions", codes "2000")
    ∷ (codes "Session-Per-Sec", codes "399")
    ∷ (codes "Session-Per-Sec-Last", codes "7")
    ∷ (codes "Session-Per-Sec-Max", codes "169")
    ∷ (codes "Session-Per-Sec-FiveMin", codes "12")
    ∷ (codes "Session-Since-Startup", codes "1862025")
    ∷ (codes "Session-Peak-Max", codes "358")
    ∷ (codes "Session-Peak-FiveMin", codes "73")
    ∷ (codes "Idle-CPU", codes "99.233333")
    ∷ []

-- Whether a field can be printed.
unfoldable pub plain_bytes : Bytes → Bool
plain_bytes [] = true
plain_bytes (c ∷ s) = (not (c == b'\n') && not (c == b'\r')) && plain_bytes s

unfoldable pub can_print_key : Bytes → Bool
can_print_key k = all_token k && not (same k [])

unfoldable pub can_print_value : Bytes → Bool
unfolding plain_bytes
can_print_value v = plain_bytes v && (same (trim_left v) v && same (trim_right v) v)

unfoldable pub can_print : Bytes × Bytes → Bool
unfolding can_print_key can_print_value
can_print (k, v) = can_print_key k && can_print_value v

unfoldable pub can_print_all : List (Bytes × Bytes) → Bool
can_print_all [] = true
can_print_all (f ∷ fs) = can_print f && can_print_all fs

plain_bytes-Plain : (s : Bytes) → plain_bytes s ≡ true → Plain s
unfolding plain_bytes
plain_bytes-Plain [] h = tt
plain_bytes-Plain (c ∷ s) h =
    let inner = left_true (not (c == b'\n') && not (c == b'\r')) (plain_bytes s) h in
    (
      other c inner,
      plain_bytes-Plain s (right_true (not (c == b'\n') && not (c == b'\r')) (plain_bytes s) h),
    )
  where
    other : (c : ℕ) → (not (c == b'\n') && not (c == b'\r')) ≡ true → (c ≢ b'\n') × (c ≢ b'\r')
    other c h = ground arith

some_key : (k : Bytes) → not (same k []) ≡ true → k ≢ []
unfolding same
some_key [] h = cc
some_key (c ∷ k) h = λ e. cc

can_print-IsField : (f : Bytes × Bytes) → can_print f ≡ true → IsField f
unfolding can_print can_print_key can_print_value
can_print-IsField (k, v) h =
    let key = left_true (can_print_key k) (can_print_value v) h in
    let value = right_true (can_print_key k) (can_print_value v) h in
    let trimmed =
      right_true (plain_bytes v) (same (trim_left v) v && same (trim_right v) v) value in
    record {
      key_token = left_true (all_token k) (not (same k [])) key;
      key_ne_nil = some_key k (right_true (all_token k) (not (same k [])) key);
      value_plain = plain_bytes-Plain v (left_true (plain_bytes v) _ value);
      value_left = (same_iff (trim_left v) v).0 (left_true (same (trim_left v) v) _ trimmed);
      value_right = (same_iff (trim_right v) v).0 (right_true (same (trim_left v) v) _ trimmed);
    }

pub can_print_all-All : (fs : List (Bytes × Bytes)) → can_print_all fs ≡ true → All IsField fs
unfolding can_print_all
can_print_all-All [] h = tt
can_print_all-All (f ∷ fs) h = (
  can_print-IsField f (left_true (can_print f) (can_print_all fs) h),
  can_print_all-All fs (right_true (can_print f) (can_print_all fs) h),
)

pub heartbeat_fields-All : All IsField heartbeat_fields
unfolding all_token token_byte trim_left trim_right same contains_byte can_print_all can_print
    can_print_key can_print_value plain_bytes
heartbeat_fields-All = can_print_all-All heartbeat_fields refl

abbrev pub request_frame : Frame
request_frame = record {
  crlf = true;
  fields = (codes "Content-Type", codes "auth/request") ∷ [];
  body = [];
}

-- A reply with this text.
abbrev reply_frame : Bytes → Frame
reply_frame t = record {
  crlf = true;
  fields = (codes "Content-Type", codes "command/reply") ∷ (codes "Reply-Text", t) ∷ [];
  body = [];
}

abbrev pub auth_frame : Frame
auth_frame = reply_frame (codes "+OK accepted")

abbrev pub plain_frame : Frame
plain_frame = reply_frame (codes "+OK")

abbrev pub heartbeat_frame : Frame
heartbeat_frame = record {
  crlf = true;
  fields =
      (codes "Content-Length", codes "914") ∷ (codes "Content-Type", codes "text/event-plain") ∷ [];
  body = print_fields true heartbeat_fields [];
}

pub auth_request-print_frame : (s : Bytes) → auth_request ++ s ≡ print_frame request_frame s
unfolding auth_request print_frame print_fields field_text
auth_request-print_frame s = refl

pub auth_reply-print_frame : (s : Bytes) → auth_reply ++ s ≡ print_frame auth_frame s
unfolding auth_reply print_frame print_fields field_text
auth_reply-print_frame s = refl

pub plain_reply-print_frame : (s : Bytes) → plain_reply ++ s ≡ print_frame plain_frame s
unfolding plain_reply print_frame print_fields field_text
plain_reply-print_frame s = refl

pub heartbeat-print_frame : (s : Bytes) → heartbeat ++ s ≡ print_frame heartbeat_frame s
unfolding heartbeat print_frame print_fields field_text
heartbeat-print_frame s = refl
