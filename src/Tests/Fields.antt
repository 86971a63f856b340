-- ===== src/Tests/Fields.antt =====
-- The header fields that the runs use.
use goesl.Base.{refl, Bytes, codes, arith}
use goesl.Text.{contains_byte}
use goesl.Mime.{all_token, token_byte, trim_left, trim_right}
use goesl.Mime.Frame.{IsField}

abbrev pub type_api : Bytes × Bytes
type_api = (codes "Content-Type", codes "api/response")

pub type_api-IsField : IsField type_api
unfolding all_token token_byte contains_byte trim_left trim_right
type_api-IsField = record {
  key_token = refl;
  key_ne_nil = cc;
  value_plain = omega arith;
  value_left = refl;
  value_right = refl;
}

abbrev pub length_three : Bytes × Bytes
length_three = (codes "Content-Length", codes "3")

pub length_three-IsField : IsField length_three
unfolding all_token token_byte contains_byte trim_left trim_right
length_three-IsField = record {
  key_token = refl;
  key_ne_nil = cc;
  value_plain = omega arith;
  value_left = refl;
  value_right = refl;
}

abbrev pub type_plain : Bytes × Bytes
type_plain = (codes "Content-Type", codes "text/event-plain")

pub type_plain-IsField : IsField type_plain
unfolding all_token token_byte contains_byte trim_left trim_right
type_plain-IsField = record {
  key_token = refl;
  key_ne_nil = cc;
  value_plain = omega arith;
  value_left = refl;
  value_right = refl;
}

abbrev pub length_negative : Bytes × Bytes
length_negative = (codes "Content-Length", codes "-1")

pub length_negative-IsField : IsField length_negative
unfolding all_token token_byte contains_byte trim_left trim_right
length_negative-IsField = record {
  key_token = refl;
  key_ne_nil = cc;
  value_plain = omega arith;
  value_left = refl;
  value_right = refl;
}

abbrev pub job_command : Bytes × Bytes
job_command = (codes "Job-Command", codes "show%20calls")

pub job_command-IsField : IsField job_command
unfolding all_token token_byte contains_byte trim_left trim_right
job_command-IsField = record {
  key_token = refl;
  key_ne_nil = cc;
  value_plain = omega arith;
  value_left = refl;
  value_right = refl;
}

abbrev pub call_command : Bytes × Bytes
call_command = (codes "call-command", codes "execute")

pub call_command-IsField : IsField call_command
unfolding all_token token_byte contains_byte trim_left trim_right
call_command-IsField = record {
  key_token = refl;
  key_ne_nil = cc;
  value_plain = omega arith;
  value_left = refl;
  value_right = refl;
}

abbrev pub app_name : Bytes × Bytes
app_name = (codes "execute-app-name", codes "playback")

pub app_name-IsField : IsField app_name
unfolding all_token token_byte contains_byte trim_left trim_right
app_name-IsField = record {
  key_token = refl;
  key_ne_nil = cc;
  value_plain = omega arith;
  value_left = refl;
  value_right = refl;
}

abbrev pub app_args : Bytes × Bytes
app_args = (codes "execute-app-args", codes "a.wav")

pub app_args-IsField : IsField app_args
unfolding all_token token_byte contains_byte trim_left trim_right
app_args-IsField = record {
  key_token = refl;
  key_ne_nil = cc;
  value_plain = omega arith;
  value_left = refl;
  value_right = refl;
}

abbrev pub event_lock : Bytes × Bytes
event_lock = (codes "event-lock", codes "true")

pub event_lock-IsField : IsField event_lock
unfolding all_token token_byte contains_byte trim_left trim_right
event_lock-IsField = record {
  key_token = refl;
  key_ne_nil = cc;
  value_plain = omega arith;
  value_left = refl;
  value_right = refl;
}

abbrev pub loops_two : Bytes × Bytes
loops_two = (codes "loops", codes "2")

pub loops_two-IsField : IsField loops_two
unfolding all_token token_byte contains_byte trim_left trim_right
loops_two-IsField = record {
  key_token = refl;
  key_ne_nil = cc;
  value_plain = omega arith;
  value_left = refl;
  value_right = refl;
}

abbrev pub type_request : Bytes × Bytes
type_request = (codes "Content-Type", codes "auth/request")

pub type_request-IsField : IsField type_request
unfolding all_token token_byte contains_byte trim_left trim_right
type_request-IsField = record {
  key_token = refl;
  key_ne_nil = cc;
  value_plain = omega arith;
  value_left = refl;
  value_right = refl;
}

abbrev pub type_reply : Bytes × Bytes
type_reply = (codes "Content-Type", codes "command/reply")

pub type_reply-IsField : IsField type_reply
unfolding all_token token_byte contains_byte trim_left trim_right
type_reply-IsField = record {
  key_token = refl;
  key_ne_nil = cc;
  value_plain = omega arith;
  value_left = refl;
  value_right = refl;
}

abbrev pub accepted : Bytes × Bytes
accepted = (codes "Reply-Text", codes "+OK accepted")

pub accepted-IsField : IsField accepted
unfolding all_token token_byte contains_byte trim_left trim_right
accepted-IsField = record {
  key_token = refl;
  key_ne_nil = cc;
  value_plain = omega arith;
  value_left = refl;
  value_right = refl;
}

abbrev pub refused : Bytes × Bytes
refused = (codes "Reply-Text", codes "-ERR 50% wrong")

pub refused-IsField : IsField refused
unfolding all_token token_byte contains_byte trim_left trim_right
refused-IsField = record {
  key_token = refl;
  key_ne_nil = cc;
  value_plain = omega arith;
  value_left = refl;
  value_right = refl;
}

abbrev pub length_six : Bytes × Bytes
length_six = (codes "Content-Length", codes "6")

pub length_six-IsField : IsField length_six
unfolding all_token token_byte contains_byte trim_left trim_right
length_six-IsField = record {
  key_token = refl;
  key_ne_nil = cc;
  value_plain = omega arith;
  value_left = refl;
  value_right = refl;
}

abbrev pub letter : Bytes × Bytes
letter = (codes "a", codes "b")

pub letter-IsField : IsField letter
unfolding all_token token_byte contains_byte trim_left trim_right
letter-IsField = record {
  key_token = refl;
  key_ne_nil = cc;
  value_plain = omega arith;
  value_left = refl;
  value_right = refl;
}
