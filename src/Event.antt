-- ===== src/Event.antt =====
-- event.go: events, and what is read out of them.
pub mod Fields
pub mod Get
pub mod Body
pub mod Reply
use goesl.Base.{
  ℕ, suc, ◌+◌, ◌-◌, ◌%◌, ◌^◌, Bool, true, false, ◌||◌, List, [], ◌∷◌, ◌++◌, Option, none, some,
  Bytes, codes, length, drop, leb, ltb, ◌==◌, same, if◌then◌else◌, ◌≡◌, refl,
}
use goesl.Base.Int.{ℤ, pos, negsuc}
use goesl.Base.Outcome.{Outcome, done, panic, ◌>>=◌}
use goesl.Text.{trim_space, slice, has_prefix}
use goesl.Text.Number.{Parsed, parsed, bad_syntax, out_of_range, atoi}
use goesl.Text.Query.{query_unescape}
use goesl.Mime.{Header, header_get, Got, Problem, input_ended, malformed, read_mime_header}
use goesl.Errors.{Err, net, eof, wrap, mime_malformed, message}
use goesl.EvName.{EventName, event_name_string, custom}
use goesl.EvHeader.{text}
use goesl.EvHeader
use goesl.Fslog.{fslog_string2_level}

pub record MimeMap : Type 0 where
  pub headers : Header
  pub escaped : Bool

abbrev pub or_empty : Option Bytes → Bytes
or_empty none = []
or_empty (some s) = s

-- mimeMap.get; text that cannot be unescaped is empty.
unfoldable pub mime_get : MimeMap → Bytes → Bytes
mime_get m key =
    let val = header_get m.headers key in if m.escaped then or_empty (query_unescape val) else val

unfoldable pub mime_get_raw : MimeMap → Bytes → Bytes
mime_get_raw m key = header_get m.headers key

join_values : List Bytes → Bytes
join_values [] = []
join_values (v ∷ []) = v
join_values (v ∷ w ∷ vs) = v ++ (b',' ∷ join_values (w ∷ vs))

mime_lines : Bool → Header → Bytes
mime_lines escaped [] = []
mime_lines escaped ((k, vs) ∷ m) =
    let val = join_values vs in
    let shown = if escaped then or_empty (query_unescape val) else val in
    k ++ (b':' ∷ b' ' ∷ shown ++ (b'\n' ∷ mime_lines escaped m))

-- mimeMap.String, for the order in which the map is gone through: without the last line feed.
unfoldable pub mime_string : MimeMap → Outcome Bytes
unfolding mime_lines join_values
mime_string m =
    let s = mime_lines m.escaped m.headers in
    slice s (pos 0) (if length s == 0 then negsuc 0 else pos (length s - 1))

pub data EventType : Type 0 where
  event_invalid event_state event_connect event_auth event_command_reply : EventType
  event_api_response event_disconnect event_log event_generic : EventType

pub record Event : Type 0 where
  pub header : MimeMap
  pub body : MimeMap
  pub raw_body : Bytes
  pub type : EventType

abbrev pub no_headers : MimeMap
no_headers = record { headers = []; escaped = false }

-- Event.Get: from the body, or from the header where the body gives nothing.
unfoldable pub get : Event → Bytes → Bytes
unfolding mime_get
get e header =
    let val = mime_get e.body header in if same val [] then mime_get e.header header else val

-- Event.GetRaw, with the `get` that its second look-up calls.
unfoldable pub get_raw : Event → Bytes → Bytes
unfolding mime_get mime_get_raw
get_raw e header =
    let val = mime_get_raw e.body header in if same val [] then mime_get e.header header else val

-- len - b in an int.
abbrev pub minus : ℕ → ℤ → ℤ
minus len (pos b) = if leb b len then pos (len - b) else negsuc (b - len - 1)
minus len (negsuc b) = pos (len + suc b)

-- `string(e.rawBody[blen-bblen : blen-1])`, or nothing where the length is no number.
inner_body : Bytes → Parsed → Outcome Bytes
inner_body raw (parsed bblen) = slice raw (minus (length raw) bblen) (minus (length raw) (pos 1))
inner_body raw _ = done []

unfoldable pub is_text_type : EventType → Bool
is_text_type event_api_response = true
is_text_type event_log = true
is_text_type _ = false

unfoldable pub get_text_body : Event → Outcome Bytes
unfolding inner_body is_text_type
get_text_body e =
    let slen = mime_get e.body (codes "Content-Length") in
    if is_text_type e.type
    then done (trim_space e.raw_body)
    else if same slen []
    then done []
    else inner_body e.raw_body (atoi slen)

is_generic : EventType → Bool
is_generic event_generic = true
is_generic _ = false

unfoldable pub event_content : Event → Bytes
unfolding is_generic
event_content e = if is_generic e.type then e.raw_body else []

abbrev pub problem_err : Problem → Err
problem_err input_ended = net eof
problem_err (malformed line) = mime_malformed line

abbrev pub parse_text_body_text : Bytes
parse_text_body_text = codes "parse text body: "

-- Event.parseTextBody: the body read as headers. The body ends as a file ends.
parsed_body : Event → Header → Option Problem → Event × Option Err
parsed_body e m none = (record e { body = record { headers = m; escaped = true } }, none)
parsed_body e m (some p) = (
  record e { body = record e.body { headers = m } },
  some (wrap parse_text_body_text (problem_err p)),
)

unfoldable pub parse_text_body : Event → Event × Option Err
unfolding parsed_body
parse_text_body e = let got = read_mime_header e.raw_body in parsed_body e got.header got.problem

-- The type of an event is not changed by parsing its body.
pub parse_text_body-type : (e : Event) → (parse_text_body e).0.type ≡ e.type
unfolding parse_text_body
parse_text_body-type e =
    let got = read_mime_header e.raw_body in
    elim got.problem as (λ p. (parsed_body e got.header p).0.type ≡ e.type) [
      | none ↦ refl
      | some p ↦ refl
    ]

-- The raw reply, and the error that it stands for.
err_or_res_of : Bytes → Bytes × Option Err
err_or_res_of raw =
    if ltb (length raw) 6
    then (raw, none)
    else if has_prefix raw (codes "-ERR ")
    then (raw, some (message (drop 5 raw)))
    else (raw, none)

raw_result : EventType → Event → Outcome (Option Bytes)
raw_result event_command_reply e = done (some (get e (codes "Reply-Text")))
raw_result event_api_response e = do raw ← get_text_body e; done (some raw)
raw_result _ e = done none

unfoldable pub err_or_res : Event → Outcome (Bytes × Option Err)
unfolding err_or_res_of raw_result
err_or_res e = do
  raw ← raw_result e.type e
  elim raw [ none ↦ done ([], none) | some r ↦ done (err_or_res_of r) ]
