-- ===== src/Mime.antt =====
-- textproto.MIMEHeader and ReadMIMEHeader, which event.go and connection.go read headers with, as
-- the Go release named in go.mod (1.19) has them.
pub mod Canonical
pub mod Frame
use goesl.Base.{
  ℕ, ◌+◌, ◌-◌, Bool, true, false, not, ◌&&◌, ◌||◌, List, [], ◌∷◌, ◌++◌, Option, none, some, Bytes,
  codes, leb, ◌==◌, same, if◌then◌else◌,
}
use goesl.Text.{within, is_digit, contains_byte}

-- The map from canonical keys to values, in the order in which the keys came.
abbrev pub Header : Type 0
Header = List (Bytes × List Bytes)

-- validHeaderFieldByte: the bytes of a token.
unfoldable pub token_byte : ℕ → Bool
token_byte c =
    is_digit c
    || within b'a' b'z' c
    || within b'A' b'Z' c
    || contains_byte c (codes "!#$%&'*+-.^_`|~")

unfoldable pub all_token : Bytes → Bool
all_token [] = true
all_token (c ∷ s) = token_byte c && all_token s

-- Upper case at the start and behind a dash, lower case elsewhere.
unfoldable pub case_byte : Bool → ℕ → ℕ
case_byte true c = if within b'a' b'z' c then c - 32 else c
case_byte false c = if within b'A' b'Z' c then c + 32 else c

unfoldable pub recase : Bool → Bytes → Bytes
recase upper [] = []
recase upper (c ∷ s) = case_byte upper c ∷ recase (c == b'-') s

-- CanonicalMIMEHeaderKey; a key that is no token stays as it is.
unfoldable pub canonical : Bytes → Bytes
unfolding all_token token_byte contains_byte recase case_byte
canonical s = if all_token s then recase true s else s

unfoldable pub values : Bytes → Header → List Bytes
values k [] = []
values k ((j, vs) ∷ m) = if same j k then vs else values k m

abbrev pub first_or : List Bytes → Bytes → Bytes
first_or [] d = d
first_or (v ∷ vs) d = v

-- MIMEHeader.Get
unfoldable pub header_get : Header → Bytes → Bytes
header_get m key = first_or (values (canonical key) m) []

unfoldable pub add : Bytes → Bytes → Header → Header
add k v [] = (k, v ∷ []) ∷ []
add k v ((j, vs) ∷ m) = if same j k then (j, vs ++ v ∷ []) ∷ m else (j, vs) ∷ add k v m

-- A line of the input, whether a line feed ended it, and the input behind it.
pub record Line : Type 0 where
  pub text : Bytes
  pub ended : Bool
  pub rest : Bytes

-- Leaves out one carriage return at the end.
unfoldable pub chomp : Bytes → Bytes
chomp [] = []
chomp (c ∷ []) = if c == b'\r' then [] else c ∷ []
chomp (c ∷ d ∷ s) = c ∷ chomp (d ∷ s)

last_line : Bytes → List Line
last_line [] = []
last_line (c ∷ s) = record { text = c ∷ s; ended = false; rest = [] } ∷ []

-- bufio's ReadLine, call after call, with what the current line has so far.
unfoldable pub lines_from : Bytes → Bytes → List Line
unfolding last_line
lines_from cur [] = last_line cur
lines_from cur (c ∷ s) =
    let fresh = lines_from [] s in
    let longer = lines_from (cur ++ c ∷ []) s in
    if c == b'\n' then record { text = chomp cur; ended = true; rest = s } ∷ fresh else longer

abbrev pub is_blank : ℕ → Bool
is_blank c = c == b' ' || c == b'\t'

unfoldable pub trim_left : Bytes → Bytes
trim_left [] = []
trim_left (c ∷ s) = let rest = trim_left s in if is_blank c then rest else c ∷ s

abbrev pub keep_right : ℕ → Bytes → Bytes
keep_right c [] = if is_blank c then [] else c ∷ []
keep_right c (d ∷ s) = c ∷ d ∷ s

unfoldable pub trim_right : Bytes → Bytes
trim_right [] = []
trim_right (c ∷ s) = keep_right c (trim_right s)

-- Spaces and tabs at both ends.
unfoldable pub trim : Bytes → Bytes
unfolding trim_left trim_right
trim s = trim_right (trim_left s)

unfoldable pub starts_blank : Bytes → Bool
starts_blank [] = false
starts_blank (c ∷ s) = is_blank c

-- The text before the first colon, and behind it.
unfoldable pub cut_colon : Bytes → Bytes × Bytes
cut_colon [] = ([], [])
cut_colon (c ∷ s) = let (k, v) = cut_colon s in if c == b':' then ([], s) else (c ∷ k, v)

add_key : Bytes → Bytes → Header → Header
add_key [] v m = m
add_key (c ∷ k) v m = add (c ∷ k) v m

-- One line with its continuations; an empty key is left out.
unfoldable pub add_line : Bytes → Header → Header
unfolding add_key
add_line kv m = let (k, v) = cut_colon kv in add_key (canonical k) (trim_left v) m

flush : Option Bytes → Header → Header
unfolding add_line
flush none m = m
flush (some kv) m = add_line kv m

-- A last line of blanks that the input ends in adds nothing.
extension : Line → Bytes
extension l = if l.ended || not (same (trim_left l.text) []) then b' ' ∷ trim l.text else []

pub data Problem : Type 0 where
  input_ended : Problem
  malformed : Bytes → Problem

pub record Got : Type 0 where
  pub header : Header
  pub problem : Option Problem
  pub rest : Bytes

abbrev is_some : Option Bytes → Bool
is_some none = false
is_some (some _) = true

append_to : Option Bytes → Bytes → Option Bytes
append_to none t = none
append_to (some s) t = some (s ++ t)

-- The loop of ReadMIMEHeader; the second argument is the line that may yet be continued.
unfoldable pub headers_from : Header → Option Bytes → List Line → Got
unfolding flush extension append_to
headers_from m pending [] = record {
  header = flush pending m;
  problem = some input_ended;
  rest = [];
}
headers_from m pending (l ∷ ls) =
    let continued = headers_from m (append_to pending (extension l)) ls in
    let m' = flush pending m in
    let next = headers_from m' (some (trim l.text)) ls in
    if is_some pending && starts_blank l.text
    then continued
    else if starts_blank l.text
    then record { header = m'; problem = some (malformed l.text); rest = l.rest }
    else if same l.text []
    then record { header = m'; problem = none; rest = l.rest }
    else if not (contains_byte b':' l.text)
    then record { header = m'; problem = some (malformed l.text); rest = l.rest }
    else next

-- ReadMIMEHeader on the bytes that are there before the input ends.
unfoldable pub read_mime_header : Bytes → Got
unfolding headers_from lines_from
read_mime_header s = headers_from [] none (lines_from [] s)
