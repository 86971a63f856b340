-- ===== src/FsCli.antt =====
-- examples/fs_cli/main.go: the reading of a status of sofia, and the print of a log line.
pub mod Shell
pub mod Main
pub mod Words
pub mod Table
use goesl.Base.{
  ℕ, zero, suc, ◌≤◌, Bool, true, false, ◌||◌, List, [], ◌∷◌, ◌++◌, Option, none, some, Bytes, codes,
  ◌==◌, leb, length, get_elem?, if◌then◌else◌,
}
use goesl.Base.Int.{ℤ, pos, negsuc}
use goesl.Base.Outcome.{Outcome, done, panic, index_range, ◌>>=◌}
use goesl.Text.{trim_space}
use goesl.Event.Fields.{Fslog}

pub record SofiaEntry : Type 0 where
  pub name : Bytes
  pub type : Bytes
  pub url : Bytes
  pub status : Bytes
  pub extra : Bytes

-- The text up to the next line end, and the pieces behind it, as bufio.ScanLines cuts them.
pub pieces : Bytes → Bytes × List Bytes
pieces [] = ([], [])
pieces (c ∷ s) = let r = pieces s in if c == b'\n' then ([], r.0 ∷ r.1) else (c ∷ r.0, r.1)

-- A line without the carriage return at its end.
unfoldable pub drop_cr : Bytes → Bytes
drop_cr [] = []
drop_cr (c ∷ []) = if c == b'\r' then [] else c ∷ []
drop_cr (c ∷ d ∷ s) = c ∷ drop_cr (d ∷ s)

-- The scanner ends at a line that its buffer of 64 KiB has no room for, and gives no line for what is
-- behind the last line end where that is empty.
pub scanned : Bytes → List Bytes → List Bytes
unfolding drop_cr
scanned [] [] = []
scanned (c ∷ p) [] = if leb (length (c ∷ p)) 65535 then drop_cr (c ∷ p) ∷ [] else []
scanned p (q ∷ qs) =
    let rest = scanned q qs in if leb (length p) 65535 then drop_cr p ∷ rest else []

unfoldable pub scan_lines : Bytes → List Bytes
unfolding pieces scanned
scan_lines s = let r = pieces s in scanned r.0 r.1

-- The class `\s` of package regexp.
abbrev pub is_space : ℕ → Bool
is_space c = c == b'\t' || c == b'\n' || c == 12 || c == b'\r' || c == b' '

starts_space : Bytes → Bool
starts_space [] = false
starts_space (c ∷ s) = is_space c

-- `reg.Split(t, -1)`: the first piece, and the others.
pub split : Bytes → Bytes × List Bytes
unfolding starts_space
split [] = ([], [])
split (c ∷ s) =
    let r = split s in
    if is_space c then (if starts_space s then r else ([], r.0 ∷ r.1)) else (c ∷ r.0, r.1)

unfoldable pub extra_of : List Bytes → Bytes
extra_of [] = []
extra_of (e ∷ es) = e

pub entry_of : Bytes × List Bytes → Outcome SofiaEntry
unfolding extra_of
entry_of (name, type ∷ url ∷ status ∷ rest) =
    done (record { name = name; type = type; url = url; status = status; extra = extra_of rest })
entry_of (name, _) = panic index_range

pub content : Bytes → Outcome SofiaEntry
unfolding split entry_of
content t = entry_of (split (trim_space t))

is_rule : ℕ → Bool
is_rule c = c == b'='

-- SofiaStatus on the lines, with its variable `start`.
pub sofia_lines : Bool → List Bytes → Outcome (List SofiaEntry)
unfolding is_rule content
sofia_lines start [] = done []
sofia_lines start ([] ∷ ts) = panic index_range
sofia_lines false ((c ∷ t) ∷ ts) =
    let started = sofia_lines true ts in
    let not_yet = sofia_lines false ts in if is_rule c then started else not_yet
sofia_lines true ((c ∷ t) ∷ ts) =
    let rest = sofia_lines true ts in
    if is_rule c then done [] else content (c ∷ t) >>= λ e. rest >>= λ es. done (e ∷ es)

unfoldable pub sofia_status : Bytes → Outcome (List SofiaEntry)
unfolding sofia_lines
sofia_status raw = sofia_lines false (scan_lines raw)

-- colorFormats, from FslogLevel_ALERT to FslogLevel_DEBUG.
fslog_colors : List Bytes
fslog_colors =
    codes "0;31"
    ∷ codes "0;31"
    ∷ codes "0;31"
    ∷ codes "0;35"
    ∷ codes "0;36"
    ∷ codes "0;32"
    ∷ codes "0;33"
    ∷ []

level_color : ℤ → Option Bytes
unfolding fslog_colors
level_color (pos (suc n)) = get_elem? fslog_colors n
level_color _ = none

in_color : Option Bytes → Bytes → Bytes
in_color none s = s ++ codes "\n\n"
in_color (some color) s = (27 ∷ codes "[") ++ color ++ codes "m" ++ s ++ (27 ∷ codes "[0m\n")

content_of : Bytes → Bytes → Bytes
content_of [] text = text
content_of (c ∷ cs) text = (c ∷ cs) ++ codes " " ++ text

-- What OnFslog prints.
unfoldable pub on_fslog_text : Fslog → Bytes
unfolding level_color in_color content_of
on_fslog_text l = in_color (level_color l.level) (content_of l.user_data l.content)
