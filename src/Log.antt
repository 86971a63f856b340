-- ===== src/Log.antt =====
-- logger.go and default_logger.go: the levels and the internal logger; and what Dial sets of it.
pub mod Heard
use goesl.Base.{
  ℕ, Bool, true, false, ◌&&◌, ◌||◌, List, [], ◌∷◌, ◌++◌, Option, none, some, Bytes, codes, ◌==◌,
  get_elem?, if◌then◌else◌,
}
use goesl.Base.Int.{ℤ, pos, negsuc, leb_ℤ, ltb_ℤ, eqb_ℤ}
use goesl.Text.Number.{format_int}
use goesl.Options.{Opt, Options, Writer, new_options}

-- Level is an int; these are three of its named values.
abbrev pub level_debug : ℤ
level_debug = pos 0

abbrev pub level_info : ℤ
level_info = pos 1

abbrev pub level_fatal : ℤ
level_fatal = pos 5

strs : List Bytes
strs =
    codes "[Debug]"
    ∷ codes "[Info]"
    ∷ codes "[Notice]"
    ∷ codes "[Warn]"
    ∷ codes "[Error]"
    ∷ codes "[Fatal]"
    ∷ []

out_of_levels : ℤ → Bytes
out_of_levels lv = codes "[?" ++ format_int lv ++ codes "] "

known_or : ℤ → Option Bytes → Bytes
unfolding out_of_levels
known_or lv (some s) = s
known_or lv none = out_of_levels lv

-- Level.String; the table has a name for each level from LevelDebug to LevelFatal, and no other.
unfoldable pub level_text : ℤ → Bytes
unfolding strs known_or
level_text (pos n) = known_or (pos n) (get_elem? strs n)
level_text (negsuc n) = known_or (negsuc n) none

-- os.Stdout and os.Stderr.
abbrev pub stdout : Writer
stdout = 0

abbrev pub stderr : Writer
stderr = 1

-- What is given to the logger of the standard library, which puts the time and the place behind the
-- prefix.
pub record Line : Type 0 where
  pub output : Writer
  pub prefix : Bytes
  pub text : Bytes

-- defaultLoggerType, with what has been written.
pub record DefaultLogger : Type 0 where
  pub level : ℤ
  pub console : Bool
  pub prefix : Bytes
  pub output : Writer
  pub lines : List Line

pub escape : Bytes → Bytes
escape s = 27 ∷ (codes "[" ++ s ++ codes "m")

-- `s` between the escape sequences of a colour and of its end.
pub colored : Bytes → Bytes → Bytes
unfolding escape
colored color s = escape color ++ s ++ escape (codes "0")

-- The state before Dial.
abbrev default_logger : DefaultLogger
default_logger = record {
  level = level_info;
  console = true;
  prefix = colored (codes "1;34") (codes "<goesl>") ++ codes " ";
  output = stdout;
  lines = [];
}

set_level : ℤ → DefaultLogger → DefaultLogger
set_level lv l = record l { level = lv }

unfoldable pub is_terminal : Writer → Bool
is_terminal w = w == stderr || w == stdout

set_output : Writer → DefaultLogger → DefaultLogger
unfolding is_terminal
set_output w l =
    if is_terminal w then record l { output = w } else record l { output = w; console = false }

set_prefix : Bytes → DefaultLogger → DefaultLogger
unfolding colored
set_prefix s l =
    if l.console
    then record l { prefix = colored (codes "1;34") s ++ codes " " }
    else record l { prefix = s ++ codes " " }

-- colorFormats, from LevelDebug on; a level without a colour has the empty format.
level_colors : List Bytes
level_colors =
    codes "1;33" ∷ codes "1;32" ∷ codes "1;36" ∷ codes "1;35" ∷ codes "1;31" ∷ codes "1;31" ∷ []

color_formats : ℤ → Option Bytes
unfolding level_colors
color_formats (pos n) = get_elem? level_colors n
color_formats (negsuc n) = none

-- fmt.Sprintf of the format with one string; a format that has no verb for it says so in its result.
sprintf_color : Option Bytes → Bytes → Bytes
unfolding colored
sprintf_color (some color) s = colored color s
sprintf_color none s = codes "%!(EXTRA string=" ++ s ++ codes ")"

unfoldable pub color_level_str : Bool → ℤ → Bytes
unfolding color_formats sprintf_color
color_level_str console lv =
    if console then sprintf_color (color_formats lv) (level_text lv) else level_text lv

pub line_of : DefaultLogger → ℤ → Bytes → Line
line_of l lv message = record {
  output = l.output;
  prefix = l.prefix;
  text = color_level_str l.console lv ++ codes " " ++ message;
}

-- logf, with the message that its format gives; and whether it ends the process.
logf : ℤ → Bytes → DefaultLogger → Bool × DefaultLogger
unfolding line_of
logf lv message l =
    if ltb_ℤ lv l.level
    then (false, l)
    else (eqb_ℤ lv level_fatal, record l { lines = l.lines ++ line_of l lv message ∷ [] })

-- The methods of a Logger.
pub data Method : Type 0 where
  debugf infof noticef warnf errorf fatalf : Method

-- The level that each method, and each function of the package, calls logf with.
abbrev pub method_level : Method → ℤ
method_level debugf = pos 0
method_level infof = level_info
method_level noticef = pos 2
method_level warnf = pos 3
method_level errorf = pos 4
method_level fatalf = level_fatal

pub call : Method → Bytes → DefaultLogger → Bool × DefaultLogger
unfolding logf
call m message l = logf (method_level m) message l

-- The part of Dial that sets the internal logger.
set_output_of : Option Writer → DefaultLogger → DefaultLogger
unfolding set_output
set_output_of none l = l
set_output_of (some w) l = set_output w l

set_prefix_of : Bytes → DefaultLogger → DefaultLogger
unfolding set_prefix
set_prefix_of [] l = l
set_prefix_of (c ∷ cs) l = set_prefix (c ∷ cs) l

abbrev set_from : Options → DefaultLogger → DefaultLogger
set_from opts l = set_prefix_of opts.log_prefix (set_output_of opts.log_output l)

-- Dial with these options: WithLogLevel sets the level at once, Dial the rest.
unfoldable pub dial_logger : List Opt → DefaultLogger → DefaultLogger
unfolding set_level set_output_of set_prefix_of
dial_logger os l = let s = new_options l.level os in set_from s.opts (set_level s.level l)
