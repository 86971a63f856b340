-- ===== src/Options.antt =====
-- option.go: the options of a connection. An `Option` of the source is a function on `Options`;
-- here it is one constructor for each of the functions that make it, with `apply_one` as its `f`.
pub mod Ranges
pub mod Logging
use goesl.Base.{
  ℕ, ◌*◌, Bool, true, false, ◌&&◌, ◌||◌, List, [], ◌∷◌, Option, none, some, Bytes, not,
  if◌then◌else◌,
}
use goesl.Base.Int.{ℤ, pos, negsuc, leb_ℤ, ltb_ℤ}
use goesl.Redo.{Duration, second, millisecond, DefaultRedoStrategy, Strategy, default_redo}

-- The internal logger, or one of the caller's (told apart by a number).
pub data Logger : Type 0 where
  default_logger : Logger
  user_logger : ℕ → Logger

abbrev pub is_default : Logger → Bool
is_default default_logger = true
is_default (user_logger _) = false

-- An io.Writer, told apart by a number.
abbrev pub Writer : Type 0
Writer = ℕ

pub record Options : Type 0 where
  pub logger : Logger
  pub redial_strategy : Option Strategy
  pub log_output : Option Writer
  pub log_prefix : Bytes
  pub max_retries : ℤ
  pub dial_timeout : Duration
  pub heartbeat : Duration
  pub net_delay : Duration
  pub send_reply_cap : ℤ
  pub auto_redial : Bool

-- What the options write to: the record, and the level of the internal logger, which is global.
pub record Settings : Type 0 where
  pub opts : Options
  pub level : ℤ

pub data Opt : Type 0 where
  with_auto_redial : Option Strategy → Opt
  with_default_auto_redial : Opt
  with_logger : Logger → Opt
  with_max_retries : ℤ → Opt
  with_dial_timeout : Duration → Opt
  with_heart_beat : Duration → Opt
  with_net_delay : Duration → Opt
  with_send_reply_cap : ℤ → Opt
  with_log_level : ℤ → Opt
  with_log_output : Writer → Opt
  with_log_prefix : Bytes → Opt

set_auto_redial : Option Strategy → Settings → Settings
set_auto_redial strategy s = record s {
  opts = record s.opts { auto_redial = true; redial_strategy = strategy };
}

set_max_retries : ℤ → Settings → Settings
set_max_retries n s =
    if leb_ℤ n (pos 0) || ltb_ℤ (pos 100) n
    then s
    else record s { opts = record s.opts { max_retries = n } }

-- `t.Milliseconds() >= 100 && t.Seconds() <= 10`: the first is truncated to an integer, and the
-- second exceeds 10 as soon as `t` does, by a nanosecond or more.
set_net_delay : Duration → Settings → Settings
set_net_delay t s =
    if leb_ℤ (pos (100 * millisecond)) t && leb_ℤ t (pos (10 * second))
    then record s { opts = record s.opts { net_delay = t } }
    else s

set_send_reply_cap : ℤ → Settings → Settings
set_send_reply_cap n s =
    if leb_ℤ n (pos 0) || ltb_ℤ (pos 500) n
    then s
    else record s { opts = record s.opts { send_reply_cap = n } }

set_log_level : ℤ → Settings → Settings
set_log_level lv s = if not (is_default s.opts.logger) then s else record s { level = lv }

set_log_output : Writer → Settings → Settings
set_log_output w s =
    if not (is_default s.opts.logger)
    then s
    else record s { opts = record s.opts { log_output = some w } }

set_log_prefix : Bytes → Settings → Settings
set_log_prefix p s =
    if not (is_default s.opts.logger)
    then s
    else record s { opts = record s.opts { log_prefix = p } }

unfoldable pub apply_one : Opt → Settings → Settings
unfolding set_auto_redial set_max_retries set_net_delay set_send_reply_cap set_log_level
    set_log_output set_log_prefix
apply_one (with_auto_redial strategy) s = set_auto_redial strategy s
apply_one with_default_auto_redial s =
    set_auto_redial (some (default_redo (record { redo_waited = [] }))) s
apply_one (with_logger l) s = record s { opts = record s.opts { logger = l } }
apply_one (with_max_retries n) s = set_max_retries n s
apply_one (with_dial_timeout t) s = record s { opts = record s.opts { dial_timeout = t } }
apply_one (with_heart_beat t) s = record s { opts = record s.opts { heartbeat = t } }
apply_one (with_net_delay t) s = set_net_delay t s
apply_one (with_send_reply_cap n) s = set_send_reply_cap n s
apply_one (with_log_level lv) s = set_log_level lv s
apply_one (with_log_output w) s = set_log_output w s
apply_one (with_log_prefix p) s = set_log_prefix p s

unfoldable pub apply : List Opt → Settings → Settings
apply [] s = s
apply (o ∷ os) s = apply os (apply_one o s)

abbrev pub defaults : Options
defaults = record {
  logger = default_logger;
  redial_strategy = none;
  log_output = none;
  log_prefix = [];
  max_retries = negsuc 0;
  dial_timeout = pos (3 * second);
  heartbeat = pos (20 * second);
  net_delay = pos (2 * second);
  send_reply_cap = pos 20;
  auto_redial = false;
}

-- newOptions, started at the level that the internal logger has.
unfoldable pub new_options : ℤ → List Opt → Settings
unfolding apply
new_options level os = apply os (record { opts = defaults; level = level })
