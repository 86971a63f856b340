-- ===== src/Fslog.antt =====
-- fslog.go: the levels of FreeSWITCH's log lines.
pub mod Levels
use goesl.Base.{
  ℕ, zero, suc, ◌+◌, List, [], ◌∷◌, Bytes, codes, Option, none, some, get_elem?, if◌then◌else◌,
}
use goesl.Base.Int.{ℤ, pos, negsuc, ltb_ℤ, is_neg}
use goesl.Base.Outcome.{Outcome, done, panic, index_range}
use goesl.Text.{equal_fold}
use goesl.Text.Number.{Parsed, parsed, bad_syntax, out_of_range, atoi}

-- FslogLevel is an int; these are its named values.
abbrev pub level_debug : ℤ
level_debug = pos 7

abbrev pub level_invalid : ℤ
level_invalid = pos 64

abbrev pub fslog_level_strings : List Bytes
fslog_level_strings =
    codes "DISABLE"
    ∷ codes "CONSOLE"
    ∷ codes "ALERT"
    ∷ codes "CRIT"
    ∷ codes "ERR"
    ∷ codes "WARNING"
    ∷ codes "NOTICE"
    ∷ codes "INFO"
    ∷ codes "DEBUG"
    ∷ []

-- x - 1 for an index x.
abbrev pub below_one : ℕ → ℤ
below_one zero = negsuc 0
below_one (suc x) = pos x

-- The loop over the table from index `x` on.
find_level : Bytes → ℕ → List Bytes → ℤ
find_level s x [] = level_invalid
find_level s x (name ∷ names) =
    let rest = find_level s (suc x) names in if equal_fold name s then below_one x else rest

level_of_int : ℤ → ℤ
level_of_int x = if ltb_ℤ level_invalid x then pos 63 else if is_neg x then pos 0 else x

level_of : Bytes → Parsed → ℤ
unfolding find_level level_of_int
level_of s (parsed x) = level_of_int x
level_of s _ = find_level s 0 fslog_level_strings

unfoldable pub fslog_string2_level : Bytes → ℤ
unfolding level_of
fslog_string2_level s = level_of s (atoi s)

-- `fslogLevelStrings[i+1]`.
level_string : ℤ → Option Bytes
level_string (pos n) = get_elem? fslog_level_strings (suc n)
level_string (negsuc zero) = get_elem? fslog_level_strings zero
level_string (negsuc (suc n)) = none

indexed : Option Bytes → Outcome Bytes
indexed none = panic index_range
indexed (some s) = done s

-- FslogLevel.String: debug levels above DEBUG print as DEBUG.
unfoldable pub to_string : ℤ → Outcome Bytes
unfolding level_string indexed
to_string lv = indexed (level_string (if ltb_ℤ level_debug lv then level_debug else lv))
