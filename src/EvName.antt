-- ===== src/EvName.antt =====
-- ev_name: the names of FreeSWITCH's events, and the code that enumer generates for them.
mod Tables
mod Entries
mod Names
pub mod Lookup
pub mod Classes
use goesl.Base.{
  ℕ, zero, suc, ◌+◌, ◌-◌, Bool, true, false, ◌&&◌, ◌||◌, List, [], ◌∷◌, ◌++◌, Option, none, some,
  Bytes, codes, same, get_elem?, length, take, drop, map, if◌then◌else◌,
}
use goesl.Base.Int.{ℤ, pos, negsuc, is_neg, eqb_ℤ, leb_ℤ}
use goesl.Text.{to_lower}
use goesl.Text.Number.{format_int}
unfoldable pub use Tables.{event_name_name, event_name_lower_name, event_name_index}
pub use Entries.{Entry}
unfoldable pub use Entries.{value_entries, name_bounds}
unfoldable pub use Names.{event_names}

-- EventName is an int.
abbrev pub EventName : Type 0
EventName = ℤ

abbrev pub custom : EventName
custom = pos 0

abbrev pub channel_create : EventName
channel_create = pos 2

abbrev pub channel_uuid : EventName
channel_uuid = pos 22

abbrev pub codec : EventName
codec = pos 45

abbrev pub heartbeat : EventName
heartbeat = pos 50

abbrev pub record_start : EventName
record_start = pos 74

abbrev pub record_stop : EventName
record_stop = pos 75

abbrev pub playback_start : EventName
playback_start = pos 76

abbrev pub playback_stop : EventName
playback_stop = pos 77

abbrev pub call_update : EventName
call_update = pos 78

abbrev pub media_bug_start : EventName
media_bug_start = pos 81

abbrev pub media_bug_stop : EventName
media_bug_stop = pos 82

-- `table[lo:hi]` of a string constant.
abbrev pub cut : Bytes → ℕ → ℕ → Bytes
cut table lo hi = take (hi - lo) (drop lo table)

-- `_EventNameName[_EventNameIndex[i]:_EventNameIndex[i+1]]`; both indices exist where it is used.
cut_between : Option ℕ → Option ℕ → Bytes
cut_between (some lo) (some hi) = cut event_name_name lo hi
cut_between _ _ = []

name_at : ℕ → Bytes
unfolding cut_between
name_at i = cut_between (get_elem? event_name_index i) (get_elem? event_name_index (suc i))

out_of_enum : EventName → Bytes
out_of_enum i = codes "EventName(" ++ (format_int i ++ codes ")")

unfoldable pub to_string : EventName → Bytes
unfolding name_at out_of_enum
to_string (negsuc n) = out_of_enum (negsuc n)
to_string (pos n) =
    if leb_ℤ (pos (length event_name_index - 1)) (pos n) then out_of_enum (pos n) else name_at n

-- A look-up in `_EventNameNameToValueMap`.
unfoldable pub find_value : Bytes → List Entry → Option EventName
find_value s [] = none
find_value s (e ∷ es) =
    let rest = find_value s es in
    if same s (cut event_name_name e.lo e.hi) || same s (cut event_name_lower_name e.lo e.hi)
    then some (pos e.value)
    else rest

-- `none` is the error; the value returned beside it is 0.
or_lower : Bytes → Option EventName → Option EventName
or_lower s (some v) = some v
or_lower s none = find_value (to_lower s) value_entries

unfoldable pub event_name_string : Bytes → Option EventName
unfolding or_lower
event_name_string s = or_lower s (find_value s value_entries)

-- `_EventNameValues`, each constant by its value.
unfoldable pub event_name_values : List EventName
event_name_values =
    pos 0
    ∷ pos 1
    ∷ pos 2
    ∷ pos 3
    ∷ pos 4
    ∷ pos 5
    ∷ pos 6
    ∷ pos 7
    ∷ pos 8
    ∷ pos 9
    ∷ pos 10
    ∷ pos 11
    ∷ pos 12
    ∷ pos 13
    ∷ pos 14
    ∷ pos 15
    ∷ pos 16
    ∷ pos 17
    ∷ pos 18
    ∷ pos 19
    ∷ pos 20
    ∷ pos 21
    ∷ pos 22
    ∷ pos 23
    ∷ pos 24
    ∷ pos 25
    ∷ pos 26
    ∷ pos 27
    ∷ pos 28
    ∷ pos 29
    ∷ pos 30
    ∷ pos 31
    ∷ pos 32
    ∷ pos 33
    ∷ pos 34
    ∷ pos 35
    ∷ pos 36
    ∷ pos 37
    ∷ pos 38
    ∷ pos 39
    ∷ pos 40
    ∷ pos 41
    ∷ pos 42
    ∷ pos 43
    ∷ pos 44
    ∷ pos 45
    ∷ pos 46
    ∷ pos 47
    ∷ pos 48
    ∷ pos 49
    ∷ pos 50
    ∷ pos 51
    ∷ pos 52
    ∷ pos 53
    ∷ pos 54
    ∷ pos 55
    ∷ pos 56
    ∷ pos 57
    ∷ pos 58
    ∷ pos 59
    ∷ pos 60
    ∷ pos 61
    ∷ pos 62
    ∷ pos 63
    ∷ pos 64
    ∷ pos 65
    ∷ pos 66
    ∷ pos 67
    ∷ pos 68
    ∷ pos 69
    ∷ pos 70
    ∷ pos 71
    ∷ pos 72
    ∷ pos 73
    ∷ pos 74
    ∷ pos 75
    ∷ pos 76
    ∷ pos 77
    ∷ pos 78
    ∷ pos 79
    ∷ pos 80
    ∷ pos 81
    ∷ pos 82
    ∷ pos 83
    ∷ pos 84
    ∷ pos 85
    ∷ pos 86
    ∷ pos 87
    ∷ pos 88
    ∷ pos 89
    ∷ []

unfoldable pub event_name_strings : List Bytes
event_name_strings = map (λ b. cut event_name_name b.0 b.1) name_bounds

is_value : EventName → List EventName → Bool
is_value i [] = false
is_value i (v ∷ vs) = eqb_ℤ i v || is_value i vs

unfoldable pub is_a_event_name : EventName → Bool
unfolding is_value event_name_values
is_a_event_name i = is_value i event_name_values

-- The cases of the switch have empty bodies, so each of them ends in the `return true` behind it.
unfoldable pub is_channel_event : EventName → Bool
is_channel_event en =
    leb_ℤ channel_create en && leb_ℤ en channel_uuid
    || eqb_ℤ en record_start
    || eqb_ℤ en record_stop
    || eqb_ℤ en playback_start
    || eqb_ℤ en playback_stop
    || eqb_ℤ en call_update
    || eqb_ℤ en media_bug_start
    || eqb_ℤ en media_bug_stop
    || eqb_ℤ en codec
