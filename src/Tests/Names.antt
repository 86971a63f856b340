-- ===== src/Tests/Names.antt =====
-- Runs of the options, the redial strategy, the levels and the names of events.
use goesl.Base.{◌≡◌, ◌*◌, ◌^◌, min, refl, List, [], ◌∷◌, codes, some, arith, map}
use goesl.Base.Int.{pos}
use goesl.Text.{lower_byte}
use goesl.Redo.{DefaultRedoStrategy, next_redo_wait, reset, second, wait_ceiling}
use goesl.Redo.Backoff.{after, next_redo_wait_exact}
use goesl.Options.{
  Opt, Settings, with_default_auto_redial, with_max_retries, with_net_delay, defaults, new_options,
}
use goesl.Options.Ranges.{InRange, new_options-InRange}
use goesl.EvName.{event_name_string, event_names, is_a_event_name, is_channel_event}
use goesl.EvName
use goesl.EvName.Lookup.{find_name, event_name_string-find_name}
use goesl.EvName.Classes.{event_name_string-to_string}

abbrev waited_twice : DefaultRedoStrategy
waited_twice = record { redo_waited = 1 ∷ 2 ∷ [] }

next_redo_wait_exact_example :
    (next_redo_wait (after 3 (reset waited_twice))).0 ≡ min (2 ^ 3 * second) wait_ceiling
next_redo_wait_exact_example = next_redo_wait_exact waited_twice 3

abbrev some_options : List Opt
some_options = with_max_retries (pos 101) ∷ with_default_auto_redial ∷ with_net_delay (pos 5) ∷ []

new_options-InRange_example : InRange (new_options (pos 0) some_options).opts
new_options-InRange_example = new_options-InRange (pos 0) some_options

abbrev limited : Settings
limited = record { opts = record defaults { max_retries = pos 3 }; level = pos 0 }

event_name_string-find_name_example :
    event_name_string (codes "channel_Answer")
    ≡ find_name (map lower_byte (codes "channel_Answer")) 0 event_names
event_name_string-find_name_example =
    event_name_string-find_name (codes "channel_Answer") (omega arith)

event_name_string-to_string_example : event_name_string (codes "heartBEAT") ≡ some (pos 50)
unfolding EvName.to_string lower_byte EvName.event_name_index EvName.event_name_name
event_name_string-to_string_example =
    event_name_string-to_string 50 (codes "heartBEAT") (omega arith) (omega arith) refl
