-- ===== src/EvName/Classes.antt =====
-- The prints of the event names, which numbers are event names, and which are channel events.
use goesl.Base.{
  ℕ, ◌<◌, ◌≡◌, ◌↔◌, ◌∙◌, refl, Bool, true, false, not, ◌&&◌, ◌||◌, List, [], ◌∷◌, Bytes, codes,
  arith, same, same_iff, Option, none, some, map, get_elem?, holds_up_to, holds_up_to-true, All,
  if◌then◌else◌, Bool-cases, inl, inr,
}
use goesl.Base.Int.{pos, negsuc, eqb_ℤ, eqb_ℤ→eq}
use goesl.Text.{has_prefix, lower_byte}
use goesl.Text.Laws.{IsAscii}
use goesl.EvName.{
  EventName, to_string, event_name_name, event_name_index, event_name_strings, name_bounds,
  event_names, event_name_values, event_name_string, is_value, is_a_event_name, is_channel_event,
}
use goesl.EvName.Lookup.{find_name, event_name_string-find_name}

-- EventNameStrings gives the identifiers of the constants, in order.
names_agree : event_name_strings ≡ event_names
unfolding event_name_strings event_name_name name_bounds event_names
names_agree = refl

spelled : Option Bytes → Bytes → Bool
spelled none t = false
spelled (some s) t = same s t

spelled-some : (o : Option Bytes) (t : Bytes) → spelled o t ≡ true → o ≡ some t
unfolding spelled
spelled-some none t h = cc
spelled-some (some s) t h = ground (arith, same_iff s t)

abbrev spelled_at : ℕ → Bool
spelled_at i = spelled (get_elem? event_names i) (to_string (pos i))

to_string-table : holds_up_to spelled_at 90 ≡ true
unfolding holds_up_to spelled to_string event_names event_name_name event_name_index same
to_string-table = refl

-- The print of each of the 90 constants is its identifier.
pub to_string-event_names : (i : ℕ) → i < 90 → get_elem? event_names i ≡ some (to_string (pos i))
to_string-event_names i h = spelled-some _ _ (holds_up_to-true spelled_at 90 i h to_string-table)

found : Option EventName → ℕ → Bool
found none i = false
found (some v) i = eqb_ℤ v (pos i)

found-some : (o : Option EventName) (i : ℕ) → found o i ≡ true → o ≡ some (pos i)
unfolding found
found-some o i h = ground arith

abbrev found_at : ℕ → Bool
found_at i = found (find_name (map lower_byte (to_string (pos i))) 0 event_names) i

find_name-table : holds_up_to found_at 90 ≡ true
unfolding holds_up_to found find_name lower_byte to_string event_names event_name_name
    event_name_index same
find_name-table = refl

-- Each of the 90 constants is read back from its print, in any mixture of upper and lower case.
pub event_name_string-to_string :
    (i : ℕ) (s : Bytes)
    → i < 90
    → IsAscii s
    → map lower_byte s ≡ map lower_byte (to_string (pos i))
    → event_name_string s ≡ some (pos i)
event_name_string-to_string i s h a e =
    event_name_string-find_name s a
    ∙ rw e (found-some _ i (holds_up_to-true found_at 90 i h find_name-table))

-- The numbers of the constants.
abbrev pub InEnum : EventName → Type 0
InEnum (pos n) = n < 90
InEnum (negsuc n) = ⊥

is_value-InEnum :
    (i : EventName) (vs : List EventName) → All InEnum vs → is_value i vs ≡ true → InEnum i
unfolding is_value
is_value-InEnum i [] ps h = cc
is_value-InEnum i (v ∷ vs) (p, ps) h = elim (Bool-cases (eqb_ℤ i v)) [
  | inl e ↦ rw (eqb_ℤ→eq i v e) p
  | inr e ↦ is_value-InEnum i vs ps (rw e at h)
]

is_a-table : holds_up_to (λ i. is_a_event_name (pos i)) 90 ≡ true
unfolding holds_up_to is_a_event_name
is_a-table = refl

values-InEnum : All InEnum event_name_values
unfolding event_name_values
values-InEnum = omega arith

-- IsAEventName holds of the numbers from 0 to 89, and of no other, negative ones included.
pub is_a_event_name-InEnum : (i : EventName) → (is_a_event_name i ≡ true) ↔ InEnum i
is_a_event_name-InEnum (pos n) = (
  unfold is_a_event_name in is_value-InEnum (pos n) event_name_values values-InEnum,
  λ h. holds_up_to-true (λ i. is_a_event_name (pos i)) 90 n h is_a-table,
)
is_a_event_name-InEnum (negsuc n) = (
  unfold is_a_event_name in is_value-InEnum (negsuc n) event_name_values values-InEnum,
  λ h. absurd h,
)

one_of : Bytes → List Bytes → Bool
one_of s [] = false
one_of s (t ∷ ts) = same s t || one_of s ts

-- A name of the form CHANNEL_…, but for CHANNEL_DATA, or one of eight others.
pub channel_name : Bytes → Bool
channel_name s =
    has_prefix s (codes "CHANNEL_") && not (same s (codes "CHANNEL_DATA"))
    || one_of s (
        codes "RECORD_START"
        ∷ codes "RECORD_STOP"
        ∷ codes "PLAYBACK_START"
        ∷ codes "PLAYBACK_STOP"
        ∷ codes "CALL_UPDATE"
        ∷ codes "MEDIA_BUG_START"
        ∷ codes "MEDIA_BUG_STOP"
        ∷ codes "CODEC"
        ∷ [])

abbrev alike : Bool → Bool → Bool
alike a b = if a then b else not b

alike-eq : (a b : Bool) → alike a b ≡ true → a ≡ b
alike-eq a b h = ground arith

abbrev classed_at : ℕ → Bool
classed_at i = alike (is_channel_event (pos i)) (channel_name (to_string (pos i)))

is_channel-table : holds_up_to classed_at 90 ≡ true
unfolding holds_up_to is_channel_event channel_name one_of has_prefix to_string event_name_name
    event_name_index same
is_channel-table = refl

-- Of the 90 constants, those count as channel events that are named CHANNEL_… but for CHANNEL_DATA,
-- and RECORD_START, RECORD_STOP, PLAYBACK_START, PLAYBACK_STOP, CALL_UPDATE, MEDIA_BUG_START,
-- MEDIA_BUG_STOP and CODEC.
pub is_channel_event-channel_name :
    (i : ℕ) → i < 90 → is_channel_event (pos i) ≡ channel_name (to_string (pos i))
is_channel_event-channel_name i h =
    alike-eq _ _ (holds_up_to-true classed_at 90 i h is_channel-table)
