-- ===== src/EvName/Lookup.antt =====
-- EventNameString of ev_name/eventname_enumer.go against the constants of ev_name/ename.go.
use goesl.Base.{
  ℕ, suc, ◌≡◌, refl, ap, ◌∙◌, Bool, true, false, ◌&&◌, ◌||◌, List, [], ◌∷◌, Bytes, arith, same,
  same_iff, ◌==◌, Option, none, some, map, if◌then◌else◌, Bool-cases, Option-cases, inl, inr, sym,
  ◌⊎◌,
}
use goesl.Base.Int.{pos, negsuc}
use goesl.Text.{lower_byte, to_lower}
use goesl.Text.Laws.{IsAscii, to_lower-IsAscii, lower_idem}
use goesl.EvName.{
  EventName, Entry, cut, event_name_name, event_name_lower_name, event_names, value_entries,
  find_value, event_name_string,
}

-- The value of the constant whose identifier, in lower case, is `l`; the list starts at value `i`.
unfoldable pub find_name : Bytes → ℕ → List Bytes → Option EventName
find_name l i [] = none
find_name l i (n ∷ ns) =
    let rest = find_name l (suc i) ns in if same l (map lower_byte n) then some (pos i) else rest

-- A look-up with two keys for each constant.
find_both : Bytes → ℕ → List Bytes → Option EventName
find_both s i [] = none
find_both s i (n ∷ ns) =
    let rest = find_both s (suc i) ns in
    if same s n || same s (map lower_byte n) then some (pos i) else rest

aligned : ℕ → List Entry → List Bytes → Bool
aligned i [] [] = true
aligned i (e ∷ es) (n ∷ ns) =
    same (cut event_name_name e.lo e.hi) n
    && same (cut event_name_lower_name e.lo e.hi) (map lower_byte n)
    && e.value == i
    && aligned (suc i) es ns
aligned _ _ _ = false

find_value-find_both :
    (s : Bytes) (i : ℕ) (es : List Entry) (ns : List Bytes)
    → aligned i es ns ≡ true
    → find_value s es ≡ find_both s i ns
unfolding aligned find_value find_both
find_value-find_both s i [] [] h = refl
find_value-find_both s i (e ∷ es) (n ∷ ns) h = ground (
  arith,
  find_value-find_both s (suc i) es ns,
  same_iff (cut event_name_name e.lo e.hi) n,
  same_iff (cut event_name_lower_name e.lo e.hi) (map lower_byte n),
)
find_value-find_both s i [] (n ∷ ns) h = absurd (ground arith)
find_value-find_both s i (e ∷ es) [] h = absurd (ground arith)

-- The map of the generated code has the identifiers, as they are and in lower case, as its keys.
value_entries-aligned : aligned 0 value_entries event_names ≡ true
unfolding aligned value_entries event_names event_name_name event_name_lower_name lower_byte same
value_entries-aligned = refl

find_value-event_names : (s : Bytes) → find_value s value_entries ≡ find_both s 0 event_names
find_value-event_names s = find_value-find_both s 0 value_entries event_names value_entries-aligned

-- Each of `ns`, the constants from value `i` on, is the first of `all` with its letters.
unique : List Bytes → ℕ → List Bytes → Bool
unique all i [] = true
unique all i (n ∷ ns) = elim (find_name (map lower_byte n) 0 all) [
  | none ↦ false
  | some (pos j) ↦ j == i && unique all (suc i) ns
  | some (negsuc j) ↦ false
]

event_names-unique : unique event_names 0 event_names ≡ true
unfolding unique event_names find_name lower_byte same
event_names-unique = refl

same_but_case :
    (s n : Bytes)
    → (same s n || same s (map lower_byte n)) ≡ true
    → map lower_byte s ≡ map lower_byte n
same_but_case s n h = elim (Bool-cases (same s n)) [
  | inl e ↦ ap (map lower_byte) ((same_iff s n).0 e)
  | inr e ↦
      let lowered : s ≡ map lower_byte n = (same_iff s (map lower_byte n)).0 (rw e at h) in
      rw lowered (lower_idem n)
]

module _ (all : List Bytes) where
  unique-cons :
      (i : ℕ) (n : Bytes) (ns : List Bytes)
      → unique all i (n ∷ ns) ≡ true
      → (find_name (map lower_byte n) 0 all ≡ some (pos i)) × (unique all (suc i) ns ≡ true)
  unfolding unique
  unique-cons i n ns h = ground arith

  find_both-some :
      (s : Bytes) (i : ℕ) (ns : List Bytes) {v : EventName}
      → unique all i ns ≡ true
      → find_both s i ns ≡ some v
      → find_name (map lower_byte s) 0 all ≡ some v
  unfolding find_both
  find_both-some s i [] u h = cc
  find_both-some s i (n ∷ ns) {v} u h =
      let (here, later) = unique-cons i n ns u in
      elim (Bool-cases (same s n || same s (map lower_byte n))) [
        | inl e ↦
            let found : some (pos i) ≡ some v = rw e at h in rw (same_but_case s n e) (here ∙ found)
        | inr e ↦ find_both-some s (suc i) ns later (rw e at h)
      ]

find_both-none :
    (l : Bytes) (i : ℕ) (ns : List Bytes) → find_both l i ns ≡ none → find_name l i ns ≡ none
unfolding find_both find_name
find_both-none l i [] h = refl
find_both-none l i (n ∷ ns) h = ground (arith, find_both-none l (suc i) ns)

-- On ASCII text EventNameString finds exactly the constant whose identifier differs from the text
-- by nothing but upper and lower case, and reports an error where there is none.
pub event_name_string-find_name :
    (s : Bytes) → IsAscii s → event_name_string s ≡ find_name (map lower_byte s) 0 event_names
unfolding event_name_string
event_name_string-find_name s h = elim (Option-cases (find_both s 0 event_names)) [
  | inl missed ↦ rw (find_value-event_names s, missed) (in_lower (Option-cases _))
  | inr (v, found) ↦
      rw (find_value-event_names s, found)
        (sym (find_both-some event_names s 0 event_names event_names-unique found))
]
  where
    l : Bytes
    l = map lower_byte s

    in_lower :
        (find_both l 0 event_names ≡ none)
          ⊎ ((v : EventName) × (find_both l 0 event_names ≡ some v))
        → find_value (to_lower s) value_entries ≡ find_name l 0 event_names
    in_lower (inl missed) =
        rw (to_lower-IsAscii s h, find_value-event_names l, missed)
          (sym (find_both-none l 0 event_names missed))
    in_lower (inr (v, found)) =
        rw (to_lower-IsAscii s h, find_value-event_names l, found)
          (sym (
            rw lower_idem at (find_both-some event_names l 0 event_names event_names-unique found)))
