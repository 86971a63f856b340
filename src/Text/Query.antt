-- ===== src/Text/Query.antt =====
-- url.QueryUnescape, and what FreeSWITCH sends: text with some bytes in percent form.
use goesl.Base.{
  ℕ, ◌+◌, ◌-◌, ◌*◌, ◌/◌, ◌%◌, ◌<◌, ◌≡◌, refl, Bool, false, ◌||◌, [], ◌∷◌, ◌++◌, Bytes, Option, none,
  some, All, ltb, ◌==◌, if◌then◌else◌, arith, Bool-cases, inl, inr, ◌∙◌, ap,
}
use goesl.Text.{within, is_digit}

-- A hexadecimal digit's value.
unfoldable pub hex_value : ℕ → Option ℕ
hex_value c =
    if is_digit c
    then some (c - b'0')
    else if within b'a' b'f' c
    then some (c - b'a' + 10)
    else if within b'A' b'F' c
    then some (c - b'A' + 10)
    else none

abbrev cons_to : ℕ → Option Bytes → Option Bytes
cons_to c none = none
cons_to c (some s) = some (c ∷ s)

-- What stands before the rest: nothing, a `%`, or a `%` and one digit.
pub data Pending : Type 0 where
  plain percent : Pending
  half : ℕ → Pending

start_escape : Option ℕ → Pending
start_escape none = percent
start_escape (some d) = half d

unescape_from : Pending → Bytes → Option Bytes
unescape_from plain [] = some []
unescape_from plain (c ∷ s) =
    let escape = unescape_from percent s in
    let blank = unescape_from plain s in
    if c == b'%' then escape else cons_to (if c == b'+' then b' ' else c) blank
unescape_from percent [] = none
unescape_from percent (c ∷ s) = elim (hex_value c) [
  | none ↦ none
  | some d ↦ unescape_from (half d) s
]
unescape_from (half d) [] = none
unescape_from (half d) (c ∷ s) = elim (hex_value c) [
  | none ↦ none
  | some e ↦ cons_to (d * 16 + e) (unescape_from plain s)
]

-- `none` is an error; the text returned beside it is empty.
unfoldable pub query_unescape : Bytes → Option Bytes
unfolding unescape_from hex_value
query_unescape s = unescape_from plain s

abbrev hex_digit : ℕ → ℕ
hex_digit d = if ltb d 10 then b'0' + d else b'A' + d - 10

-- Every byte for which `must` holds, and every `%` and `+`, is written as `%XX`.
pub percent_encode : (ℕ → Bool) → Bytes → Bytes
percent_encode must [] = []
percent_encode must (c ∷ s) =
    let rest = percent_encode must s in
    if c == b'%' || c == b'+' || must c
    then b'%' ∷ hex_digit (c / 16) ∷ hex_digit (c % 16) ∷ rest
    else c ∷ rest

hex_value-hex_digit : (d : ℕ) → d < 16 → hex_value (hex_digit d) ≡ some d
unfolding hex_value
hex_value-hex_digit d h = ground arith

percent_step :
    (c d e : ℕ) (b : ℕ) (s : Bytes)
    → hex_value c ≡ some d
    → hex_value b ≡ some e
    → unescape_from plain (b'%' ∷ c ∷ b ∷ s) ≡ cons_to (d * 16 + e) (unescape_from plain s)
unfolding unescape_from
percent_step c d e b s h k = ground arith

unescape_pair :
    (c : ℕ) (s : Bytes)
    → c < 256
    → unescape_from plain (b'%' ∷ hex_digit (c / 16) ∷ hex_digit (c % 16) ∷ s)
      ≡ cons_to c (unescape_from plain s)
unescape_pair c s h =
    percent_step _ (c / 16) (c % 16) _ s (hex_value-hex_digit (c / 16) (omega arith))
      (hex_value-hex_digit (c % 16) (omega arith))
    ∙ ap (λ k. cons_to k (unescape_from plain s)) (omega arith)

unescape_plain :
    (c : ℕ) (s : Bytes) (m : Bool)
    → (c == b'%' || c == b'+' || m) ≡ false
    → unescape_from plain (c ∷ s) ≡ cons_to c (unescape_from plain s)
unfolding unescape_from
unescape_plain c s m h = ground arith

unescape-percent_encode :
    (must : ℕ → Bool) (s : Bytes)
    → All (λ c. c < 256) s
    → unescape_from plain (percent_encode must s) ≡ some s
unfolding percent_encode
unescape-percent_encode must [] h = unfold unescape_from in refl
unescape-percent_encode must (c ∷ s) (hc, hs) =
    elim (Bool-cases (c == b'%' || c == b'+' || must c)) [
      | inl escaped ↦
          rw escaped
            (unescape_pair c (percent_encode must s) hc ∙ rw (unescape-percent_encode must s hs))
      | inr copied ↦ rw copied (
          unescape_plain c (percent_encode must s) (must c) copied
          ∙ rw (unescape-percent_encode must s hs))
    ]

-- Whichever further bytes the sender chose to write in percent form, QueryUnescape gives the text back.
pub query_unescape-percent_encode :
    (must : ℕ → Bool) (s : Bytes)
    → All (λ c. c < 256) s
    → query_unescape (percent_encode must s) ≡ some s
unfolding query_unescape
query_unescape-percent_encode = unescape-percent_encode

-- What no percent sign can stand in front of: nothing, or what starts with no hexadecimal digit.
unfoldable pub Stray : Bytes → Type 0
Stray [] = Unit
Stray (c ∷ s) = hex_value c ≡ none

unescape-percent : (s : Bytes) → Stray s → unescape_from percent s ≡ none
unfolding unescape_from Stray
unescape-percent [] h = refl
unescape-percent (c ∷ s) h = ground arith

unescape-Stray : (p : Pending) (s t : Bytes) → Stray t → unescape_from p (s ++ (b'%' ∷ t)) ≡ none
unfolding unescape_from
unescape-Stray plain [] t h = unescape-percent t h
unescape-Stray percent [] t h = unfold hex_value in refl
unescape-Stray (half d) [] t h = unfold hex_value in refl
unescape-Stray plain (c ∷ s) t h =
    ground (arith, unescape-Stray plain s t h, unescape-Stray percent s t h)
unescape-Stray percent (c ∷ s) t h =
    second_digit (hex_value c) refl (λ d. unescape-Stray (half d) s t h)
  where
    second_digit :
        (o : Option ℕ)
        → hex_value c ≡ o
        → ((d : ℕ) → unescape_from (half d) (s ++ (b'%' ∷ t)) ≡ none)
        → unescape_from percent (c ∷ s ++ (b'%' ∷ t)) ≡ none
    second_digit none e k = ground arith
    second_digit (some d) e k = ground (arith, k d)
unescape-Stray (half d) (c ∷ s) t h = ground (arith, unescape-Stray plain s t h)

-- A percent sign with no hexadecimal digit behind it makes QueryUnescape fail, wherever it stands.
pub query_unescape-Stray : (s t : Bytes) → Stray t → query_unescape (s ++ (b'%' ∷ t)) ≡ none
unfolding query_unescape
query_unescape-Stray s t h = unescape-Stray plain s t h
