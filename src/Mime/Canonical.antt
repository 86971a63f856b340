-- ===== src/Mime/Canonical.antt =====
-- Keys that differ in case only are one key of a header.
use goesl.Base.{ℕ, ◌≡◌, refl, Bool, true, [], ◌∷◌, Bytes, arith, map, ◌==◌, ap, ◌∙◌, sym, ap}
use goesl.Text.{lower_byte, contains_byte}
use goesl.Mime.{Header, token_byte, all_token, case_byte, recase, canonical, header_get}

token_byte-lower : (c : ℕ) → token_byte (lower_byte c) ≡ token_byte c
unfolding token_byte lower_byte contains_byte
token_byte-lower c = ground arith

case_byte-lower : (upper : Bool) (c : ℕ) → case_byte upper (lower_byte c) ≡ case_byte upper c
unfolding case_byte lower_byte
case_byte-lower upper c = ground arith

dash-lower : (c : ℕ) → (lower_byte c == b'-') ≡ (c == b'-')
unfolding lower_byte
dash-lower c = ground arith

all_token-lower : (s : Bytes) → all_token (map lower_byte s) ≡ all_token s
unfolding all_token
all_token-lower [] = refl
all_token-lower (c ∷ s) = rw (token_byte-lower c, all_token-lower s)

recase-lower : (upper : Bool) (s : Bytes) → recase upper (map lower_byte s) ≡ recase upper s
unfolding recase
recase-lower upper [] = refl
recase-lower upper (c ∷ s) = rw (dash-lower c, case_byte-lower upper c, recase-lower (c == b'-') s)

canonical-lower : (s : Bytes) → all_token s ≡ true → canonical (map lower_byte s) ≡ canonical s
unfolding canonical
canonical-lower s h = rw (all_token-lower s, h) (recase-lower true s)

-- Two keys that are one but for their case have one canonical form, if they are tokens.
pub canonical_same :
    (s t : Bytes)
    → all_token s ≡ true
    → map lower_byte s ≡ map lower_byte t
    → canonical s ≡ canonical t
canonical_same s t h e =
    let token : all_token t ≡ true =
      sym (all_token-lower t) ∙ ap all_token (sym e) ∙ all_token-lower s ∙ h in
    sym (canonical-lower s h) ∙ ap canonical e ∙ canonical-lower t token

-- Looking a token up in a header does not tell its case.
pub header_get_same :
    (m : Header) (s t : Bytes)
    → all_token s ≡ true
    → map lower_byte s ≡ map lower_byte t
    → header_get m s ≡ header_get m t
unfolding header_get
header_get_same m s t h e = rw (canonical_same s t h e)
