-- ===== src/Mime/Frame.antt =====
-- A block of headers as a sender prints it, and the lines that the reader makes of it.
pub mod Field
pub mod Read
use goesl.Base.{
  ℕ, ◌+◌, ◌≡◌, ◌≢◌, refl, Bool, true, false, ◌&&◌, ◌||◌, not, List, [], ◌∷◌, ◌++◌, Bytes, arith,
  ◌==◌, ap, ◌∙◌, sym, if◌then◌else◌, Option, none, some, All, All-append, append_assoc, append-nil,
  same,
}
use goesl.Text.{contains_byte}
use goesl.Mime.{
  Header, Line, Got, token_byte, all_token, canonical, add, chomp, lines_from, trim_left,
  trim_right, trim, starts_blank, cut_colon, add_line, flush, headers_from, read_mime_header,
}

-- The end of a line: a line feed, with a carriage return before it or not.
abbrev pub eol : Bool → Bytes
eol true = b'\r' ∷ b'\n' ∷ []
eol false = b'\n' ∷ []

abbrev pub Plain : Bytes → Type 0
Plain = All (λ c. (c ≢ b'\n') × (c ≢ b'\r'))

-- A field that a header block can carry: a token, and one line with no blanks around it.
pub record IsField (f : Bytes × Bytes) : Type 0 where
  pub key_token : all_token f.0 ≡ true
  pub key_ne_nil : f.0 ≢ []
  pub value_plain : Plain f.1
  pub value_left : trim_left f.1 ≡ f.1
  pub value_right : trim_right f.1 ≡ f.1

unfoldable pub field_text : Bytes × Bytes → Bytes
field_text f = f.0 ++ (b':' ∷ b' ' ∷ f.1)

-- The fields, the blank line behind them, and the rest.
unfoldable pub print_fields : Bool → List (Bytes × Bytes) → Bytes → Bytes
print_fields crlf [] s = eol crlf ++ s
print_fields crlf (f ∷ fs) s = field_text f ++ (eol crlf ++ print_fields crlf fs s)

unfoldable pub add_fields : List (Bytes × Bytes) → Header → Header
add_fields [] m = m
add_fields ((k, v) ∷ fs) m = add_fields fs (add (canonical k) v m)

lines_from-append :
    (t cur s : Bytes) → All (λ c. c ≢ b'\n') t → lines_from cur (t ++ s) ≡ lines_from (cur ++ t) s
unfolding lines_from
lines_from-append [] cur s h = rw append-nil
lines_from-append (c ∷ t) cur s (hc, ht) =
    ground (arith, lines_from-append t (cur ++ c ∷ []) s ht, append_assoc cur (c ∷ []) t)

chomp-Plain : (t : Bytes) → Plain t → chomp t ≡ t
unfolding chomp
chomp-Plain [] h = refl
chomp-Plain (c ∷ []) h = ground arith
chomp-Plain (c ∷ d ∷ t) (hc, ht) = ap (◌∷◌ c) (chomp-Plain (d ∷ t) ht)

chomp_return : (t : Bytes) → chomp (t ++ b'\r' ∷ []) ≡ t
unfolding chomp
chomp_return [] = refl
chomp_return (c ∷ []) = refl
chomp_return (c ∷ d ∷ t) = ap (◌∷◌ c) (chomp_return (d ∷ t))

abbrev pub full : Bytes → Bytes → Line
full t s = record { text = t; ended = true; rest = s }

lines_from_feed :
    (cur s : Bytes) → lines_from cur (b'\n' ∷ s) ≡ full (chomp cur) s ∷ lines_from [] s
unfolding lines_from
lines_from_feed cur s = refl

Plain-feedless : (t : Bytes) → Plain t → All (λ c. c ≢ b'\n') t
Plain-feedless [] h = tt
Plain-feedless (c ∷ t) (hc, ht) = (hc.0, Plain-feedless t ht)

-- A plain text and its end are one line.
pub lines_from-eol :
    (crlf : Bool) (t s : Bytes)
    → Plain t
    → lines_from [] (t ++ (eol crlf ++ s)) ≡ full t s ∷ lines_from [] s
lines_from-eol true t s h =
    lines_from-append t [] (b'\r' ∷ b'\n' ∷ s) (Plain-feedless t h)
    ∙ lines_from-append (b'\r' ∷ []) t (b'\n' ∷ s) (cc, tt)
    ∙ lines_from_feed (t ++ b'\r' ∷ []) s
    ∙ rw chomp_return
lines_from-eol false t s h =
    lines_from-append t [] (b'\n' ∷ s) (Plain-feedless t h)
    ∙ lines_from_feed t s
    ∙ rw (chomp-Plain t h)
