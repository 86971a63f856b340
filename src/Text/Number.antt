-- ===== src/Text/Number.antt =====
-- strconv.Atoi, strconv.ParseInt in base 10 with 64 bits, and the verb %d.
pub mod RoundTrip
use goesl.Base.{
  ℕ, zero, suc, ◌+◌, ◌-◌, ◌*◌, ◌/◌, ◌%◌, ◌^◌, Bool, true, false, List, [], ◌∷◌, ◌++◌, Bytes, leb,
  ltb, ◌==◌, if◌then◌else◌,
}
use goesl.Base.Int.{ℤ, pos, negsuc, neg, int_limit}
use goesl.Text.{is_digit}

-- The value, or the error with the value that stands beside it: 0, or the nearest int64.
pub data Parsed : Type 0 where
  parsed : ℤ → Parsed
  bad_syntax : Parsed
  out_of_range : ℤ → Parsed

abbrev pub value_of : Parsed → ℤ
value_of (parsed i) = i
value_of bad_syntax = pos 0
value_of (out_of_range i) = i

-- The loop of ParseUint over the digits.
pub data Magnitude : Type 0 where
  mag : ℕ → Magnitude
  mag_syntax mag_range : Magnitude

scan : Bytes → ℕ → Magnitude
scan [] n = mag n
scan (c ∷ s) n =
    let m = n * 10 + (c - b'0') in
    let rest = scan s m in
    if is_digit c then (if leb (2 ^ 64) m then mag_range else rest) else mag_syntax

parse_uint : Bytes → Magnitude
unfolding scan
parse_uint [] = mag_syntax
parse_uint (c ∷ s) = scan (c ∷ s) 0

signed : Bool → Magnitude → Parsed
signed negative mag_syntax = bad_syntax
signed true mag_range = out_of_range (negsuc (int_limit - 1))
signed false mag_range = out_of_range (pos (int_limit - 1))
signed true (mag n) =
    if ltb int_limit n then out_of_range (negsuc (int_limit - 1)) else parsed (neg n)
signed false (mag n) =
    if leb int_limit n then out_of_range (pos (int_limit - 1)) else parsed (pos n)

unfoldable pub atoi : Bytes → Parsed
unfolding parse_uint signed
atoi [] = bad_syntax
atoi (c ∷ s) =
    if c == b'-'
    then signed true (parse_uint s)
    else if c == b'+'
    then signed false (parse_uint s)
    else signed false (parse_uint (c ∷ s))

-- The decimal digits of a number in front of `out`; a number below 10 ^ fuel needs that much fuel.
digits : ℕ → ℕ → Bytes → Bytes
digits zero n out = out
digits (suc fuel) n out =
    let out' = (b'0' + n % 10) ∷ out in
    let rest = digits fuel (n / 10) out' in if ltb n 10 then out' else rest

-- %d of a number below 2 ^ 64, which has at most twenty digits.
unfoldable pub format_uint : ℕ → Bytes
unfolding digits
format_uint n = digits 20 n []

unfoldable pub format_int : ℤ → Bytes
unfolding format_uint
format_int (pos n) = format_uint n
format_int (negsuc n) = b'-' ∷ format_uint (suc n)
