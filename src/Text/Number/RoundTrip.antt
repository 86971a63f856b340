-- ===== src/Text/Number/RoundTrip.antt =====
-- Reading back what %d prints.
use native.Mathlib.Nat.{pow-suc}
use goesl.Base.{
  same, same_iff, ◌≢◌, false, ℕ, zero, suc, ◌+◌, ◌*◌, ◌/◌, ◌%◌, ◌^◌, ◌<◌, ◌≡◌, refl, [], ◌∷◌, arith,
  Bytes, ltb, Bool-cases, inl, inr, ◌∙◌,
}
use goesl.Base.Int.{ℤ, pos, negsuc, int_limit}
use goesl.Text.Number.{scan, parse_uint, signed, atoi, digits, format_uint, format_int, parsed, mag}

-- Reading the last digit of `n` after the digits before it gives `n`.
scan_last : (n : ℕ) (out : Bytes) → n < 2 ^ 64 → scan ((b'0' + n % 10) ∷ out) (n / 10) ≡ scan out n
unfolding scan
scan_last n out h = ground arith

scan-digits :
    (fuel n : ℕ) (out : Bytes)
    → n < 2 ^ 64
    → n < 10 ^ suc fuel
    → scan (digits (suc fuel) n out) 0 ≡ scan out n
unfolding digits
scan-digits zero n out h k = ground (arith, scan_last n out)
scan-digits (suc fuel) n out h k = elim (Bool-cases (ltb n 10)) [
  | inl small ↦ rw small (ground (arith, scan_last n out))
  | inr large ↦ rw large (
      scan-digits fuel (n / 10) ((b'0' + n % 10) ∷ out) (omega arith)
        (let k' : n < 10 ^ suc fuel * 10 = rw pow-suc at k in omega arith)
      ∙ scan_last n out h)
]

digits-ne-nil : (fuel n : ℕ) (out : Bytes) → out ≢ [] → digits fuel n out ≢ []
unfolding digits
digits-ne-nil zero n out h = h
digits-ne-nil (suc fuel) n out h =
    ground (arith, digits-ne-nil fuel (n / 10) ((b'0' + n % 10) ∷ out))

format_uint-ne-nil : (n : ℕ) → format_uint n ≢ []
unfolding format_uint digits
format_uint-ne-nil n = ground (arith, digits-ne-nil 19 (n / 10) ((b'0' + n % 10) ∷ []))

pub format_int-ne-nil : (i : ℤ) → same (format_int i) [] ≡ false
unfolding format_int
format_int-ne-nil (pos n) = not_same (format_uint n) (format_uint-ne-nil n)
  where
    not_same : (s : Bytes) → s ≢ [] → same s [] ≡ false
    not_same s ne = ground (arith, same_iff s [])
format_int-ne-nil (negsuc n) = unfold same in refl

scan-format_uint : (n : ℕ) → n < 2 ^ 64 → scan (format_uint n) 0 ≡ mag n
unfolding format_uint
scan-format_uint n h = scan-digits 19 n [] h (omega arith) ∙ unfold scan in refl

parse_uint-scan : (s : Bytes) → s ≢ [] → parse_uint s ≡ scan s 0
unfolding parse_uint
parse_uint-scan [] h = absurd (h refl)
parse_uint-scan (c ∷ s) h = refl

parse_uint-format_uint : (n : ℕ) → n < 2 ^ 64 → parse_uint (format_uint n) ≡ mag n
parse_uint-format_uint n h =
    parse_uint-scan (format_uint n) (format_uint-ne-nil n) ∙ scan-format_uint n h

-- A text of digits alone has no sign.
atoi_unsigned : (s : Bytes) {n : ℕ} → parse_uint s ≡ mag n → atoi s ≡ signed false (mag n)
unfolding atoi parse_uint scan
atoi_unsigned [] h = cc
atoi_unsigned (c ∷ s) h = ground arith

abbrev pub IsInt64 : ℤ → Type 0
IsInt64 (pos n) = n < int_limit
IsInt64 (negsuc n) = n < int_limit

-- Atoi reads back every int64 from its print by %d.
pub atoi-format_int : (i : ℤ) → IsInt64 i → atoi (format_int i) ≡ parsed i
unfolding format_int signed
atoi-format_int (pos n) h =
    atoi_unsigned (format_uint n) (parse_uint-format_uint n (omega arith)) ∙ ground arith
atoi-format_int (negsuc n) h =
    let read = parse_uint-format_uint (suc n) (omega arith) in unfold atoi in rw read (ground arith)
