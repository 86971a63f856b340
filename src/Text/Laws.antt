-- ===== src/Text/Laws.antt =====
-- Case folding of ASCII text, and prefixes.
use goesl.Base.{
  ℕ, ◌<◌, ◌≡◌, refl, true, [], ◌∷◌, ◌++◌, Bytes, All, map, arith, drop, take, length, ap,
}
use goesl.Text.{lower_byte, fold_case, to_lower, equal_fold, has_prefix}

abbrev pub IsAscii : Bytes → Type 0
IsAscii = All (λ c. c < 128)

fold_case-IsAscii :
    (lead cont image : ℕ) (s : Bytes)
    → 128 < lead
    → IsAscii s
    → fold_case lead cont image s ≡ map lower_byte s
unfolding fold_case
fold_case-IsAscii lead cont image [] l h = refl
fold_case-IsAscii lead cont image (c ∷ s) l (hc, hs) =
    ground (arith, fold_case-IsAscii lead cont image s l hs)

-- ASCII text is lowered byte by byte.
pub to_lower-IsAscii : (s : Bytes) → IsAscii s → to_lower s ≡ map lower_byte s
unfolding to_lower
to_lower-IsAscii s h = fold_case-IsAscii 0xc4 0xb0 b'i' s (omega arith) h

-- EqualFold does not tell the case of ASCII text.
pub equal_fold_lower :
    (t s s' : Bytes)
    → IsAscii s
    → IsAscii s'
    → map lower_byte s ≡ map lower_byte s'
    → equal_fold t s ≡ equal_fold t s'
unfolding equal_fold
equal_fold_lower t s s' h h' e = rw (
  fold_case-IsAscii 0xc5 0xbf b's' s (omega arith) h,
  fold_case-IsAscii 0xc5 0xbf b's' s' (omega arith) h',
  e,
)

pub has_prefix-append : (p s : Bytes) → has_prefix (p ++ s) p ≡ true
unfolding has_prefix
has_prefix-append [] s = refl
has_prefix-append (c ∷ p) s = ground (arith, has_prefix-append p s)

pub has_prefix_split : (p s : Bytes) → has_prefix s p ≡ true → s ≡ p ++ drop (length p) s
unfolding has_prefix
has_prefix_split [] s h = refl
has_prefix_split (c ∷ p) [] h = cc
has_prefix_split (c ∷ p) (d ∷ s) h = ground (arith, has_prefix_split p s)

pub drop-length-append : (p s : Bytes) → drop (length p) (p ++ s) ≡ s
drop-length-append [] s = refl
drop-length-append (c ∷ p) s = drop-length-append p s

pub take-length-append : (s t : Bytes) → take (length s) (s ++ t) ≡ s
take-length-append [] t = refl
take-length-append (c ∷ s) t = ap (◌∷◌ c) (take-length-append s t)

lower_byte_idem : (c : ℕ) → lower_byte (lower_byte c) ≡ lower_byte c
unfolding lower_byte
lower_byte_idem c = ground arith

pub lower_idem : (s : Bytes) → map lower_byte (map lower_byte s) ≡ map lower_byte s
lower_idem [] = refl
lower_idem (c ∷ s) = cc (lower_byte_idem c, lower_idem s)

pub IsAscii-lower : (s : Bytes) → IsAscii s → IsAscii (map lower_byte s)
unfolding lower_byte
IsAscii-lower [] h = tt
IsAscii-lower (c ∷ s) (hc, hs) = (ground arith, IsAscii-lower s hs)
