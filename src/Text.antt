-- ===== src/Text.antt =====
-- The string functions that the source takes from Go's strings package, over bytes. Where non-ASCII
-- text can matter, its encodings are written out.
pub mod Trim
pub mod Number
pub mod Query
pub mod Laws
use mathlib.Core.List.{reverse}
use goesl.Base.{
  ℕ, zero, suc, ◌+◌, ◌-◌, Bool, true, false, ◌&&◌, ◌||◌, List, [], ◌∷◌, ◌++◌, Bytes, leb, ◌==◌,
  same, if◌then◌else◌, drop, take,
}
use goesl.Base.Int.{ℤ, pos, negsuc}
use goesl.Base.Outcome.{Outcome, done, panic, slice_range}

abbrev pub within : ℕ → ℕ → ℕ → Bool
within lo hi c = leb lo c && leb c hi

abbrev pub is_digit : ℕ → Bool
is_digit c = within b'0' b'9' c

unfoldable pub lower_byte : ℕ → ℕ
lower_byte c = if within b'A' b'Z' c then c + 32 else c

-- The encoding `lead cont` of one rune becomes the ASCII byte `image`.
fold_two : ℕ → ℕ → ℕ → Bytes → Bytes
fold_two lead cont image [] = lead ∷ []
fold_two lead cont image (b ∷ s) = if b == cont then image ∷ s else lead ∷ b ∷ s

-- U+212A, the Kelvin sign, is E2 84 AA.
fold_kelvin : Bytes → Bytes
fold_kelvin (a ∷ b ∷ s) = if a == 0x84 && b == 0xaa then b'k' ∷ s else 0xe2 ∷ a ∷ b ∷ s
fold_kelvin s = 0xe2 ∷ s

-- A rune beyond ASCII that is not mapped into ASCII keeps its bytes: no ASCII text equals it before
-- or after. The bytes C0 and above begin a rune, so the match is on whole runes.
unfoldable pub fold_case : ℕ → ℕ → ℕ → Bytes → Bytes
unfolding fold_two fold_kelvin lower_byte
fold_case lead cont image [] = []
fold_case lead cont image (c ∷ s) =
    let rest = fold_case lead cont image s in
    if c == 0xe2
    then fold_kelvin rest
    else if c == lead
    then fold_two lead cont image rest
    else lower_byte c ∷ rest

-- strings.ToLower, as far as a comparison with ASCII text can tell: beyond ASCII, U+0130 (bytes 196, 176)
-- becomes `i` and the Kelvin sign becomes `k`.
unfoldable pub to_lower : Bytes → Bytes
unfolding fold_case
to_lower = fold_case 0xc4 0xb0 b'i'

-- strings.EqualFold of an ASCII text and any other: beyond ASCII, U+017F (bytes 197, 191) folds to `s`
-- and the Kelvin sign to `k`.
unfoldable pub equal_fold : Bytes → Bytes → Bool
unfolding fold_case same
equal_fold t s = same (fold_case 0xc5 0xbf b's' t) (fold_case 0xc5 0xbf b's' s)

unfoldable pub has_prefix : Bytes → Bytes → Bool
has_prefix s [] = true
has_prefix [] (p ∷ ps) = false
has_prefix (c ∷ s) (p ∷ ps) = c == p && has_prefix s ps

-- strings.Contains of a text of one byte.
unfoldable pub contains_byte : ℕ → Bytes → Bool
contains_byte b [] = false
contains_byte b (c ∷ s) = c == b || contains_byte b s

abbrev pub ascii_space : ℕ → Bool
ascii_space c = within 9 13 c || c == b' '

abbrev pub space_two : ℕ → ℕ → Bool
space_two a b = a == 0xc2 && (b == 0x85 || b == 0xa0)

abbrev pub space_three : ℕ → ℕ → ℕ → Bool
space_three a b c =
    a == 0xe1 && b == 0x9a && c == 0x80
    || a == 0xe2 && b == 0x80 && (within 0x80 0x8a c || c == 0xa8 || c == 0xa9 || c == 0xaf)
    || a == 0xe2 && b == 0x81 && c == 0x9f
    || a == 0xe3 && b == 0x80 && c == 0x80

-- The bytes of the white space that a text begins with, and of that which its reverse ends with.
pub space_first : Bytes → ℕ
space_first [] = 0
space_first (a ∷ []) = if ascii_space a then 1 else 0
space_first (a ∷ b ∷ []) = if ascii_space a then 1 else if space_two a b then 2 else 0
space_first (a ∷ b ∷ c ∷ s) =
    if ascii_space a then 1 else if space_two a b then 2 else if space_three a b c then 3 else 0

pub space_last : Bytes → ℕ
space_last [] = 0
space_last (a ∷ []) = if ascii_space a then 1 else 0
space_last (a ∷ b ∷ []) = if ascii_space a then 1 else if space_two b a then 2 else 0
space_last (a ∷ b ∷ c ∷ s) =
    if ascii_space a then 1 else if space_two b a then 2 else if space_three c b a then 3 else 0

-- `skip` bytes of a rune that is being left out are still to come.
pub trim_front : (Bytes → ℕ) → ℕ → Bytes → Bytes
trim_front width skip [] = []
trim_front width (suc skip) (c ∷ s) = trim_front width skip s
trim_front width zero (c ∷ s) = elim (width (c ∷ s)) [ zero ↦ c ∷ s | suc k ↦ trim_front width k s ]

unfoldable pub trim_space : Bytes → Bytes
unfolding trim_front space_first space_last
trim_space s = reverse (trim_front space_last 0 (reverse (trim_front space_first 0 s)))

-- A slice expression `s[lo:hi]` where `hi` is at most the length.
unfoldable pub slice : Bytes → ℤ → ℤ → Outcome Bytes
slice s (pos lo) (pos hi) =
    if leb lo hi then done (take (hi - lo) (drop lo s)) else panic slice_range
slice s _ _ = panic slice_range
