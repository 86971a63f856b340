-- ===== src/Text/Trim.antt =====
-- TrimSpace on a text between blanks.
use mathlib.Core.List.{reverse, reverse-append, reverse-reverse}
use goesl.Base.{
  ℕ, ◌≤◌, ◌≡◌, refl, ap, sym, ◌∙◌, true, ◌||◌, [], ◌∷◌, ◌++◌, append_assoc, ◌≢◌, Bytes, ◌==◌, arith,
  All,
}
use goesl.Text.{trim_space, trim_front, space_first, space_last}

abbrev pub IsVisible : ℕ → Type 0
IsVisible c = (33 ≤ c) × (c ≤ 126)

abbrev pub IsBlank : ℕ → Type 0
IsBlank c = (c == b' ' || c == b'\t') ≡ true

space_first-blank : (c : ℕ) (s : Bytes) → IsBlank c → space_first (c ∷ s) ≡ 1
unfolding space_first
space_first-blank c [] h = ground arith
space_first-blank c (d ∷ []) h = ground arith
space_first-blank c (d ∷ e ∷ s) h = ground arith

space_first-visible : (c : ℕ) (s : Bytes) → IsVisible c → space_first (c ∷ s) ≡ 0
unfolding space_first
space_first-visible c [] h = ground arith
space_first-visible c (d ∷ []) h = ground arith
space_first-visible c (d ∷ e ∷ s) h = ground arith

space_last-visible : (c : ℕ) (s : Bytes) → IsVisible c → space_last (c ∷ s) ≡ 0
unfolding space_last
space_last-visible c [] h = ground arith
space_last-visible c (d ∷ []) h = ground arith
space_last-visible c (d ∷ e ∷ s) h = ground arith

trim_front-blank :
    (p s : Bytes) → All IsBlank p → trim_front space_first 0 (p ++ s) ≡ trim_front space_first 0 s
unfolding trim_front
trim_front-blank [] s h = refl
trim_front-blank (c ∷ p) s (hc, h) =
    rw (trim_front, space_first-blank c (p ++ s) hc) (trim_front-blank p s h)

trim_front-visible :
    (width : Bytes → ℕ) (c : ℕ) (s : Bytes) → width (c ∷ s) ≡ 0 → trim_front width 0 (c ∷ s) ≡ c ∷ s
unfolding trim_front
trim_front-visible width c s h = rw (trim_front, h) refl

-- A text whose last byte is visible.
abbrev pub Ends : Bytes → Type 0
Ends s = (i : Bytes) × (z : ℕ) × (s ≡ i ++ z ∷ []) × IsVisible z

pub Ends-append : (t s : Bytes) → Ends s → Ends (t ++ s)
Ends-append t s (i, z, e, v) = (t ++ i, z, ap (λ u. t ++ u) e ∙ sym (append_assoc t i (z ∷ [])), v)

pub visible-Ends : (w : Bytes) → All IsVisible w → w ≢ [] → Ends w
visible-Ends [] h n = elim (n refl) [ ]
visible-Ends (c ∷ []) (hc, h) n = ([], c, refl, hc)
visible-Ends (c ∷ d ∷ w) (hc, h) n = Ends-append (c ∷ []) (d ∷ w) (visible-Ends (d ∷ w) h (λ e. cc))

trim_back-Ends : (s : Bytes) → Ends s → reverse (trim_front space_last 0 (reverse s)) ≡ s
trim_back-Ends s (i, z, e, v) =
    ap (λ u. reverse (trim_front space_last 0 (reverse u))) e
    ∙ ap (λ u. reverse (trim_front space_last 0 u)) (reverse-append i (z ∷ []))
    ∙ ap reverse (trim_front-visible space_last z (reverse i) (space_last-visible z (reverse i) v))
    ∙ ap reverse (sym (reverse-append i (z ∷ [])))
    ∙ reverse-reverse (i ++ z ∷ [])
    ∙ sym e

-- TrimSpace leaves out the blanks in front of a text that begins and ends with visible bytes.
pub trim_space-blank :
    (p s : Bytes) (a : ℕ)
    → All IsBlank p
    → IsVisible a
    → Ends (a ∷ s)
    → trim_space (p ++ a ∷ s) ≡ a ∷ s
unfolding trim_space
trim_space-blank p s a hp ha he =
    ap (λ u. reverse (trim_front space_last 0 (reverse u)))
      (trim_front-blank p (a ∷ s) hp
        ∙ trim_front-visible space_first a s (space_first-visible a s ha))
    ∙ trim_back-Ends (a ∷ s) he
