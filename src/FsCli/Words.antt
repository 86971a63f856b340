-- ===== src/FsCli/Words.antt =====
-- examples/fs_cli/main.go: the words of a row, between blanks.
use goesl.Base.{
  ℕ, ◌≡◌, ◌≢◌, refl, ap, ◌∙◌, true, false, List, [], ◌∷◌, ◌++◌, append-nil, map, Bytes, arith, All,
}
use goesl.Text.Trim.{IsVisible, IsBlank, Ends, Ends-append, visible-Ends}
use goesl.FsCli.{is_space, starts_space, split}

-- A word: visible ASCII, one byte at least.
pub record IsWord (w : Bytes) : Type 0 where
  pub visible : All IsVisible w
  pub some_byte : w ≢ []

pub record IsGap (g : Bytes) : Type 0 where
  pub blank : All IsBlank g
  pub some_byte : g ≢ []

-- Words, each behind its gap.
unfoldable pub spread : List (Bytes × Bytes) → Bytes
spread [] = []
spread ((g, w) ∷ gs) = g ++ (w ++ spread gs)

abbrev pub IsSpread : List (Bytes × Bytes) → Type 0
IsSpread = All (λ (g, w). IsGap g × IsWord w)

visible-space : (c : ℕ) → IsVisible c → is_space c ≡ false
visible-space c h = ground arith

blank-space : (c : ℕ) → IsBlank c → is_space c ≡ true
blank-space c h = ground arith

split-word : (w s : Bytes) → All IsVisible w → split (w ++ s) ≡ (w ++ (split s).0, (split s).1)
unfolding split
split-word [] s h = refl
split-word (c ∷ w) s (hc, hw) =
    rw (visible-space c hc) (ap (λ r. (c ∷ r.0, r.1)) (split-word w s hw))

word-visible : (w s : Bytes) → IsWord w → starts_space (w ++ s) ≡ false
unfolding starts_space
word-visible [] s h = elim (h.some_byte refl) [ ]
word-visible (c ∷ w) s h = visible-space c h.visible.0

split_more :
    (c : ℕ) (s : Bytes) → is_space c ≡ true → starts_space s ≡ true → split (c ∷ s) ≡ split s
unfolding split
split_more c s h v = rw h (rw v refl)

split-gap :
    (g s : Bytes)
    → All IsBlank g
    → g ≢ []
    → starts_space s ≡ false
    → split (g ++ s) ≡ ([], (split s).0 ∷ (split s).1)
unfolding split starts_space
split-gap [] s h n v = elim (n refl) [ ]
split-gap (c ∷ []) s (hc, h) n v = rw (blank-space c hc) (rw v refl)
split-gap (c ∷ d ∷ g) s (hc, h) n v =
    split_more c (d ∷ (g ++ s)) (blank-space c hc) (blank-space d h.0)
    ∙ split-gap (d ∷ g) s h (λ e. cc) v

split-spread :
    (gs : List (Bytes × Bytes)) → IsSpread gs → split (spread gs) ≡ ([], map (λ p. p.1) gs)
unfolding spread
split-spread [] h = unfold split in refl
split-spread ((g, w) ∷ gs) ((hg, hw), h) =
    split-gap g (w ++ spread gs) hg.blank hg.some_byte (word-visible w (spread gs) hw)
    ∙ ap (λ r. ([], r.0 ∷ r.1))
        (split-word w (spread gs) hw.visible
          ∙ ap (λ r. (w ++ r.0, r.1)) (split-spread gs h)
          ∙ ap (λ v. (v, map (λ p. p.1) gs)) (append-nil w))

-- The words of a row, between blanks.
pub split-row :
    (w : Bytes) (gs : List (Bytes × Bytes))
    → IsWord w
    → IsSpread gs
    → split (w ++ spread gs) ≡ (w, map (λ p. p.1) gs)
split-row w gs hw h =
    split-word w (spread gs) hw.visible
    ∙ ap (λ r. (w ++ r.0, r.1)) (split-spread gs h)
    ∙ ap (λ v. (v, map (λ p. p.1) gs)) (append-nil w)

pub row-Ends :
    (w : Bytes) (gs : List (Bytes × Bytes)) → IsWord w → IsSpread gs → Ends (w ++ spread gs)
unfolding spread
row-Ends w [] hw h = rw (append-nil w) (visible-Ends w hw.visible hw.some_byte)
row-Ends w ((g, v) ∷ gs) hw ((hg, hv), h) =
    Ends-append w (g ++ (v ++ spread gs)) (Ends-append g (v ++ spread gs) (row-Ends v gs hv h))
