-- ===== src/Mime/Frame/Field.antt =====
-- One printed field, as the reader takes it apart.
use goesl.Base.{ℕ, ◌≡◌, ◌≢◌, refl, true, false, [], ◌∷◌, ◌++◌, Bytes, arith, All-append, same}
use goesl.Text.{contains_byte}
use goesl.Mime.{
  Header, token_byte, all_token, canonical, add, trim_left, trim_right, trim, starts_blank,
  keep_right, cut_colon, add_line, recase, add_key,
}
use goesl.Mime.Frame.{IsField, Plain, field_text}

-- A token holds no blank, no colon and no end of a line.
token_byte_facts :
    (c : ℕ)
    → token_byte c ≡ true
    → (c ≢ b' ') × (c ≢ b'\t') × (c ≢ b':') × (c ≢ b'\n') × (c ≢ b'\r')
unfolding token_byte contains_byte
token_byte_facts c h = ground arith

all_token-cons :
    (c : ℕ) (k : Bytes) → all_token (c ∷ k) ≡ true → (token_byte c ≡ true) × (all_token k ≡ true)
unfolding all_token
all_token-cons c k h = ground arith

cut_colon-token : (k s : Bytes) → all_token k ≡ true → cut_colon (k ++ b':' ∷ s) ≡ (k, s)
unfolding cut_colon
cut_colon-token [] s h = refl
cut_colon-token (c ∷ k) s h =
    let (hc, hk) = all_token-cons c k h in
    ground (arith, token_byte_facts c hc, cut_colon-token k s hk)

contains_byte-token : (k s : Bytes) → contains_byte b':' (k ++ b':' ∷ s) ≡ true
unfolding contains_byte
contains_byte-token [] s = refl
contains_byte-token (c ∷ k) s = ground (arith, contains_byte-token k s)

Plain-token : (k : Bytes) → all_token k ≡ true → Plain k
Plain-token [] h = tt
Plain-token (c ∷ k) h =
    let (hc, hk) = all_token-cons c k h in
    let facts = token_byte_facts c hc in ((facts.3, facts.4), Plain-token k hk)

keep_right-colon : (c : ℕ) (k s : Bytes) → keep_right c (k ++ b':' ∷ s) ≡ c ∷ (k ++ b':' ∷ s)
keep_right-colon c [] s = refl
keep_right-colon c (d ∷ k) s = refl

trim_right-colon : (k s : Bytes) → trim_right (k ++ b':' ∷ s) ≡ k ++ b':' ∷ trim_right s
unfolding trim_right
trim_right-colon [] s = colon (trim_right s)
  where
    colon : (s : Bytes) → keep_right b':' s ≡ b':' ∷ s
    colon [] = refl
    colon (d ∷ s) = refl
trim_right-colon (c ∷ k) s = rw (trim_right-colon k s) (keep_right-colon c k (trim_right s))

value_of_field :
    (v : Bytes) → trim_left v ≡ v → trim_right v ≡ v → trim_left (trim_right (b' ' ∷ v)) ≡ v
unfolding trim_left trim_right
value_of_field [] l r = refl
value_of_field (d ∷ v) l r = rw r l

trim_left_id : (s : Bytes) → starts_blank s ≡ false → trim_left s ≡ s
unfolding trim_left starts_blank
trim_left_id [] h = refl
trim_left_id (c ∷ s) h = rw h

add_key-canonical :
    (k v : Bytes) (m : Header) → k ≢ [] → add_key (canonical k) v m ≡ add (canonical k) v m
unfolding add_key canonical recase
add_key-canonical [] v m h = absurd (h refl)
add_key-canonical (c ∷ k) v m h = ground arith

module _ (f : Bytes × Bytes) (h : IsField f) where
  pub Plain-field_text : Plain (field_text f)
  unfolding field_text
  Plain-field_text =
      All-append _ f.0 (b':' ∷ b' ' ∷ f.1) (Plain-token f.0 h.key_token)
        ((cc, cc), ((cc, cc), h.value_plain))

  pub starts_blank-field_text : starts_blank (field_text f) ≡ false
  unfolding field_text starts_blank
  starts_blank-field_text = first f.0 h.key_token h.key_ne_nil
    where
      first :
          (k : Bytes)
          → all_token k ≡ true
          → k ≢ []
          → starts_blank (k ++ (b':' ∷ b' ' ∷ f.1)) ≡ false
      first [] t ne = absurd (ne refl)
      first (c ∷ k) t ne = ground (arith, token_byte_facts c (all_token-cons c k t).0)

  pub field_text-ne-nil : same (field_text f) [] ≡ false
  unfolding field_text same
  field_text-ne-nil = first f.0
    where
      first : (k : Bytes) → same (k ++ (b':' ∷ b' ' ∷ f.1)) [] ≡ false
      first [] = refl
      first (c ∷ k) = refl

  pub contains_byte-field_text : contains_byte b':' (field_text f) ≡ true
  unfolding field_text
  contains_byte-field_text = contains_byte-token f.0 (b' ' ∷ f.1)

  trim-field_text : trim (field_text f) ≡ f.0 ++ b':' ∷ trim_right (b' ' ∷ f.1)
  unfolding trim
  trim-field_text =
      rw (trim_left_id (field_text f) starts_blank-field_text)
        (unfold field_text in trim_right-colon f.0 (b' ' ∷ f.1))

  pub add_line-field_text :
      (m : Header) → add_line (trim (field_text f)) m ≡ add (canonical f.0) f.1 m
  unfolding add_line
  add_line-field_text m =
      rw (trim-field_text, cut_colon-token f.0 (trim_right (b' ' ∷ f.1)) h.key_token)
        (rw (value_of_field f.1 h.value_left h.value_right)
          (add_key-canonical f.0 f.1 m h.key_ne_nil))
