-- ===== src/Event/Body.antt =====
-- Event.GetTextBody of event.go.
use goesl.Base.{
  ℕ, suc, ◌+◌, ◌≤◌, ◌≡◌, ◌≢◌, ◌↔◌, true, false, [], ◌∷◌, ◌++◌, Bytes, codes, leb, ◌-◌, same,
  same_iff, length, length-append, arith,
}
use goesl.Base.Int.{ℤ, pos, negsuc}
use goesl.Base.Outcome.{done, panic, slice_range}
use goesl.Text.{slice}
use goesl.Text.Laws.{drop-length-append, take-length-append}
use goesl.Text.Number.{parsed, atoi}
use goesl.Event.{Event, mime_get, minus, inner_body, is_text_type, get_text_body}

abbrev content_length : Event → Bytes
content_length e = mime_get e.body (codes "Content-Length")

-- The event is read by a content length of its body, which is the number `i`.
pub record HasLength (e : Event) (i : ℤ) : Type 0 where
  pub not_text : is_text_type e.type ≡ false
  pub present : content_length e ≢ []
  pub number : atoi (content_length e) ≡ parsed i

get_text_body-HasLength :
    (e : Event) (i : ℤ) → HasLength e i → get_text_body e ≡ inner_body e.raw_body (parsed i)
unfolding get_text_body
get_text_body-HasLength e i h = rw (h.not_text, same-false (content_length e) h.present, h.number)
  where
    same-false : (s : Bytes) → s ≢ [] → same s [] ≡ false
    same-false s ne = ground (arith, same_iff s [])

-- The lengths that fit: at least the byte that is left out, and no more than there is.
abbrev pub Fits : ℤ → ℕ → Type 0
Fits (pos n) len = (1 ≤ n) × (n ≤ len)
Fits (negsuc n) len = ⊥

inner_body-panic :
    (raw : Bytes) (i : ℤ)
    → (inner_body raw (parsed i) ≡ panic slice_range → Fits i (length raw) → ⊥)
      × ((Fits i (length raw) → ⊥) → inner_body raw (parsed i) ≡ panic slice_range)
unfolding inner_body slice
inner_body-panic raw (pos n) = ground arith
inner_body-panic raw (negsuc n) = ground arith

slice-append :
    (head t s : Bytes)
    → slice (head ++ (t ++ s)) (pos (length head)) (pos (length head + length t)) ≡ done t
unfolding slice
slice-append head t s =
    let ordered : leb (length head) (length head + length t) ≡ true = ground arith in
    let width : length head + length t - length head ≡ length t = omega arith in
    rw (ordered, width, drop-length-append head (t ++ s), take-length-append t s)

-- With a content length in its body, GetTextBody panics exactly if the length is less than one or
-- more than the whole body has.
pub get_text_body-panic :
    (e : Event) (i : ℤ)
    → HasLength e i
    → (get_text_body e ≡ panic slice_range) ↔ (¬ Fits i (length e.raw_body))
get_text_body-panic e i h = rw (get_text_body-HasLength e i h) (inner_body-panic e.raw_body i)

inner_body-payload :
    (head text : Bytes) (last : ℕ)
    → inner_body (head ++ (text ++ last ∷ [])) (parsed (pos (suc (length text)))) ≡ done text
unfolding inner_body
inner_body-payload head text last =
    let total : length (head ++ (text ++ last ∷ [])) ≡ length head + length text + 1 =
      omega
        (arith, length-append {0} head (text ++ last ∷ []), length-append {0} text (last ∷ [])) in
    let lo : minus (length (head ++ (text ++ last ∷ []))) (pos (suc (length text)))
        ≡ pos (length head) =
      ground arith in
    let hi : minus (length (head ++ (text ++ last ∷ []))) (pos 1)
        ≡ pos (length head + length text) =
      ground arith in
    rw (lo, hi) (slice-append head text (last ∷ []))

-- Where the body ends in a text and one byte more, and its content length counts both, GetTextBody
-- gives the text.
pub get_text_body-payload :
    (e : Event) (head text : Bytes) (last : ℕ)
    → e.raw_body ≡ head ++ (text ++ last ∷ [])
    → HasLength e (pos (suc (length text)))
    → get_text_body e ≡ done text
get_text_body-payload e head text last b h =
    rw (get_text_body-HasLength e _ h, b) (inner_body-payload head text last)
