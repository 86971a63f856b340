-- ===== src/Event/Get.antt =====
-- Event.Get of event.go: case, and the values of a parsed body.
use goesl.Base.{
  ◌≡◌, refl, Bool, true, List, [], ◌∷◌, ◌++◌, Bytes, All, map, same, same_iff, if◌then◌else◌, arith,
  none, Bool-cases, inl, inr,
}
use goesl.Text.{lower_byte}
use goesl.Text.Query.{query_unescape}
use goesl.Mime.{Header, all_token, canonical, values, add, first_or, header_get}
use goesl.Mime.Canonical.{header_get_same}
use goesl.Mime.Frame.{IsField, print_fields, add_fields}
use goesl.Mime.Frame.Read.{read_mime_header-print_fields}
use goesl.Event.{Event, MimeMap, or_empty, mime_get, get, parse_text_body}

mime_get_same :
    (m : MimeMap) (s t : Bytes)
    → all_token s ≡ true
    → map lower_byte s ≡ map lower_byte t
    → mime_get m s ≡ mime_get m t
unfolding mime_get
mime_get_same m s t h e = rw (header_get_same m.headers s t h e)

-- Get does not tell the case of the name that it is asked for, if that is a token.
pub get_same :
    (e : Event) (s t : Bytes)
    → all_token s ≡ true
    → map lower_byte s ≡ map lower_byte t
    → get e s ≡ get e t
unfolding get
get_same e s t h p = rw (mime_get_same e.body s t h p, mime_get_same e.header s t h p)

-- The value of the first field with a canonical key, or nothing.
unfoldable pub first_field : Bytes → List (Bytes × Bytes) → Bytes
first_field k [] = []
first_field k ((j, v) ∷ fs) =
    let rest = first_field k fs in if same (canonical j) k then v else rest

values-add :
    (k j v : Bytes) (m : Header)
    → values k (add j v m) ≡ (if same j k then values k m ++ v ∷ [] else values k m)
unfolding values add
values-add k j v [] = refl
values-add k j v ((i, vs) ∷ m) =
    ground (arith, values-add k j v m, same_iff i j, same_iff i k, same_iff j k)

first_or-concat : (vs : List Bytes) (v d : Bytes) → first_or (vs ++ v ∷ []) d ≡ first_or vs v
first_or-concat [] v d = refl
first_or-concat (w ∷ vs) v d = refl

values-add_fields :
    (k : Bytes) (fs : List (Bytes × Bytes)) (m : Header)
    → first_or (values k (add_fields fs m)) [] ≡ first_or (values k m) (first_field k fs)
unfolding add_fields first_field
values-add_fields k [] m = refl
values-add_fields k ((j, v) ∷ fs) m = elim (Bool-cases (same (canonical j) k)) [
  | inl e ↦
      rw (values-add_fields k fs (add (canonical j) v m), values-add k (canonical j) v m, e)
        (first_or-concat (values k m) v (first_field k fs))
  | inr e ↦ rw (values-add_fields k fs (add (canonical j) v m), values-add k (canonical j) v m, e)
]

pub header_get-add_fields :
    (k : Bytes) (fs : List (Bytes × Bytes))
    → header_get (add_fields fs []) k ≡ first_field (canonical k) fs
unfolding header_get first_field values
header_get-add_fields k fs = values-add_fields (canonical k) fs []

-- After a body of fields that can be printed has been parsed, with anything behind its blank line, Get
-- gives the first value under a name, unescaped; and where that is empty what the header has.
pub get-parse_text_body :
    (e : Event) (crlf : Bool) (fs : List (Bytes × Bytes)) (rest k : Bytes)
    → e.raw_body ≡ print_fields crlf fs rest
    → All IsField fs
    → let v = or_empty (query_unescape (first_field (canonical k) fs)) in
      ((parse_text_body e).1 ≡ none)
      × (get (parse_text_body e).0 k ≡ (if same v [] then mime_get e.header k else v))
unfolding parse_text_body get
get-parse_text_body e crlf fs rest k b h =
    rw (b, read_mime_header-print_fields crlf fs rest h)
      (refl, unfold mime_get in rw (header_get-add_fields k fs))
