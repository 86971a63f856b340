-- ===== src/Mime/Frame/Read.antt =====
-- ReadMIMEHeader on a printed block.
use goesl.Base.{
  ◌≡◌, Bool, true, false, List, [], ◌∷◌, Bytes, arith, ap, All, same, Option, none, some,
}
use goesl.Text.{contains_byte}
use goesl.Mime.{Header, Line, trim, starts_blank, flush, lines_from, headers_from, read_mime_header}
use goesl.Mime.Frame.{IsField, full, field_text, print_fields, add_fields, lines_from-eol}
use goesl.Mime.Frame.Field.{
  Plain-field_text, starts_blank-field_text, field_text-ne-nil, contains_byte-field_text,
  add_line-field_text,
}

-- A line that begins a field ends the line before it.
headers_from-line :
    (m : Header) (pending : Option Bytes) (t s : Bytes) (ls : List Line)
    → starts_blank t ≡ false
    → same t [] ≡ false
    → contains_byte b':' t ≡ true
    → headers_from m pending (full t s ∷ ls) ≡ headers_from (flush pending m) (some (trim t)) ls
unfolding headers_from
headers_from-line m pending t s ls b e c = ground arith

headers_from_blank :
    (m : Header) (pending : Option Bytes) (s : Bytes) (ls : List Line)
    → headers_from m pending (full [] s ∷ ls)
      ≡ record { header = flush pending m; problem = none; rest = s }
unfolding headers_from starts_blank same
headers_from_blank m pending s ls = ground arith

headers_from-print_fields :
    (crlf : Bool) (fs : List (Bytes × Bytes)) (m : Header) (pending : Option Bytes) (s : Bytes)
    → All IsField fs
    → headers_from m pending (lines_from [] (print_fields crlf fs s))
      ≡ record { header = add_fields fs (flush pending m); problem = none; rest = s }
unfolding print_fields add_fields
headers_from-print_fields crlf [] m pending s h =
    rw (lines_from-eol crlf [] s tt) (headers_from_blank m pending s (lines_from [] s))
headers_from-print_fields crlf (f ∷ fs) m pending s (hf, hs) =
    rw
      (
        lines_from-eol crlf (field_text f) (print_fields crlf fs s) (Plain-field_text f hf),
        headers_from-line m pending (field_text f) (print_fields crlf fs s) _
            (starts_blank-field_text f hf) (field_text-ne-nil f hf) (contains_byte-field_text f hf),
        headers_from-print_fields crlf fs (flush pending m) (some (trim (field_text f))) s hs,
      )
      (unfold flush in
        ap (λ n. record { header = add_fields fs n; problem = none; rest = s })
          (add_line-field_text f hf (flush pending m)))

-- A block of headers, its lines ended with or without carriage returns, is read as its fields in
-- order, up to the blank line and no further.
pub read_mime_header-print_fields :
    (crlf : Bool) (fs : List (Bytes × Bytes)) (s : Bytes)
    → All IsField fs
    → read_mime_header (print_fields crlf fs s)
      ≡ record { header = add_fields fs []; problem = none; rest = s }
unfolding read_mime_header
read_mime_header-print_fields crlf fs s h = headers_from-print_fields crlf fs [] none s h
