-- ===== src/Recv/Frames.antt =====
-- recvEvent on whole frames: it reads one and leaves what is behind it.
use mathlib.Core.Path.{ap₂}
use goesl.Base.{
  ℕ, ◌≤◌, ◌≡◌, ◌⊎◌, inl, inr, ◌∙◌, ap, sym, Bool, true, false, List, [], ◌++◌, Bytes, codes, Option,
  none, All, length, length-append, leb, same, arith,
}
use goesl.Base.Int.{ℤ, pos}
use goesl.Base.Outcome.{done}
use goesl.Text.Laws.{drop-length-append, take-length-append}
use goesl.Text.Number.{parsed, format_int}
use goesl.Text.Number.RoundTrip.{atoi-format_int, IsInt64, format_int-ne-nil}
use goesl.Mime.{canonical, values, header_get}
use goesl.Mime.Frame.{IsField, print_fields, add_fields}
use goesl.Mime.Frame.Read.{read_mime_header-print_fields}
use goesl.Errors.{NetErr}
use goesl.Event.{no_headers, Event, event_invalid, get}
use goesl.Event.Get.{first_field, header_get-add_fields}
use goesl.Recv.{
  max_alloc, Received, dispatch, received, deadline_of, dispatched, with_body, body_of, recv_body,
  recv_event,
}

-- A frame as the server prints it, with its lines ended one way or the other.
pub record Frame : Type 0 where
  pub crlf : Bool
  pub fields : List (Bytes × Bytes)
  pub body : Bytes

abbrev pub field : Bytes → Frame → Bytes
field k f = first_field (canonical k) f.fields

-- The fields can be printed, the body is not too large to be allocated, and the content length is that
-- of the body; without a body it may be left out.
pub record IsFrame (f : Frame) : Type 0 where
  pub are_fields : All IsField f.fields
  pub body_fits : length f.body ≤ max_alloc
  pub sized :
      ((field (codes "Content-Length") f ≡ []) × (f.body ≡ []))
      ⊎ (field (codes "Content-Length") f ≡ format_int (pos (length f.body)))

-- The frame in front of what follows it.
unfoldable pub print_frame : Frame → Bytes → Bytes
print_frame f rest = print_fields f.crlf f.fields (f.body ++ rest)

-- The event that a frame carries, before its type is looked at.
abbrev pub frame_event : Frame → Event
frame_event f = record {
  header = record { headers = add_fields f.fields []; escaped = false };
  body = no_headers;
  raw_body = f.body;
  type = event_invalid;
}

-- What reading the frame gives: its event by the content type, and the input behind the frame.
abbrev pub frame_result : Frame → Bytes → NetErr → Received
frame_result f rest ending =
    let r = dispatch (field (codes "Content-Type") f) (frame_event f) in
    record { event = r.0; err = r.1; input = record { bytes = rest; ending = ending } }

abbrev pub header_event : Frame → Event
header_event f = record (frame_event f) { raw_body = [] }

pub get-frame_event :
    (f : Frame) (b k : Bytes) → get (record (frame_event f) { raw_body = b }) k ≡ field k f
unfolding get header_get values same
get-frame_event f b k = header_get-add_fields k f.fields

dispatched-frame :
    (f : Frame) (rest : Bytes) (ending : NetErr)
    → dispatched (frame_event f) rest ending ≡ frame_result f rest ending
unfolding dispatched
dispatched-frame f rest ending =
    ap (λ t. let r = dispatch t (frame_event f) in received r.0 r.1 rest ending)
      (get-frame_event f f.body (codes "Content-Type"))

with_body-frame :
    (f : Frame) (rest : Bytes) (ending : NetErr)
    → with_body (header_event f) (length f.body) (f.body ++ rest) ending
      ≡ dispatched (frame_event f) rest ending
unfolding with_body
with_body-frame f rest ending =
    let enough : leb (length f.body) (length (f.body ++ rest)) ≡ true = leb-append f.body rest in
    rw (enough, take-length-append f.body rest, drop-length-append f.body rest)
  where
    leb-append : (s t : Bytes) → leb (length s) (length (s ++ t)) ≡ true
    leb-append s t = ground (arith, length-append {0} s t)

pub recv_body-empty :
    (e : Event) (s : Bytes) (ending : NetErr)
    → get e (codes "Content-Length") ≡ []
    → recv_body e s ending ≡ done (dispatched e s ending)
unfolding recv_body same
recv_body-empty e s ending h = rw h

pub recv_body-format_int :
    (e : Event) (i : ℤ) (s : Bytes) (ending : NetErr)
    → IsInt64 i
    → get e (codes "Content-Length") ≡ format_int i
    → recv_body e s ending ≡ body_of e (format_int i) (parsed i) s ending
unfolding recv_body
recv_body-format_int e i s ending b h = rw (h, format_int-ne-nil i, atoi-format_int i b)

pub body_of-fits :
    (e : Event) (slen : Bytes) (l : ℕ) (s : Bytes) (ending : NetErr)
    → l ≤ max_alloc
    → body_of e slen (parsed (pos l)) s ending ≡ done (with_body e l s ending)
unfolding body_of
body_of-fits e slen l s ending h = let fits : leb l max_alloc ≡ true = ground arith in rw fits

-- Behind the headers of a frame.
recv_body-frame :
    (f : Frame) (rest : Bytes) (ending : NetErr)
    → IsFrame f
    → recv_body (header_event f) (f.body ++ rest) ending ≡ done (frame_result f rest ending)
recv_body-frame f rest ending h = elim h.sized [
  | inl (z, b) ↦
      recv_body-empty (header_event f) (f.body ++ rest) ending (get-frame_event f [] _ ∙ z)
      ∙ ap₂
          (λ before after.
            done (dispatched (record (frame_event f) { raw_body = before }) (after ++ rest) ending))
          (sym b) b
      ∙ ap done (dispatched-frame f rest ending)
  | inr n ↦
      recv_body-format_int (header_event f) (pos (length f.body)) (f.body ++ rest) ending
        (let fits = h.body_fits in omega arith) (get-frame_event f [] _ ∙ n)
      ∙ body_of-fits (header_event f) (format_int (pos (length f.body))) (length f.body)
          (f.body ++ rest) ending h.body_fits
      ∙ ap done (with_body-frame f rest ending ∙ dispatched-frame f rest ending)
]

pub recv_event-recv_body :
    (auto_redial : Bool) (set : Option NetErr) (f : Frame) (rest : Bytes) (ending : NetErr)
    → deadline_of auto_redial set ≡ none
    → All IsField f.fields
    → recv_event auto_redial set (record { bytes = print_frame f rest; ending = ending })
      ≡ recv_body (header_event f) (f.body ++ rest) ending
unfolding recv_event print_frame
recv_event-recv_body auto_redial set f rest ending d h =
    rw (d, read_mime_header-print_fields f.crlf f.fields (f.body ++ rest) h)

-- Where the deadline call succeeds, a well-formed frame is read whole and what is behind it is left,
-- whatever that is: the event has the frame's headers and body, and its content type decides the rest.
pub recv_event-print_frame :
    (auto_redial : Bool) (set : Option NetErr) (f : Frame) (rest : Bytes) (ending : NetErr)
    → deadline_of auto_redial set ≡ none
    → IsFrame f
    → recv_event auto_redial set (record { bytes = print_frame f rest; ending = ending })
      ≡ done (frame_result f rest ending)
recv_event-print_frame auto_redial set f rest ending d h =
    recv_event-recv_body auto_redial set f rest ending d h.are_fields
    ∙ recv_body-frame f rest ending h
