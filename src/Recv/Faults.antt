-- ===== src/Recv/Faults.antt =====
-- recvEvent where the input does not hold a whole frame, or holds one that it cannot take.
use goesl.Base.{
  ℕ, ◌-◌, ◌<◌, ◌≤◌, ◌≡◌, refl, ◌∙◌, ap, Bool, true, false, [], ◌∷◌, ◌++◌, Bytes, codes, Option,
  none, some, All, length, take, leb, same, arith, replicate, append-nil, Bool-cases, inl, inr,
}
use goesl.Base.Int.{pos, negsuc, int_limit}
use goesl.Base.Outcome.{Outcome, done, panic, make_range}
use goesl.Text.Number.{Parsed, parsed, bad_syntax, out_of_range, format_int, atoi}
use goesl.Mime.{read_mime_header, Problem, input_ended}
use goesl.Mime.Frame.{IsField}
use goesl.Errors.{NetErr, eof, Err, net, wrap, reading, conn_lost}
use goesl.Event.{
  Event, event_invalid, event_auth, event_generic, parse_text_body, parse_text_body-type,
  parse_text_body_text, get,
}
use goesl.Recv.{
  Input, Received, new_event, dispatch, received, deadline_of, dispatched, with_body, body_of,
  recv_body, recv_behind, recv_under, recv_event, read_body_text, short_read, max_alloc,
}
use goesl.Recv.Frames.{
  Frame, field, IsFrame, frame_event, header_event, print_frame, frame_result, get-frame_event,
  recv_body-format_int, recv_event-recv_body, body_of-fits, recv_event-print_frame,
}

with_body_short :
    (e : Event) (l : ℕ) (s : Bytes) (ending : NetErr)
    → length s < l
    → with_body e l s ending
      ≡ received
          (record e { raw_body = s ++ replicate (l - length s) 0 })
          (some (wrap read_body_text (net (short_read ending s))))
          []
          ending
unfolding with_body
with_body_short e l s ending h = let short : leb l (length s) ≡ false = ground arith in rw short

body_of-short :
    (e : Event) (slen : Bytes) (l : ℕ) (s : Bytes) (ending : NetErr)
    → l ≤ max_alloc
    → length s < l
    → body_of e slen (parsed (pos l)) s ending
      ≡ done (
          received
            (record e { raw_body = s ++ replicate (l - length s) 0 })
            (some (wrap read_body_text (net (short_read ending s))))
            []
            ending)
body_of-short e slen l s ending m h =
    body_of-fits e slen l s ending m ∙ ap done (with_body_short e l s ending h)

short_read-conn_lost : (t s : Bytes) → conn_lost (wrap t (net (short_read eof s))) reading ≡ true
unfolding conn_lost
short_read-conn_lost t [] = refl
short_read-conn_lost t (c ∷ s) = refl

plain_err :
    (e : Event)
    → (read_mime_header e.raw_body).problem ≡ some input_ended
    → (dispatch (codes "text/event-plain") e).1 ≡ some (wrap parse_text_body_text (net eof))
unfolding dispatch same parse_text_body
plain_err e u = rw u

module _ (auto_redial : Bool) (set : Option NetErr) (d : deadline_of auto_redial set ≡ none) where
  -- Where the deadline call succeeds, a frame of fields that can be printed whose content length is a
  -- negative int64 makes recvEvent panic.
  pub recv_event-negative :
      (f : Frame) (n : ℕ) (rest : Bytes) (ending : NetErr)
      → All IsField f.fields
      → n < int_limit
      → field (codes "Content-Length") f ≡ format_int (negsuc n)
      → recv_event auto_redial set (record { bytes = print_frame f rest; ending = ending })
        ≡ panic make_range
  unfolding body_of
  recv_event-negative f n rest ending fs b p =
      recv_event-recv_body auto_redial set f rest ending d fs
      ∙ recv_body-format_int (header_event f) (negsuc n) (f.body ++ rest) ending b
          (get-frame_event f [] _ ∙ p)

  -- Where the deadline call succeeds, a body that the input ends in before its content length, at most
  -- 2^48, is reached is an error that counts as a lost connection, if the input ends as a file does.
  pub recv_event-truncated :
      (f : Frame) (l : ℕ)
      → All IsField f.fields
      → l ≤ max_alloc
      → field (codes "Content-Length") f ≡ format_int (pos l)
      → length f.body < l
      → (r : Received) × (e : Err) × (recv_event auto_redial set
            (record { bytes = print_frame f []; ending = eof })
          ≡ done r)
        × (r.err ≡ some e)
        × (conn_lost e reading ≡ true)
        × (r.event.type ≡ event_invalid)
  recv_event-truncated f l fs b p short =
      let s = f.body ++ [] in
      let e = header_event f in
      let err = wrap read_body_text (net (short_read eof s)) in
      (
        received (record e { raw_body = s ++ replicate (l - length s) 0 }) (some err) [] eof,
        err,
        recv_event-recv_body auto_redial set f [] eof d fs
            ∙ recv_body-format_int e (pos l) s eof (omega arith) (get-frame_event f [] _ ∙ p)
            ∙ body_of-short e (format_int (pos l)) l s eof b (rw append-nil short),
        refl,
        short_read-conn_lost read_body_text s,
        refl,
      )

-- Where the deadline call succeeds, a whole frame of a plain event whose own body ends before a blank
-- line is an error that counts as a lost connection, though what follows the frame can still be read.
pub recv_event-unfinished_plain :
    (auto_redial : Bool) (set : Option NetErr) (f : Frame) (rest : Bytes) (ending : NetErr)
    → deadline_of auto_redial set ≡ none
    → IsFrame f
    → field (codes "Content-Type") f ≡ codes "text/event-plain"
    → (read_mime_header f.body).problem ≡ some input_ended
    → (r : Received) × (e : Err) × (recv_event auto_redial set
          (record { bytes = print_frame f rest; ending = ending })
        ≡ done r)
      × (r.err ≡ some e)
      × (conn_lost e reading ≡ true)
      × (r.input ≡ record { bytes = rest; ending = ending })
recv_event-unfinished_plain auto_redial set f rest ending d h t u = (
  frame_result f rest ending,
  wrap parse_text_body_text (net eof),
  recv_event-print_frame auto_redial set f rest ending d h,
  ap (λ k. (dispatch k (frame_event f)).1) t ∙ plain_err (frame_event f) u,
  unfold conn_lost in refl,
  refl,
)

abbrev AuthOk : Received → Type 0
AuthOk r = r.event.type ≡ event_auth → r.err ≡ none

abbrev Holds : Outcome Received → Type 0
Holds (done r) = AuthOk r
Holds (panic p) = Unit

dispatch-AuthOk :
    (t : Bytes) (e : Event)
    → e.type ≡ event_invalid
    → (dispatch t e).0.type ≡ event_auth
    → (dispatch t e).1 ≡ none
unfolding dispatch
dispatch-AuthOk t e i h = ground (arith, parse_text_body-type (record e { type = event_generic }))

with_body-AuthOk :
    (e : Event) (l : ℕ) (s : Bytes) (ending : NetErr)
    → e.type ≡ event_invalid
    → AuthOk (with_body e l s ending)
unfolding with_body dispatched
with_body-AuthOk e l s ending i = elim (Bool-cases (leb l (length s))) [
  | inl enough ↦ rw enough (dispatch-AuthOk _ (record e { raw_body = take l s }) i)
  | inr short ↦ rw short (λ t. cc)
]

body_of-AuthOk :
    (e : Event) (slen : Bytes) (p : Parsed) (s : Bytes) (ending : NetErr)
    → e.type ≡ event_invalid
    → Holds (body_of e slen p s ending)
unfolding body_of
body_of-AuthOk e slen (parsed (pos l)) s ending i = elim (Bool-cases (leb l max_alloc)) [
  | inl fits ↦ rw fits (with_body-AuthOk e l s ending i)
  | inr large ↦ rw large tt
]
body_of-AuthOk e slen (parsed (negsuc l)) s ending i = tt
body_of-AuthOk e slen bad_syntax s ending i = λ t. cc
body_of-AuthOk e slen (out_of_range j) s ending i = λ t. cc

recv_body-AuthOk :
    (e : Event) (s : Bytes) (ending : NetErr)
    → e.type ≡ event_invalid
    → Holds (recv_body e s ending)
unfolding recv_body dispatched
recv_body-AuthOk e s ending i = elim (Bool-cases (same (get e (codes "Content-Length")) [])) [
  | inl none_given ↦ rw none_given (dispatch-AuthOk _ e i)
  | inr given ↦
      let slen = get e (codes "Content-Length") in
      rw given (body_of-AuthOk e slen (atoi slen) s ending i)
]

recv_behind-AuthOk :
    (p : Option Problem) (e : Event) (rest : Bytes) (ending : NetErr)
    → e.type ≡ event_invalid
    → Holds (recv_behind p e rest ending)
unfolding recv_behind
recv_behind-AuthOk none e rest ending i = recv_body-AuthOk e rest ending i
recv_behind-AuthOk (some p) e rest ending i = λ t. cc

recv_under-AuthOk : (set : Option NetErr) (input : Input) → Holds (recv_under set input)
unfolding recv_under
recv_under-AuthOk (some e) input = λ t. cc
recv_under-AuthOk none input =
    let got = read_mime_header input.bytes in
    recv_behind-AuthOk got.problem
      (record new_event { header = record { headers = got.header; escaped = false } }) got.rest
      input.ending refl

recv_event-AuthOk :
    (auto_redial : Bool) (set : Option NetErr) (input : Input)
    → Holds (recv_event auto_redial set input)
unfolding recv_event
recv_event-AuthOk auto_redial set input = recv_under-AuthOk (deadline_of auto_redial set) input

-- recvEvent gives an authentication request with no error, or another type of event: never an error
-- and an authentication request.
pub recv_event-auth_ok :
    (auto_redial : Bool) (set : Option NetErr) (input : Input) {r : Received}
    → recv_event auto_redial set input ≡ done r
    → r.event.type ≡ event_auth
    → r.err ≡ none
recv_event-auth_ok auto_redial set input h t = (rw h at (recv_event-AuthOk auto_redial set input)) t
