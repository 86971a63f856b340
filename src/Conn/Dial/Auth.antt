-- ===== src/Conn/Dial/Auth.antt =====
-- connection.go: auth, on what a server sends.
use goesl.Base.{
  ◌≡◌, refl, ap, ◌∙◌, Bool, true, false, [], ◌++◌, Option, none, some, Bytes, codes, drop, same,
  if◌then◌else◌, if_same,
}
use goesl.Base.Outcome.{done}
use goesl.Text.{contains_byte, has_prefix}
use goesl.Text.Query.{query_unescape}
use goesl.Mime.{header_get, values}
use goesl.Errors.{NetErr, Err, message}
use goesl.Event.{Event, event_command_reply, get, mime_get, or_empty}
use goesl.Event.Get.{header_get-add_fields}
use goesl.Recv.{Received, dispatch}
use goesl.Recv.Frames.{
  Frame, IsFrame, field, print_frame, frame_event, frame_result, recv_event-print_frame,
}
use goesl.Conn.{Conn, M, then_run, act, wrote, set_deadline, write, recv, took}
use goesl.Conn.Dial.{
  use_socket, auth, preamble_err, is_auth, is_command_reply, after_preamble, send_password,
  after_write, auth_text, judge_reply, reply_of,
}

-- A connection on a socket whose calls succeed and whose reads give these bytes.
unfoldable pub up : Bytes → NetErr → Conn → Conn
up bytes ending c =
    use_socket
      (record {
        input = record { bytes = bytes; ending = ending };
        deadlines = [];
        writes = [];
        stuck = none;
        closed = false;
      })
      c

pub recv-print_frame :
    (c : Conn) (f : Frame) (rest : Bytes) (ending : NetErr)
    → IsFrame f
    → recv (up (print_frame f rest) ending c) ≡ done (frame_result f rest ending, up rest ending c)
unfolding recv up set_deadline
recv-print_frame c f rest ending h =
    let c' = up (print_frame f rest) ending c in
    if_same c.opts.auto_redial
      (ap (λ o. took o c') (recv_event-print_frame true none f rest ending refl h))
      (ap (λ o. took o c') (recv_event-print_frame false none f rest ending refl h))

-- The reply text as Get gives it: unescaped if it has a percent sign, and empty where that fails.
unfoldable pub reply_text : Frame → Bytes
reply_text f =
    let v = field (codes "Reply-Text") f in
    if contains_byte b'%' v then or_empty (query_unescape v) else v

abbrev reply_event : Frame → Bool → Event
reply_event f b =
    let e = record (frame_event f) { type = event_command_reply } in
    record e { header = record e.header { escaped = b } }

get-reply_event :
    (f : Frame) (b : Bool)
    → get (reply_event f b) (codes "Reply-Text")
      ≡ (let v = field (codes "Reply-Text") f in if b then or_empty (query_unescape v) else v)
unfolding get mime_get header_get values same
get-reply_event f true =
    ap (λ v. or_empty (query_unescape v)) (header_get-add_fields (codes "Reply-Text") f.fields)
get-reply_event f false = header_get-add_fields (codes "Reply-Text") f.fields

if_itself : {A : Type 0} (f : Bool → A) (b : Bool) → (if b then f true else f false) ≡ f b
if_itself f true = refl
if_itself f false = refl

dispatch-reply :
    (f : Frame)
    → dispatch (codes "command/reply") (frame_event f)
      ≡ (reply_event f (contains_byte b'%' (field (codes "Reply-Text") f)), none)
unfolding dispatch same
dispatch-reply f =
    ap (λ t. (if contains_byte b'%' t then reply_event f true else reply_event f false, none))
      (get-reply_event f false)
    ∙ ap (λ e. (e, none))
        (if_itself (reply_event f) (contains_byte b'%' (field (codes "Reply-Text") f)))

pub frame_result-reply :
    (f : Frame) (rest : Bytes) (ending : NetErr)
    → field (codes "Content-Type") f ≡ codes "command/reply"
    → (r : Received) × (frame_result f rest ending ≡ r)
      × (r.err ≡ none)
      × (is_command_reply r.event.type ≡ true)
      × (get r.event (codes "Reply-Text") ≡ reply_text f)
unfolding is_command_reply reply_text
frame_result-reply f rest ending t =
    let b = contains_byte b'%' (field (codes "Reply-Text") f) in
    (
      record {
        event = reply_event f b;
        err = none;
        input = record { bytes = rest; ending = ending };
      },
      ap (λ d. record { event = d.0; err = d.1; input = record { bytes = rest; ending = ending } })
          (ap (λ k. dispatch k (frame_event f)) t ∙ dispatch-reply f),
      refl,
      refl,
      get-reply_event f b,
    )

-- What auth gives for a reply of this text.
abbrev pub verdict : Bytes → Option Err
verdict reply =
    if has_prefix reply (codes "-ERR ")
    then some (message (codes "auth reply: " ++ drop 5 reply))
    else none

judge_reply-up :
    (r : Received) (reply rest : Bytes) (ending : NetErr) (c : Conn)
    → r.err ≡ none
    → is_command_reply r.event.type ≡ true
    → get r.event (codes "Reply-Text") ≡ reply
    → judge_reply r.err r.event (up rest ending c) ≡ done (verdict reply, up rest ending c)
unfolding judge_reply reply_of up set_deadline
judge_reply-up r reply rest ending c e t g = rw (e, t, g) refl

abbrev ask : Received → M (Option Err)
ask r = after_preamble (preamble_err r.event r.err)

auth-request :
    (c : Conn) (f : Frame) (s : Bytes) (ending : NetErr)
    → IsFrame f
    → field (codes "Content-Type") f ≡ codes "auth/request"
    → auth (up (print_frame f s) ending c) ≡ after_preamble none (up s ending c)
unfolding auth preamble_err is_auth dispatch same
auth-request c f s ending h t =
    ap (λ o. then_run o ask) (recv-print_frame c f s ending h)
    ∙ ap
        (λ k.
          let r = dispatch k (frame_event f) in
          after_preamble (preamble_err r.0 r.1) (up s ending c))
        t

after_preamble-up :
    (c : Conn) (s : Bytes) (ending : NetErr)
    → after_preamble none (up s ending c)
      ≡ then_run
          (recv (up s ending (act (wrote (auth_text c.password)) c)))
          (λ r. judge_reply r.err r.event)
unfolding after_preamble set_deadline send_password write after_write up
after_preamble-up c s ending = refl

-- On a well-formed request and reply of a server, with calls on the socket that succeed, auth writes the
-- password once, between the two, and what it gives is decided by the text of the reply as Get gives it:
-- unescaped where it has a percent sign, and empty where that fails. If that text starts with the five
-- bytes "-ERR ", the last a blank, it is an error that shows what is behind them; else it is none, so
-- also for "-ERR" alone and for a text that cannot be unescaped. The socket stays open in both cases, and
-- what is behind the reply is still to be read.
pub auth-print_frame :
    (c : Conn) (f g : Frame) (rest : Bytes) (ending : NetErr)
    → IsFrame f
    → IsFrame g
    → field (codes "Content-Type") f ≡ codes "auth/request"
    → field (codes "Content-Type") g ≡ codes "command/reply"
    → auth (up (print_frame f (print_frame g rest)) ending c)
      ≡ done (
        verdict (reply_text g),
        up rest ending (act (wrote (codes "auth " ++ (c.password ++ codes "\r\n\r\n"))) c),
      )
auth-print_frame c f g rest ending hf hg tf tg =
    let c' = act (wrote (auth_text c.password)) c in
    let (r, e, n, t, v) = frame_result-reply g rest ending tg in
    auth-request c f (print_frame g rest) ending hf tf
    ∙ after_preamble-up c (print_frame g rest) ending
    ∙ ap (λ o. then_run o (λ r. judge_reply r.err r.event)) (recv-print_frame c' g rest ending hg)
    ∙ ap (λ r. judge_reply r.err r.event (up rest ending c')) e
    ∙ judge_reply-up r (reply_text g) rest ending c' n t v
