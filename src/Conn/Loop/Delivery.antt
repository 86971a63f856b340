-- ===== src/Conn/Loop/Delivery.antt =====
-- connection.go: the events that HandleEvents hands to the callback goroutine.
use goesl.Base.{
  ℕ, ◌+◌, ◌≤◌, ◌<◌, ◌≡◌, refl, ap, sym, ◌∙◌, Bool, true, false, List, [], ◌∷◌, ◌++◌, append_assoc,
  append-nil, map, length, length-append, Option, none, Bytes, codes, All, arith, if-true, if-false,
  same, replicate,
}
use goesl.Base.Int.{pos, ltb_ℤ}
use goesl.Base.Outcome.{Outcome, done}
use goesl.Errors.{NetErr, CtxErr, Err}
use goesl.Mime.Frame.{IsField, print_fields}
use goesl.Event.{Event, EventType, event_generic, parse_text_body, parse_text_body-type}
use goesl.Event.Get.{get-parse_text_body}
use goesl.Recv.{dispatch}
use goesl.Recv.Frames.{Frame, IsFrame, field, print_frame, frame_event}
use goesl.Conn.{Conn, then_run}
use goesl.Conn.Dial.Auth.{up, recv-print_frame}
use goesl.Conn.Loop.{
  Turn, Next, goes_on, stuck_sending, plain_events, turn, at_top_of, read_one, received_one,
  hand_on, to_events, has_room, continue, handle_events,
}

-- A turn in which the context is not done.
abbrev pub quiet : Turn
quiet = record { at_top = none; at_send = none; at_end = none }

-- A frame with a plain event whose body is a block of fields, and possibly a text behind it.
pub record IsPlainEvent (f : Frame) : Type 0 where
  pub is_frame : IsFrame f
  pub plain : field (codes "Content-Type") f ≡ codes "text/event-plain"
  pub crlf : Bool
  pub fields : List (Bytes × Bytes)
  pub behind : Bytes
  pub are_fields : All IsField fields
  pub body : f.body ≡ print_fields crlf fields behind

-- The event that a plain frame carries.
abbrev pub plain_event : Frame → Event
plain_event f = (parse_text_body (record (frame_event f) { type = event_generic })).0

dispatch-plain :
    (f : Frame)
    → dispatch (codes "text/event-plain") (frame_event f)
      ≡ parse_text_body (record (frame_event f) { type = event_generic })
unfolding dispatch same
dispatch-plain f = refl

to_events-room :
    (ev : Event) (rest : Bytes) (ending : NetErr) (c : Conn) (n : ℕ)
    → c.opts.send_reply_cap ≡ pos n
    → length c.events < n
    → to_events ev (up rest ending c)
      ≡ done (goes_on, up rest ending (record c { events = c.events ++ ev ∷ [] }))
unfolding to_events has_room up
to_events-room ev rest ending c n h l =
    if-true {A = Outcome (Next × Conn)} (ltb_ℤ (pos (length c.events)) c.opts.send_reply_cap) _ _
      (ap (ltb_ℤ (pos (length c.events))) h ∙ room (length c.events) n l)
  where
    room : (a b : ℕ) → a < b → ltb_ℤ (pos a) (pos b) ≡ true
    room a b l = ground arith

hand_on-generic :
    (a : Option CtxErr) (t : EventType) (ev : Event) (c : Conn)
    → t ≡ event_generic
    → hand_on a t ev c ≡ to_events ev c
unfolding hand_on
hand_on-generic a t ev c q = rw q refl

received_one-plain :
    (t : Turn) (e : Option Err) (ev : Event) (c : Conn)
    → e ≡ none
    → ev.type ≡ event_generic
    → received_one t e ev c ≡ to_events ev c
unfolding received_one
received_one-plain t e ev c p q = rw p (hand_on-generic t.at_send ev.type ev c q)

-- A turn at whose top the context is not done, whatever it is later.
abbrev pub started : Option CtxErr → Option CtxErr → Turn
started s e = record { at_top = none; at_send = s; at_end = e }

pub turn-plain :
    (s e : Option CtxErr) (f : Frame) (rest : Bytes) (ending : NetErr) (c : Conn)
    → IsPlainEvent f
    → c.connected ≡ true
    → turn (started s e) (up (print_frame f rest) ending c)
      ≡ to_events (plain_event f) (up rest ending c)
unfolding turn at_top_of read_one up
turn-plain s e f rest ending c h on =
    let ev = record (frame_event f) { type = event_generic } in
    let no_err : (parse_text_body ev).1 ≡ none =
      (get-parse_text_body ev h.crlf h.fields h.behind [] h.body h.are_fields).0 in
    if-true {A = Outcome (Next × Conn)} c.connected _ _ on
    ∙ ap (λ o. then_run o (λ r. received_one (started s e) r.err r.event))
        (recv-print_frame c f rest ending h.is_frame)
    ∙ ap (λ d. received_one (started s e) d.1 d.0 (up rest ending c))
        (ap (λ k. dispatch k (frame_event f)) h.plain ∙ dispatch-plain f)
    ∙ received_one-plain (started s e) (parse_text_body ev).1 (plain_event f) (up rest ending c)
        no_err (parse_text_body-type ev)

-- The frames one after the other, and what follows them.
unfoldable pub print_frames : List Frame → Bytes → Bytes
print_frames [] rest = rest
print_frames (f ∷ fs) rest = print_frame f (print_frames fs rest)

with_events : List Event → Conn → Conn
with_events es c = record c { events = es }

handle_events-plain :
    (fs : List Frame) (rest : Bytes) (ending : NetErr) (c : Conn) (n : ℕ)
    → All IsPlainEvent fs
    → c.connected ≡ true
    → c.opts.send_reply_cap ≡ pos n
    → length c.events + length fs ≤ n
    → handle_events (replicate (length fs) quiet) (up (print_frames fs rest) ending c)
      ≡ done (goes_on, up rest ending (with_events (c.events ++ map plain_event fs) c))
unfolding handle_events print_frames with_events continue
handle_events-plain [] rest ending c n h on cap l =
    ap (λ es. done (goes_on, up rest ending (record c { events = es }))) (sym (append-nil c.events))
handle_events-plain (f ∷ fs) rest ending c n (hf, h) on cap l =
    let c' = record c { events = c.events ++ plain_event f ∷ [] } in
    let room : length c'.events + length fs ≤ n =
      omega (arith, length-append {0} c.events (plain_event f ∷ [])) in
    ap (λ o. then_run o (continue (handle_events (replicate (length fs) quiet))))
      (turn-plain none none f (print_frames fs rest) ending c hf on
        ∙ to_events-room (plain_event f) (print_frames fs rest) ending c n cap (omega arith))
    ∙ handle_events-plain fs rest ending c' n h on cap room
    ∙ ap (λ es. done (goes_on, up rest ending (record c { events = es })))
        (append_assoc c.events (plain_event f ∷ []) (map plain_event fs))

-- On a connection that is up, with calls on the socket that succeed and a context that is not done,
-- HandleEvents hands each of a sequence of plain events to the callback's channel, if that has room for
-- them: every event once, in the order of the frames, behind what the channel holds already. It sends
-- nothing else, goes on, and what follows the frames is still to be read.
pub handle_events-in_order :
    (fs : List Frame) (rest : Bytes) (ending : NetErr) (c : Conn) (n : ℕ)
    → All IsPlainEvent fs
    → c.connected ≡ true
    → c.opts.send_reply_cap ≡ pos n
    → length c.events + length fs ≤ n
    → (c' : Conn) × (handle_events
          (replicate (length fs) quiet)
          (up (print_frames fs rest) ending c)
        ≡ done (goes_on, up rest ending c'))
      × (c'.events ≡ c.events ++ map plain_event fs)
      × (c'.cmd_reply ≡ c.cmd_reply)
      × (c'.api_resp ≡ c.api_resp)
      × (c'.log ≡ c.log)
unfolding with_events
handle_events-in_order fs rest ending c n h on cap l = (
  with_events (c.events ++ map plain_event fs) c,
  handle_events-plain fs rest ending c n h on cap l,
  refl,
  refl,
  refl,
  refl,
)

to_events-full :
    (ev : Event) (rest : Bytes) (ending : NetErr) (c : Conn) (n : ℕ)
    → c.opts.send_reply_cap ≡ pos n
    → n ≤ length c.events
    → to_events ev (up rest ending c) ≡ done (stuck_sending plain_events ev, up rest ending c)
unfolding to_events has_room up
to_events-full ev rest ending c n h l =
    if-false {A = Outcome (Next × Conn)} (ltb_ℤ (pos (length c.events)) c.opts.send_reply_cap) _ _
      (ap (ltb_ℤ (pos (length c.events))) h ∙ full (length c.events) n l)
  where
    full : (a b : ℕ) → b ≤ a → ltb_ℤ (pos a) (pos b) ≡ false
    full a b l = ground arith

-- On a connection that is up, with calls on the socket that succeed, a plain event that meets a full
-- channel stops HandleEvents: it waits for room there, and does not return, even if the context is done
-- by then.
pub handle_events-full :
    (s e : Option CtxErr) (ts : List Turn) (f : Frame) (rest : Bytes) (ending : NetErr) (c : Conn)
    (n : ℕ)
    → IsPlainEvent f
    → c.connected ≡ true
    → c.opts.send_reply_cap ≡ pos n
    → n ≤ length c.events
    → handle_events (started s e ∷ ts) (up (print_frame f rest) ending c)
      ≡ done (stuck_sending plain_events (plain_event f), up rest ending c)
unfolding handle_events continue
handle_events-full s e ts f rest ending c n h on cap l =
    ap (λ o. then_run o (continue (handle_events ts)))
      (turn-plain s e f rest ending c h on ∙ to_events-full (plain_event f) rest ending c n cap l)
