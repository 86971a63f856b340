-- ===== src/Conn/Loop/Replies.antt =====
-- connection.go: the replies that HandleEvents hands to the callers that wait.
use goesl.Base.{◌≡◌, refl, ap, ◌∙◌, true, Option, none, Bytes, codes, if-true}
use goesl.Base.Outcome.{Outcome}
use goesl.Errors.{NetErr, Err}
use goesl.Event.{Event, EventType, event_command_reply}
use goesl.Recv.Frames.{Frame, IsFrame, field, print_frame}
use goesl.Conn.{Conn, then_run}
use goesl.Conn.Dial.{is_command_reply}
use goesl.Conn.Dial.Auth.{up, recv-print_frame, frame_result-reply}
use goesl.Conn.Loop.{Next, turn, at_top_of, read_one, received_one, hand_on, to_cmd_reply}
use goesl.Conn.Loop.Delivery.{quiet}

reply_type : (t : EventType) → is_command_reply t ≡ true → t ≡ event_command_reply
unfolding is_command_reply
reply_type event_command_reply h = refl
reply_type _ h = cc

received-reply :
    (e : Option Err) (ev : Event) (c : Conn)
    → e ≡ none
    → ev.type ≡ event_command_reply
    → received_one quiet e ev c ≡ to_cmd_reply ev c
unfolding received_one hand_on
received-reply e ev c n h = rw (n, h) refl

-- A turn on a frame with a reply.
pub turn-reply :
    (g : Frame) (rest : Bytes) (ending : NetErr) (c : Conn)
    → IsFrame g
    → field (codes "Content-Type") g ≡ codes "command/reply"
    → c.connected ≡ true
    → (e : Event) × (turn quiet (up (print_frame g rest) ending c)
        ≡ to_cmd_reply e (up rest ending c))
unfolding turn at_top_of read_one up
turn-reply g rest ending c h t on =
    let (r, e, n, k, v) = frame_result-reply g rest ending t in
    (
      r.event,
      if-true {A = Outcome (Next × Conn)} c.connected _ _ on
          ∙ ap (λ o. then_run o (λ r. received_one quiet r.err r.event))
              (recv-print_frame c g rest ending h)
          ∙ ap (λ r. received_one quiet r.err r.event (up rest ending c)) e
          ∙ received-reply r.err r.event (up rest ending c) n (reply_type r.event.type k),
    )
