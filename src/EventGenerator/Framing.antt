-- ===== src/EventGenerator/Framing.antt =====
-- examples/event_generator/main.go: the texts of the server are well-formed frames, and their types.
use goesl.Base.{◌≡◌, refl, inl, inr, true, [], codes, arith, length, same}
use goesl.Text.{contains_byte}
use goesl.Text.Number.{format_int}
use goesl.Mime.{canonical, all_token, token_byte, trim_left, trim_right}
use goesl.Mime.Frame.{print_fields, field_text}
use goesl.Event.Get.{first_field}
use goesl.Recv.Frames.{Frame, IsFrame, field}
use goesl.Conn.Loop.Delivery.{IsPlainEvent}
use goesl.EventGenerator.Frames.{
  heartbeat_fields, heartbeat_fields-All, can_print_all, can_print, can_print_key, can_print_value,
  plain_bytes, can_print_all-All, request_frame, auth_frame, plain_frame, heartbeat_frame,
}

small_frame :
    (f : Frame)
    → can_print_all f.fields ≡ true
    → field (codes "Content-Length") f ≡ []
    → f.body ≡ []
    → IsFrame f
small_frame f h l b = record {
  are_fields = can_print_all-All f.fields h;
  body_fits = rw b (omega arith);
  sized = inl (l, b);
}

pub small_frames-IsFrame : IsFrame request_frame × IsFrame auth_frame × IsFrame plain_frame
unfolding first_field canonical same all_token token_byte trim_left trim_right contains_byte
    can_print_all can_print can_print_key can_print_value plain_bytes
small_frames-IsFrame = (
  small_frame request_frame refl refl refl,
  small_frame auth_frame refl refl refl,
  small_frame plain_frame refl refl refl,
)

heartbeat_length : length heartbeat_frame.body ≡ 914
unfolding print_fields field_text
heartbeat_length = refl

heartbeat_frame-IsFrame : IsFrame heartbeat_frame
unfolding first_field canonical same all_token token_byte trim_left trim_right contains_byte
    can_print_all can_print can_print_key can_print_value plain_bytes format_int
heartbeat_frame-IsFrame = record {
  are_fields = can_print_all-All heartbeat_frame.fields refl;
  body_fits = omega (arith, heartbeat_length);
  sized = inr (rw heartbeat_length refl);
}

pub heartbeat_frame-IsPlainEvent : IsPlainEvent heartbeat_frame
unfolding first_field canonical same
heartbeat_frame-IsPlainEvent = record {
  is_frame = heartbeat_frame-IsFrame;
  plain = refl;
  crlf = true;
  fields = heartbeat_fields;
  behind = [];
  are_fields = heartbeat_fields-All;
  body = refl;
}

pub frame_types :
    (field (codes "Content-Type") request_frame ≡ codes "auth/request")
    × (field (codes "Content-Type") auth_frame ≡ codes "command/reply")
    × (field (codes "Content-Type") plain_frame ≡ codes "command/reply")
unfolding first_field canonical same
frame_types = (refl, refl, refl)
