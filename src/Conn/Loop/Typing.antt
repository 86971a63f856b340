-- ===== src/Conn/Loop/Typing.antt =====
-- connection.go: each channel holds events of its type only.
use goesl.Base.{◌≡◌, List, [], ◌∷◌, ◌++◌, All, All-append}
use goesl.Event.{Event}
use goesl.Conn.Keeps.{Channels}
use goesl.Conn.Loop.{Channel, cmd_replies, api_responses, plain_events}
use goesl.Conn.Loop.Invariant.{Invariant, type_of}

abbrev pub AllOf : Channel → List Event → Type 0
AllOf q = All (λ e. e.type ≡ type_of q)

pub record Typed (v : Channels) : Type 0 where
  pub cmd_reply : AllOf cmd_replies v.cmd_reply
  pub api_resp : AllOf api_responses v.api_resp
  pub events : AllOf plain_events v.events

AllOf-append :
    (q : Channel) (es : List Event) (e : Event)
    → AllOf q es
    → e.type ≡ type_of q
    → AllOf q (es ++ e ∷ [])
AllOf-append q es e h t = All-append (λ e. e.type ≡ type_of q) es (e ∷ []) h (t, tt)

AllOf-rest : (q : Channel) (e : Event) (es l : List Event) → AllOf q l → l ≡ e ∷ es → AllOf q es
AllOf-rest q e es l a h = rest (rw h at a)
  where
    rest : AllOf q (e ∷ es) → AllOf q es
    rest (x, y) = y

pub Typed-Invariant : Invariant Typed
Typed-Invariant = record {
  send_cmd_reply = λ v e f room t. record {
    cmd_reply = AllOf-append cmd_replies v.cmd_reply e f.cmd_reply t;
    api_resp = f.api_resp;
    events = f.events;
  };
  send_api_resp = λ v e f room t. record {
    cmd_reply = f.cmd_reply;
    api_resp = AllOf-append api_responses v.api_resp e f.api_resp t;
    events = f.events;
  };
  send_events = λ v e f room t. record {
    cmd_reply = f.cmd_reply;
    api_resp = f.api_resp;
    events = AllOf-append plain_events v.events e f.events t;
  };
  take_cmd_reply = λ v e es f h. record {
    cmd_reply = AllOf-rest cmd_replies e es v.cmd_reply f.cmd_reply h;
    api_resp = f.api_resp;
    events = f.events;
  };
  take_api_resp = λ v e es f h. record {
    cmd_reply = f.cmd_reply;
    api_resp = AllOf-rest api_responses e es v.api_resp f.api_resp h;
    events = f.events;
  };
  take_events = λ v e es f h. record {
    cmd_reply = f.cmd_reply;
    api_resp = f.api_resp;
    events = AllOf-rest plain_events e es v.events f.events h;
  };
}
