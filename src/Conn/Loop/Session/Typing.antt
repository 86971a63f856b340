-- ===== src/Conn/Loop/Session/Typing.antt =====
-- connection.go: in a session every event stands where events of its type do.
use goesl.Base.{
  ◌≡◌, refl, Bool, true, false, List, [], ◌∷◌, ◌++◌, Option, none, some, Bytes, All-append,
  if◌then◌else◌,
}
use goesl.Base.Int.{ℤ}
use goesl.Base.Outcome.{Outcome, done, panic}
use goesl.Errors.{CtxErr, Err}
use goesl.Event.{
  Event, EventType, event_invalid, event_state, event_connect, event_auth, event_command_reply,
  event_api_response, event_disconnect, event_log, event_generic,
}
use goesl.Options.{Opt, new_options}
use goesl.Recv.{Received}
use goesl.Conn.{Conn, Socket, DialResult, recv}
use goesl.Conn.Keeps.{After-done, channels}
use goesl.Conn.Dial.{succeeded, new_conn, dial}
use goesl.Conn.Loop.{Turn, plain_events}
use goesl.Conn.Loop.Effect.{arrivals, if_plain, received_event, read_event, unless_done}
use goesl.Conn.Loop.Invariant.{Inside, type_of}
use goesl.Conn.Loop.Typing.{AllOf, Typed, Typed-Invariant}
use goesl.Conn.Loop.Session.{
  Session, Loop, reading, dialing, sending, leaving, ended, Choice, turns, cuts, sends, leaves,
  closes, gives_up, calls_back, writes, gets_reply, step, run, begin,
}
use goesl.Conn.Loop.Session.Pipe.{pipe, arriving, arriving_in}
use goesl.Conn.Loop.Session.Order.{arrived, arrived_from, run_in_order}
use goesl.Conn.Loop.Session.Invariant.{Sending, session-Sound, dial-Inside}

-- The type of every event that the session holds or OnEvent was called with.
pub record WellTyped (s : Session) : Type 0 where
  pub channels : Inside Typed s.conn
  pub sending : Sending s.loop
  pub delivered : AllOf plain_events s.delivered

if_plain-AllOf : (t : EventType) (ev : Event) → ev.type ≡ t → AllOf plain_events (if_plain t ev)
if_plain-AllOf event_generic ev h = (h, tt)
if_plain-AllOf event_invalid ev h = tt
if_plain-AllOf event_state ev h = tt
if_plain-AllOf event_connect ev h = tt
if_plain-AllOf event_auth ev h = tt
if_plain-AllOf event_command_reply ev h = tt
if_plain-AllOf event_api_response ev h = tt
if_plain-AllOf event_disconnect ev h = tt
if_plain-AllOf event_log ev h = tt

received-AllOf : (e : Option Err) (ev : Event) → AllOf plain_events (received_event e ev)
received-AllOf none ev = if_plain-AllOf ev.type ev refl
received-AllOf (some e) ev = tt

read-AllOf : (o : Outcome (Received × Conn)) → AllOf plain_events (read_event o)
read-AllOf (done (r, c)) = received-AllOf r.err r.event
read-AllOf (panic p) = tt

top-AllOf :
    (b : Bool) (top : Option CtxErr) (es : List Event)
    → AllOf plain_events es
    → AllOf plain_events (if b then unless_done top es else [])
top-AllOf true none es h = h
top-AllOf true (some e) es h = tt
top-AllOf false top es h = tt

arrivals-AllOf : (t : Turn) (c : Conn) → AllOf plain_events (arrivals t c)
unfolding arrivals
arrivals-AllOf t c = top-AllOf c.connected t.at_top (read_event (recv c)) (read-AllOf (recv c))

arriving_in-AllOf :
    (l : Loop) (es : List Event) → AllOf plain_events es → AllOf plain_events (arriving_in l es)
arriving_in-AllOf reading es h = h
arriving_in-AllOf dialing es h = tt
arriving_in-AllOf (sending q ev) es h = tt
arriving_in-AllOf (leaving e) es h = tt
arriving_in-AllOf (ended e) es h = tt

arriving-AllOf : (k : Choice) (s : Session) → AllOf plain_events (arriving k s)
arriving-AllOf (turns t) s = arriving_in-AllOf s.loop (arrivals t s.conn) (arrivals-AllOf t s.conn)
arriving-AllOf (cuts t e) s = tt
arriving-AllOf sends s = tt
arriving-AllOf leaves s = tt
arriving-AllOf closes s = tt
arriving-AllOf (gives_up e) s = tt
arriving-AllOf (calls_back i m) s = tt
arriving-AllOf (writes by_send b) s = tt
arriving-AllOf (gets_reply pick) s = tt

arrived_from-AllOf :
    (o : Outcome Session) (f : Session → List Event)
    → ((s : Session) → AllOf plain_events (f s))
    → AllOf plain_events (arrived_from o f)
unfolding arrived_from
arrived_from-AllOf (done s) f h = h s
arrived_from-AllOf (panic e) f h = tt

arrived-AllOf : (ks : List Choice) (s : Session) → AllOf plain_events (arrived ks s)
unfolding arrived
arrived-AllOf [] s = tt
arrived-AllOf (k ∷ ks) s =
    All-append (λ e. e.type ≡ type_of plain_events) (arriving k s)
      (arrived_from (step k s) (arrived ks)) (arriving-AllOf k s)
      (arrived_from-AllOf (step k s) (arrived ks) (arrived-AllOf ks))

front-AllOf : (es fs : List Event) → AllOf plain_events (es ++ fs) → AllOf plain_events es
front-AllOf [] fs h = tt
front-AllOf (e ∷ es) fs (t, h) = (t, front-AllOf es fs h)

new_conn-Typed :
    (level : ℤ) (os : List Opt) (password : Bytes) (dummy : Socket) (ds : List DialResult)
    → Inside Typed (new_conn (new_options level os).opts password dummy ds)
unfolding Inside
new_conn-Typed level os password dummy ds = record { cmd_reply = tt; api_resp = tt; events = tt }

-- Behind every run of a session on a connection that Dial has made, if the run does not panic, the
-- channels for replies to commands, for replies to API calls and for plain events hold events of their
-- own type only, an event that HandleEvents waits to send has the type of its channel, and OnEvent was
-- called with plain events only.
pub run-WellTyped :
    (level : ℤ) (os : List Opt) (password : Bytes) (dummy : Socket) (ds : List DialResult)
    (c : Conn) (ks : List Choice) (s : Session)
    → dial level os password dummy ds ≡ done (succeeded, c)
    → run ks (begin c) ≡ done s
    → WellTyped s
run-WellTyped level os password dummy ds c ks s h r =
    let start = new_conn-Typed level os password dummy ds in
    let sound = session-Sound Typed Typed-Invariant level os password dummy ds c ks s start h r in
    let dialed : Inside Typed c =
      After-done (Inside Typed) (dial-Inside Typed Typed-Invariant level os password dummy ds start)
        h in
    let inside : Typed (channels c) = unfold Inside in dialed in
    let held : AllOf plain_events c.events = inside.events in
    let all : AllOf plain_events (([] ++ (c.events ++ [])) ++ arrived ks (begin c)) =
      All-append (λ e. e.type ≡ type_of plain_events) (c.events ++ []) (arrived ks (begin c))
        (All-append (λ e. e.type ≡ type_of plain_events) c.events [] held tt)
        (arrived-AllOf ks (begin c)) in
    let seen : AllOf plain_events (s.delivered ++ (pipe s).waiting) =
      rw (run_in_order ks (begin c) s r) all in
    record {
      channels = sound.inside;
      sending = sound.sending;
      delivered = front-AllOf s.delivered (pipe s).waiting seen;
    }
