-- ===== src/Conn/Dial/Channels.antt =====
-- connection.go: a reset leaves the channels as they are, whatever comes of it.
use goesl.Base.{Bool, true, false, Option, none, some}
use goesl.Base.Outcome.{done}
use goesl.Errors.{Err}
use goesl.Conn.{Conn, close}
use goesl.Conn.Keeps.{After, After-if, stays}
use goesl.Conn.Channels.{Held, Holds, Holds->>=, Keeps-Holds, close-Holds}
use goesl.Conn.Dial.{
  Dialed, reached, gave_up, still_dialing, dial_times, auth, start_callback, after_dial, redial,
  refuse, ends_it, reset,
}
use goesl.Conn.Dial.Callbacks.{dial_times-Keeps, auth-Keeps}

start_callback-Holds : (e : Option Err) → Holds (start_callback e)
unfolding start_callback After Held
start_callback-Holds (some e) k c h = h
start_callback-Holds none k c h = h

Held-fresh : (k c : Conn) → Held k c → Held k (record c { connected = true; once = some false })
unfolding Held
Held-fresh k c h = h

after_dial-Holds : (d : Dialed) → Holds (after_dial d)
unfolding after_dial
after_dial-Holds still_dialing k c h = stays _ (Held k) c h
after_dial-Holds (gave_up e) k c h = stays _ (Held k) c h
after_dial-Holds reached k c h =
    Holds->>= auth start_callback (Keeps-Holds auth auth-Keeps) start_callback-Holds k
      (record c { connected = true; once = some false }) (Held-fresh k c h)

dial_times-Holds : (retry : Bool) → Holds (dial_times retry)
dial_times-Holds retry = Keeps-Holds (dial_times retry) (dial_times-Keeps retry)

redial-Holds : (former : Option Err) → Holds (redial former)
unfolding redial
redial-Holds none =
    Holds->>= (dial_times false) after_dial (dial_times-Holds false) after_dial-Holds
redial-Holds (some e) =
    Holds->>= close _ close-Holds
      (λ _. Holds->>= (dial_times true) after_dial (dial_times-Holds true) after_dial-Holds)

pub reset-Holds : (former : Option Err) → Holds (reset former)
unfolding reset
reset-Holds former k c h =
    After-if (Held k) (ends_it former) (done (refuse former, c)) (redial former c)
      (stays (refuse former) (Held k) c h) (redial-Holds former k c h)
