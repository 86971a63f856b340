-- ===== src/Conn/Dial/Arrival.antt =====
-- connection.go: Dial, on a server that sends a request and a reply that does not refuse.
use goesl.Base.{◌≡◌, refl, ap, ◌∙◌, true, false, List, ◌∷◌, ◌++◌, [], none, some, Bytes, codes}
use goesl.Base.Int.{ℤ}
use goesl.Base.Outcome.{done}
use goesl.Errors.{NetErr}
use goesl.Options.{Opt, new_options}
use goesl.Recv.Frames.{Frame, IsFrame, field, print_frame}
use goesl.Conn.{
  Conn, Socket, DialResult, opened, dialed, wrote, started_callback, ◌>>=◌, then_run, act,
}
use goesl.Conn.Dial.{
  succeeded, auth, start_callback, redial, after_dial, dial_once, dial_times, reset, new_conn, dial,
}
use goesl.Conn.Dial.Auth.{up, reply_text, verdict, auth-print_frame}

-- A socket whose calls succeed, and whose reads give these bytes.
abbrev pub good_socket : Bytes → NetErr → Socket
good_socket b ending = record {
  input = record { bytes = b; ending = ending };
  deadlines = [];
  writes = [];
  stuck = none;
  closed = false;
}

-- The connection behind its dial.
arrived : ℤ → List Opt → Bytes → Socket → List DialResult → Conn
arrived level os password dummy ds =
    record (act dialed
      (record (new_conn (new_options level os).opts password dummy ds) { dials = ds })) {
        connected = true;
        once = some false;
      }

-- Behind auth, and with its callback goroutine.
unfoldable pub client : ℤ → List Opt → Bytes → Socket → List DialResult → Conn
unfolding arrived
client level os password dummy ds =
    let c =
      act (wrote (codes "auth " ++ (password ++ codes "\r\n\r\n")))
        (arrived level os password dummy ds) in
    act started_callback (record c { started = 1; canceler = some false })

dial-opened :
    (level : ℤ) (os : List Opt) (password b : Bytes) (dummy : Socket) (ending : NetErr)
    (ds : List DialResult)
    → dial level os password dummy (opened (good_socket b ending) ∷ ds)
      ≡ (auth >>= start_callback) (up b ending (arrived level os password dummy ds))
unfolding dial reset redial after_dial dial_times dial_once arrived up
dial-opened level os password b dummy ending ds = refl

started-up :
    (level : ℤ) (os : List Opt) (password rest : Bytes) (dummy : Socket) (ending : NetErr)
    (ds : List DialResult)
    → start_callback none (
        up rest ending (
          act
            (wrote (codes "auth " ++ (password ++ codes "\r\n\r\n")))
            (arrived level os password dummy ds)))
      ≡ done (succeeded, up rest ending (client level os password dummy ds))
unfolding start_callback up client arrived
started-up level os password rest dummy ending ds = refl

-- Whatever the options and the password, Dial succeeds at once on a socket whose calls succeed and whose
-- server sends a well-formed request and a reply that does not refuse: it has dialed once, written the
-- password once, and started one callback goroutine; what is behind the reply is still to be read.
pub dial-print_frame :
    (level : ℤ) (os : List Opt) (password : Bytes) (dummy : Socket) (f g : Frame) (rest : Bytes)
    (ending : NetErr) (ds : List DialResult)
    → IsFrame f
    → IsFrame g
    → field (codes "Content-Type") f ≡ codes "auth/request"
    → field (codes "Content-Type") g ≡ codes "command/reply"
    → verdict (reply_text g) ≡ none
    → dial level os password dummy
        (opened (good_socket (print_frame f (print_frame g rest)) ending) ∷ ds)
      ≡ done (succeeded, up rest ending (client level os password dummy ds))
unfolding start_callback arrived
dial-print_frame level os password dummy f g rest ending ds hf hg tf tg v =
    let c = arrived level os password dummy ds in
    dial-opened level os password (print_frame f (print_frame g rest)) dummy ending ds
    ∙ ap (λ o. then_run o start_callback) (auth-print_frame c f g rest ending hf hg tf tg)
    ∙ ap
        (λ e.
          start_callback e
            (up rest ending (act (wrote (codes "auth " ++ (password ++ codes "\r\n\r\n"))) c)))
        v
    ∙ started-up level os password rest dummy ending ds
