-- ===== src/Conn/Dial/Callbacks.antt =====
-- connection.go: the event callback goroutines that reset starts.
use goesl.Base.{
  ℕ, zero, suc, ◌≤◌, ◌≡◌, refl, ap, ◌∙◌, Bool, true, false, List, [], ◌∷◌, Option, none, some,
  Bytes, if◌then◌else◌, inl, inr, arith,
}
use goesl.Base.Int.{ℤ}
use goesl.Base.Outcome.{done}
use goesl.Redo.{Strategy}
use goesl.Options.{Opt, new_options}
use goesl.Errors.{NetErr, eof, Err}
use goesl.Event.{Event}
use goesl.Conn.{Conn, act, dialed, Socket, DialResult, failed, opened, M, ◌>>=◌, pure, close}
use goesl.Conn.Callbacks.{Tidy, Ended, Same-Ended, Ended-Tidy, close-Ended, running_cases}
use goesl.Conn.Keeps.{
  After, After->>=, After-weaken, After-if, After-done, stays, counts, Same, Keeps, Keeps->>=,
  pure-Keeps, set_deadline-Keeps, shut_socket-Keeps, write-Keeps, recv-Keeps,
}
use goesl.Conn.Dial.{
  Dialed, reached, gave_up, still_dialing, dial_loop, dial_once, dial_times, reset_strategy,
  wait_next, use_socket, no_socket, auth, start_callback, after_dial, redial, refuse, ends_it,
  reset, Reset, close_with, reply_of, judge_reply, after_write, send_password, after_preamble,
  new_conn, dial, auth_text,
}

reset_strategy-Keeps : (i : ℕ) (s : Option Strategy) → Keeps (reset_strategy i s)
unfolding reset_strategy After Same
reset_strategy-Keeps zero s k c e = e
reset_strategy-Keeps (suc i) none k c e = tt
reset_strategy-Keeps (suc i) (some s) k c e = e

wait_next-Keeps : (s : Option Strategy) → Keeps (wait_next s)
unfolding wait_next After Same
wait_next-Keeps none k c e = tt
wait_next-Keeps (some s) k c e = e

Same-counts : (k c d : Conn) → counts d ≡ counts c → Same k c → Same k d
unfolding Same
Same-counts k c d e s = e ∙ s

dial_loop-Keeps : (i : ℕ) (last : NetErr) (ds : List DialResult) → Keeps (dial_loop i last ds)
unfolding dial_loop
dial_loop-Keeps i last [] k c s = stays _ (Same k) c s
dial_loop-Keeps i last (opened o ∷ ds) k c s =
    After-if (Same k) _ _ _
      (Keeps->>= (reset_strategy i c.opts.redial_strategy) (λ _. pure reached)
        (reset_strategy-Keeps i c.opts.redial_strategy) (λ _. pure-Keeps reached) k
        (use_socket o (act dialed (record c { dials = ds })))
        (Same-counts k c (use_socket o (act dialed (record c { dials = ds }))) refl s))
      (stays _ (Same k) c s)
dial_loop-Keeps i last (failed e ∷ ds) k c s =
    After-if (Same k) _ _ _
      (Keeps->>= (wait_next c.opts.redial_strategy) (λ _. dial_loop (suc i) e ds)
        (wait_next-Keeps c.opts.redial_strategy) (λ _. dial_loop-Keeps (suc i) e ds) k
        (no_socket (act dialed (record c { dials = ds })))
        (Same-counts k c (no_socket (act dialed (record c { dials = ds }))) refl s))
      (stays _ (Same k) c s)

dial_once-Keeps : (ds : List DialResult) → Keeps (dial_once ds)
unfolding dial_once After
dial_once-Keeps [] k c s = s
dial_once-Keeps (opened o ∷ ds) k c s = Same-counts k c _ refl s
dial_once-Keeps (failed e ∷ ds) k c s = Same-counts k c _ refl s

pub dial_times-Keeps : (retry : Bool) → Keeps (dial_times retry)
unfolding dial_times
dial_times-Keeps true k c s = dial_loop-Keeps 0 eof c.dials k c s
dial_times-Keeps false k c s = dial_once-Keeps c.dials k c s

close_with-Keeps : (e : Err) → Keeps (close_with e)
unfolding close_with
close_with-Keeps e =
    Keeps->>= _ _ shut_socket-Keeps
      (λ _. Keeps->>= _ _ set_deadline-Keeps (λ _. pure-Keeps (some e)))

reply_of-Keeps : (reply : Bytes) → Keeps (reply_of reply)
unfolding reply_of
reply_of-Keeps reply = Keeps->>= _ _ set_deadline-Keeps (λ _. pure-Keeps _)

Keeps-if : {A : Type 0} (b : Bool) (m n : M A) → Keeps m → Keeps n → Keeps (if b then m else n)
Keeps-if true m n p q = p
Keeps-if false m n p q = q

judge_reply-Keeps : (e : Option Err) (ev : Event) → Keeps (judge_reply e ev)
unfolding judge_reply
judge_reply-Keeps (some e) ev = close_with-Keeps _
judge_reply-Keeps none ev = Keeps-if _ _ _ (reply_of-Keeps _) (close_with-Keeps _)

after_write-Keeps : (e : Option NetErr) → Keeps (after_write e)
unfolding after_write
after_write-Keeps (some e) = close_with-Keeps _
after_write-Keeps none = Keeps->>= _ _ recv-Keeps (λ r. judge_reply-Keeps r.err r.event)

send_password-Keeps : (e : Option NetErr) → Keeps (send_password e)
unfolding send_password After
send_password-Keeps (some e) k c s = s
send_password-Keeps none k c s =
    Keeps->>= _ _ (write-Keeps (auth_text c.password)) after_write-Keeps k c s

after_preamble-Keeps : (e : Option Err) → Keeps (after_preamble e)
unfolding after_preamble
after_preamble-Keeps (some e) = Keeps->>= _ _ shut_socket-Keeps (λ _. pure-Keeps (some e))
after_preamble-Keeps none = Keeps->>= _ _ set_deadline-Keeps send_password-Keeps

pub auth-Keeps : Keeps auth
unfolding auth
auth-Keeps = Keeps->>= _ _ recv-Keeps (λ r. after_preamble-Keeps _)

start_callback-Tidy :
    (e : Option Err) (c : Conn) → Ended c → c.once ≡ some false → After Tidy (start_callback e c)
unfolding start_callback After Tidy Ended
start_callback-Tidy (some e) c d o = Ended-Tidy c d
start_callback-Tidy none c d o = (omega arith, λ _. o)

Same-once : (c d : Conn) → Same c d → d.once ≡ c.once
unfolding Same
Same-once c d s = ap (λ v. v.once) s

Ended-again : (c : Conn) → Ended c → Ended (record c { connected = true; once = some false })
unfolding Ended
Ended-again c e = e

auth-Tidy : (c : Conn) → Ended c → c.once ≡ some false → After Tidy ((auth >>= start_callback) c)
auth-Tidy c d o =
    After->>= (Same c) Tidy (auth c) start_callback (auth-Keeps c c (unfold Same in refl))
      (λ e c' s. start_callback-Tidy e c' (Same-Ended c c' d s) (Same-once c c' s ∙ o))

after_dial-Tidy : (d : Dialed) (c : Conn) → Ended c → After Tidy (after_dial d c)
unfolding after_dial After
after_dial-Tidy still_dialing c e = Ended-Tidy c e
after_dial-Tidy (gave_up f) c e = Ended-Tidy c e
after_dial-Tidy reached c e =
    auth-Tidy (record c { connected = true; once = some false }) (Ended-again c e) refl

dial_times-Ended : (retry : Bool) (c : Conn) → Ended c → After Ended (dial_times retry c)
dial_times-Ended retry c e =
    After-weaken (Same c) Ended _ (dial_times-Keeps retry c c (unfold Same in refl))
      (λ c'. Same-Ended c c' e)

redial-Tidy :
    (former : Option Err) (c : Conn)
    → Tidy c
    → (former ≡ none → Ended c)
    → After Tidy (redial former c)
unfolding redial
redial-Tidy none c t n =
    After->>= Ended Tidy _ _ (dial_times-Ended false c (n refl)) after_dial-Tidy
redial-Tidy (some e) c t n =
    After->>= Ended Tidy _ _ (close-Ended c t)
      (λ _ d g. After->>= Ended Tidy _ _ (dial_times-Ended true d g) after_dial-Tidy)

reset-Tidy :
    (former : Option Err) (c : Conn)
    → Tidy c
    → (former ≡ none → Ended c)
    → After Tidy (reset former c)
unfolding reset After
reset-Tidy former c t n =
    After-if Tidy (ends_it former) (done (refuse former, c)) (redial former c) t
      (redial-Tidy former c t n)

-- What a client may do to a connection that it has been given: Close it, or have it reset for an error.
pub data Call : Type 0 where
  closing : Call
  resetting : Err → Call

abbrev call : Call → M Unit
call closing = close
call (resetting e) = reset (some e) >>= λ _. pure tt

abbrev pub calls : List Call → M Unit
calls [] = pure tt
calls (k ∷ ks) = call k >>= λ _. calls ks

call-Tidy : (k : Call) (c : Conn) → Tidy c → After Tidy (call k c)
call-Tidy closing c t = After-weaken Ended Tidy (close c) (close-Ended c t) Ended-Tidy
call-Tidy (resetting e) c t =
    After->>= Tidy Tidy (reset (some e) c) _ (reset-Tidy (some e) c t (λ h. absurd (ground arith)))
      (λ a d. stays tt Tidy d)

calls-Tidy : (ks : List Call) (c : Conn) → Tidy c → After Tidy (calls ks c)
calls-Tidy [] c t = stays tt Tidy c t
calls-Tidy (k ∷ ks) c t = After->>= Tidy Tidy (call k c) _ (call-Tidy k c t) (λ a. calls-Tidy ks)

dial-Tidy :
    (level : ℤ) (os : List Opt) (password : Bytes) (dummy : Socket) (ds : List DialResult)
    → After Tidy (dial level os password dummy ds)
unfolding dial
dial-Tidy level os password dummy ds =
    let c = new_conn (new_options level os).opts password dummy ds in
    let e : Ended c = unfold Ended in (refl, refl) in reset-Tidy none c (Ended-Tidy c e) (λ _. e)

Tidy-bound : (c : Conn) → Tidy c → (c.canceled ≤ c.started) × (c.started ≤ suc c.canceled)
unfolding Tidy
Tidy-bound c t = elim (running_cases c.canceler) [
  | inl z ↦ (omega arith, omega arith)
  | inr o ↦ (omega arith, omega arith)
]

-- After a Dial that does not panic and any number of calls of Close and reset, at most one of the
-- callback goroutines that were started has not been canceled.
pub calls-at_most_one :
    (level : ℤ) (os : List Opt) (password : Bytes) (dummy : Socket) (ds : List DialResult)
    (ks : List Call) {r : Reset × Conn} {s : Unit × Conn}
    → dial level os password dummy ds ≡ done r
    → calls ks r.1 ≡ done s
    → (s.1.canceled ≤ s.1.started) × (s.1.started ≤ suc s.1.canceled)
calls-at_most_one level os password dummy ds ks {r} {s} h k = Tidy-bound s.1 (
    After-done Tidy (calls-Tidy ks r.1 (After-done Tidy (dial-Tidy level os password dummy ds) h))
      k)
