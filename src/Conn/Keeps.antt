-- ===== src/Conn/Keeps.antt =====
-- connection.go: what the calls on a connection leave as it is.
use goesl.Base.{
  ℕ, List, ◌≡◌, Bool, true, false, Option, none, some, Bytes, if◌then◌else◌, Bool-cases, inl, inr,
}
use goesl.Base.Outcome.{Outcome, done, panic}
use goesl.Errors.{NetErr}
use goesl.Base.Int.{ℤ}
use goesl.Event.{Event}
use goesl.Recv.{Received, recv_event}
use goesl.Conn.{
  Conn, M, ◌>>=◌, then_run, pure, set_deadline, write, write_as, write_out, first_of, rest_of, recv,
  took, shut_socket,
}

-- A predicate on the state that a method ends in, where it ends in one.
unfoldable pub After : {A : Type 0} → (Conn → Type 0) → Outcome (A × Conn) → Type 0
After P (done r) = P r.1
After P (panic p) = Unit

pub After->>= :
    {A B : Type 0} (P Q : Conn → Type 0) (o : Outcome (A × Conn)) (f : A → M B)
    → After P o
    → ((a : A) (c : Conn) → P c → After Q (f a c))
    → After Q (then_run o f)
unfolding After
After->>= P Q (done r) f p k = k r.0 r.1 p
After->>= P Q (panic e) f p k = tt

pub After-weaken :
    {A : Type 0} (P Q : Conn → Type 0) (o : Outcome (A × Conn))
    → After P o
    → ((c : Conn) → P c → Q c)
    → After Q o
unfolding After
After-weaken P Q (done r) p k = k r.1 p
After-weaken P Q (panic e) p k = tt

pub stays : {A : Type 0} (a : A) (P : Conn → Type 0) (c : Conn) → P c → After P (done (a, c))
unfolding After
stays a P c p = p

pub After-done :
    {A : Type 0} (P : Conn → Type 0) {o : Outcome (A × Conn)} {r : A × Conn}
    → After P o
    → o ≡ done r
    → P r.1
unfolding After
After-done P p h = rw h at p

-- The channels of a connection, and how much each of them can hold.
pub record Channels : Type 0 where
  pub cmd_reply : List Event
  pub api_resp : List Event
  pub events : List Event
  pub capacity : ℤ

abbrev pub channels : Conn → Channels
channels c = record {
  cmd_reply = c.cmd_reply;
  api_resp = c.api_resp;
  events = c.events;
  capacity = c.opts.send_reply_cap;
}

-- What a connection knows of its callback goroutines, of the Close of its current socket, and of what
-- its channels hold.
pub record Counts : Type 0 where
  pub held : Channels
  pub started : ℕ
  pub canceled : ℕ
  pub canceler : Option Bool
  pub once : Option Bool

abbrev pub counts : Conn → Counts
counts c = record {
  held = channels c;
  started = c.started;
  canceled = c.canceled;
  canceler = c.canceler;
  once = c.once;
}

unfoldable pub Same : Conn → Conn → Type 0
Same c c' = counts c' ≡ counts c

-- A method that leaves those as they are.
abbrev pub Keeps : {A : Type 0} → M A → Type 0
Keeps m = (k c : Conn) → Same k c → After (Same k) (m c)

pub Keeps->>= :
    {A B : Type 0} (m : M A) (f : A → M B) → Keeps m → ((a : A) → Keeps (f a)) → Keeps (m >>= f)
Keeps->>= m f p q k c s = After->>= (Same k) (Same k) (m c) f (p k c s) (λ a c' s'. q a k c' s')

pub pure-Keeps : {A : Type 0} (a : A) → Keeps (pure a)
unfolding After
pure-Keeps a k c s = s

pub set_deadline-Keeps : Keeps set_deadline
unfolding set_deadline After Same
set_deadline-Keeps k c s = elim (Bool-cases c.present) [ inl p ↦ rw p s | inr p ↦ rw p tt ]

pub shut_socket-Keeps : Keeps shut_socket
unfolding shut_socket After Same
shut_socket-Keeps k c s = elim (Bool-cases c.present) [ inl p ↦ rw p s | inr p ↦ rw p tt ]

write_out-Same :
    (r : Option NetErr) (b : Bytes) (k c : Conn)
    → Same k c
    → After (Same k) (done (write_out r b c))
unfolding write_out After Same
write_out-Same none b k c s = s
write_out-Same (some e) b k c s = s

write_as-Keeps : (s : Option NetErr) (b : Bytes) → Keeps (write_as s b)
unfolding write_as After Same
write_as-Keeps (some e) b k c s = s
write_as-Keeps none b k c s =
    unfold After in
    unfold Same in
    write_out-Same (first_of c.sock.writes) b k
      (record c { sock = record c.sock { writes = rest_of c.sock.writes } }) s

pub write-Keeps : (b : Bytes) → Keeps (write b)
unfolding write
write-Keeps b k c s = write_as-Keeps c.sock.stuck b k c s

took-Same : (o : Outcome Received) (k c : Conn) → Same k c → After (Same k) (took o c)
unfolding took After Same
took-Same (done r) k c s = s
took-Same (panic p) k c s = tt

pub After-if :
    {A : Type 0} (P : Conn → Type 0) (b : Bool) (x y : Outcome (A × Conn))
    → After P x
    → After P y
    → After P (if b then x else y)
After-if P true x y p q = p
After-if P false x y p q = q

pub recv-Keeps : Keeps recv
unfolding recv
recv-Keeps k c s =
    After-if (Same k) c.opts.auto_redial _ _
      (After->>= (Same k) (Same k) (set_deadline c) _ (set_deadline-Keeps k c s)
        (λ set c'. took-Same (recv_event true set c'.sock.input) k c'))
      (took-Same (recv_event false none c.sock.input) k c s)
