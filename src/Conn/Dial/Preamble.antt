-- ===== src/Conn/Dial/Preamble.antt =====
-- connection.go: auth, where the server does not start with a request for the password.
use goesl.Base.{
  ◌≡◌, ◌⊎◌, ◌≢◌, refl, ap, ◌∙◌, Bool, true, false, [], ◌∷◌, ◌++◌, Option, none, some, inl, inr,
  if◌then◌else◌, if-true,
}
use goesl.Base.Outcome.{Outcome, done, panic, nil_call}
use goesl.Errors.{NetErr, Err}
use goesl.Event.{
  Event, EventType, event_auth, event_command_reply, event_invalid, event_generic, event_disconnect,
  event_api_response, event_log, event_state, event_connect,
}
use goesl.Recv.{Received, recv_event}
use goesl.Recv.Faults.{recv_event-auth_ok}
use goesl.Conn.{Conn, M, then_run, pure, shut, set_deadline, recv, shut_socket, shut_down, took}
use goesl.Conn.Dial.{auth, preamble_err, bad_preamble, is_auth, after_preamble}

abbrev ask : Received → M (Option Err)
ask r = after_preamble (preamble_err r.event r.err)

IsAuthOk : Outcome (Received × Conn) → Type 0
IsAuthOk (done r) = r.0.event.type ≡ event_auth → r.0.err ≡ none
IsAuthOk (panic p) = Unit

took-IsAuthOk :
    (b : Bool) (set : Option NetErr) (c : Conn) (o : Outcome Received)
    → recv_event b set c.sock.input ≡ o
    → IsAuthOk (took o c)
unfolding took IsAuthOk
took-IsAuthOk b set c (done r) h = recv_event-auth_ok b set c.sock.input h
took-IsAuthOk b set c (panic p) h = tt

reading-IsAuthOk :
    (o : Outcome (Option NetErr × Conn))
    → IsAuthOk (then_run o (λ set c'. took (recv_event true set c'.sock.input) c'))
unfolding IsAuthOk
reading-IsAuthOk (done (set, c)) = took-IsAuthOk true set c _ refl
reading-IsAuthOk (panic p) = tt

IsAuthOk-if :
    (b : Bool) (x y : Outcome (Received × Conn))
    → IsAuthOk x
    → IsAuthOk y
    → IsAuthOk (if b then x else y)
IsAuthOk-if true x y p q = p
IsAuthOk-if false x y p q = q

recv-IsAuthOk : (c : Conn) → IsAuthOk (recv c)
unfolding recv
recv-IsAuthOk c =
    IsAuthOk-if c.opts.auto_redial _ _ (reading-IsAuthOk (set_deadline c))
      (took-IsAuthOk false none c _ refl)

is_auth_cases : (t : EventType) → (t ≡ event_auth) ⊎ (is_auth t ≡ false)
unfolding is_auth
is_auth_cases event_auth = inl refl
is_auth_cases event_invalid = inr refl
is_auth_cases event_command_reply = inr refl
is_auth_cases event_generic = inr refl
is_auth_cases event_disconnect = inr refl
is_auth_cases event_api_response = inr refl
is_auth_cases event_log = inr refl
is_auth_cases event_state = inr refl
is_auth_cases event_connect = inr refl

-- What auth makes of the first event, or of the error in its place.
preamble_err-bad :
    (v : Event) (e : Option Err)
    → (v.type ≡ event_auth → e ≡ none)
    → ((v.type ≡ event_auth) × (e ≡ none)) ⊎ (preamble_err v e ≡ some (bad_preamble v.header))
unfolding preamble_err
preamble_err-bad v e h = elim (is_auth_cases v.type) [
  | inl a ↦ inl (a, h a)
  | inr n ↦ inr (bad v e n)
]
  where
    bad :
        (v : Event) (e : Option Err)
        → is_auth v.type ≡ false
        → preamble_err v e ≡ some (bad_preamble v.header)
    bad v none n = rw n refl
    bad v (some e) n = rw n refl

IsAuthOk-done :
    (o : Outcome (Received × Conn)) {r : Received} {c : Conn}
    → IsAuthOk o
    → o ≡ done (r, c)
    → r.event.type ≡ event_auth
    → r.err ≡ none
unfolding IsAuthOk
IsAuthOk-done o p h = rw h at p

after_preamble-some :
    (e : Err) (c : Conn) {o : Outcome (Option Err × Conn)}
    → c.present ≡ true
    → o ≡ after_preamble (some e) c
    → (d : Conn) × (o ≡ done (some e, d)) × (d.log ≡ c.log ++ shut ∷ [])
unfolding after_preamble shut_socket
after_preamble-some e c p h = (
  shut_down c,
  h
      ∙ ap (λ o. then_run o (λ _. pure (some e)))
          (if-true {A = Outcome (Unit × Conn)} c.present (done (tt, shut_down c)) (panic nil_call)
            p),
  refl,
)

-- Unless the first read gives an authentication request without an error, auth, on a connection with a
-- socket, closes it, writes nothing and fails. The text of its error shows the headers of the event that
-- the read gives, and nothing else: where the read fails these are the headers read so far, and its own
-- error is left out, so that the text is as it is for an event of another type with the same headers.
pub auth-bad_preamble :
    (c : Conn) {r : Received} {c' : Conn}
    → recv c ≡ done (r, c')
    → c'.present ≡ true
    → (r.event.type ≢ event_auth) ⊎ (r.err ≢ none)
    → (d : Conn) × (auth c ≡ done (some (bad_preamble r.event.header), d))
      × (d.log ≡ c'.log ++ shut ∷ [])
unfolding auth
auth-bad_preamble c {r} {c'} h p other =
    let bad : preamble_err r.event r.err ≡ some (bad_preamble r.event.header) =
      elim (preamble_err-bad r.event r.err (IsAuthOk-done (recv c) (recv-IsAuthOk c) h)) [
        | inl (a, e) ↦ elim other [ inl n ↦ absurd (n a) | inr n ↦ absurd (n e) ]
        | inr b ↦ b
      ] in
    after_preamble-some (bad_preamble r.event.header) c' p
      (ap (λ o. then_run o ask) h ∙ ap (λ e. after_preamble e c') bad)
