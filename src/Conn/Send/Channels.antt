-- ===== src/Conn/Send/Channels.antt =====
-- connection.go: what the waits for replies do to the channels.
use goesl.Base.{◌≡◌, refl, ap, Bool, true, false, List, [], ◌∷◌, Option, some, Bytes, if◌then◌else◌}
use goesl.Base.Outcome.{Outcome, done, panic}
use goesl.Errors.{NetErr, Err, net, writing, conn_lost}
use goesl.Event.{Event, err_or_res}
use goesl.Conn.{Conn, M, pure, set_deadline}
use goesl.Conn.Keeps.{After, Keeps, Keeps->>=, pure-Keeps, set_deadline-Keeps}
use goesl.Conn.Send.{
  waiting, Pick, ctx_done, from_cmd_reply, from_api_resp, answered, take_cmd_reply, take_api_resp,
  await, write_failed, as_err, answer,
}

Keeps-if : {A : Type 0} (b : Bool) (m n : M A) → Keeps m → Keeps n → Keeps (if b then m else n)
Keeps-if true m n p q = p
Keeps-if false m n p q = q

pub write_failed-Keeps : (e : NetErr) → Keeps (write_failed e)
unfolding write_failed
write_failed-Keeps e =
    Keeps-if (conn_lost (net e) writing) _ _
      (Keeps->>= set_deadline (λ set. pure (answer [] (as_err set))) set_deadline-Keeps
        (λ set. pure-Keeps (answer [] (as_err set))))
      (pure-Keeps (answer [] (some (net e))))

answered-After :
    (P : Conn → Type 0) (o : Outcome (Bytes × Option Err)) (c : Conn) → P c → After P (answered o c)
unfolding answered After
answered-After P (done (raw, err)) c p = p
answered-After P (panic e) c p = tt

take_cmd_reply-After :
    (P : Conn → Type 0) (q : List Event) (c : Conn)
    → P c
    → ((e : Event) (es : List Event) → q ≡ e ∷ es → P (record c { cmd_reply = es }))
    → After P (take_cmd_reply q c)
unfolding take_cmd_reply
take_cmd_reply-After P [] c p k = unfold After in p
take_cmd_reply-After P (e ∷ es) c p k =
    answered-After P (err_or_res e) (record c { cmd_reply = es }) (k e es refl)

take_api_resp-After :
    (P : Conn → Type 0) (q : List Event) (c : Conn)
    → P c
    → ((e : Event) (es : List Event) → q ≡ e ∷ es → P (record c { api_resp = es }))
    → After P (take_api_resp q c)
unfolding take_api_resp
take_api_resp-After P [] c p k = unfold After in p
take_api_resp-After P (e ∷ es) c p k =
    answered-After P (err_or_res e) (record c { api_resp = es }) (k e es refl)

-- What holds of a connection, and holds when one reply has been taken, holds after the wait.
pub await-After :
    (P : Conn → Type 0) (pick : Pick) (c : Conn)
    → P c
    → ((e : Event) (es : List Event) → c.cmd_reply ≡ e ∷ es → P (record c { cmd_reply = es }))
    → ((e : Event) (es : List Event) → c.api_resp ≡ e ∷ es → P (record c { api_resp = es }))
    → After P (await pick c)
unfolding await
await-After P (ctx_done e) c p k l = unfold After in p
await-After P from_cmd_reply c p k l = take_cmd_reply-After P c.cmd_reply c p k
await-After P from_api_resp c p k l = take_api_resp-After P c.api_resp c p l

-- A wait for a reply that is not there.
pub await_cmd_reply-waiting :
    (c : Conn) → c.cmd_reply ≡ [] → await from_cmd_reply c ≡ done (waiting, c)
unfolding await take_cmd_reply
await_cmd_reply-waiting c h = ap (λ q. take_cmd_reply q c) h

pub await_api_resp-waiting :
    (c : Conn) → c.api_resp ≡ [] → await from_api_resp c ≡ done (waiting, c)
unfolding await take_api_resp
await_api_resp-waiting c h = ap (λ q. take_api_resp q c) h
