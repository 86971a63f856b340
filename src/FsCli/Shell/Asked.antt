-- ===== src/FsCli/Shell/Asked.antt =====
-- examples/fs_cli/main.go: what one typed command sends, and what it prints.
use goesl.Base.{
  ◌≡◌, ◌≢◌, refl, ap, ◌∙◌, Bool-cases, inl, inr, List, [], ◌∷◌, ◌++◌, Option, some, Bytes, codes,
  ◌==◌, same, if◌then◌else◌,
}
use goesl.Base.Outcome.{done}
use goesl.Errors.{Err, ctx}
use goesl.Event.{Event}
use goesl.Conn.{Conn, wrote, ◌>>=◌, then_run, pure, act}
use goesl.Conn.Send.{
  Pick, ctx_done, from_cmd_reply, from_api_resp, answer, await, send, api, bg_api, command_text,
}
use goesl.Conn.Send.Ready.{
  ready, reply_result, answer_of, send-ready, await_cmd_reply-ready, await_api_resp-ready,
}
use goesl.FsCli.Shell.{
  Said, prompt, Typed, Kind, command, kind_of, first_word, send_typed, job_or, said_of,
}

-- A line that is typed, with the event that answers it if it is a command.
pub record Asked : Type 0 where
  pub typed : Typed
  pub reply : Event

-- What a wait ends in: the error of the context, or the reply.
pub waited : Pick → Event → Bytes × Option Err
waited (ctx_done e) ev = ([], some (ctx e))
waited from_cmd_reply ev = reply_result ev
waited from_api_resp ev = reply_result ev

-- The channels with the replies in them that are waited for.
unfoldable pub in_cmd_reply : Kind → Pick → Event → List Event → List Event
in_cmd_reply command from_cmd_reply e q = e ∷ q
in_cmd_reply k pick e q = q

unfoldable pub in_api_resp : Kind → Pick → Event → List Event → List Event
in_api_resp command from_api_resp e r = e ∷ r
in_api_resp k pick e r = r

abbrev pub kind : Asked → Kind
kind a = kind_of a.typed.text

unfoldable pub cmd_queue : List Asked → List Event → List Event
cmd_queue [] q = q
cmd_queue (a ∷ as') q = in_cmd_reply (kind a) a.typed.pick a.reply (cmd_queue as' q)

unfoldable pub api_queue : List Asked → List Event → List Event
api_queue [] r = r
api_queue (a ∷ as') r = in_api_resp (kind a) a.typed.pick a.reply (api_queue as' r)

-- What goes over the wire for a command.
pub wire_text : Bytes → Bytes → Bytes
wire_text job [] = []
wire_text job (c ∷ cmd) =
    (if c == b'/'
      then cmd
      else if same (first_word (c ∷ cmd)) (codes "originate")
      then codes "api bgapi uuid:" ++ (job ++ (codes " " ++ (c ∷ cmd)))
      else codes "api " ++ (c ∷ cmd))
    ++ codes "\r\n\r\n"

unfoldable pub texts_of : Kind → Asked → List Bytes
texts_of command a = wire_text a.typed.job a.typed.text ∷ []
texts_of k a = []

unfoldable pub texts : List Asked → List Bytes
texts [] = []
texts (a ∷ as') = texts_of (kind a) a ++ texts as'

-- BgApi gives the job in place of the result.
pub shown : Bytes → Bytes → Bytes × Option Err → Bytes × Option Err
shown job [] r = r
shown job (c ∷ cmd) r =
    if c == b'/'
    then r
    else if same (first_word (c ∷ cmd)) (codes "originate")
    then (job, r.1)
    else r

unfoldable pub says_of : Bytes → Kind → Asked → List Said
says_of p command a =
    let r = shown a.typed.job a.typed.text (waited a.typed.pick a.reply) in
    prompt p ∷ said_of r.0 r.1 ∷ []
says_of p k a = prompt p ∷ []

unfoldable pub says : Bytes → List Asked → List Said
says p [] = []
says p (a ∷ as') = says_of p (kind a) a ++ says p as'

pub await-ready :
    (pick : Pick) (e : Event) (q r : List Event) (c : Conn)
    → await pick (ready (in_cmd_reply command pick e q) (in_api_resp command pick e r) c)
      ≡ done (answer_of (waited pick e), ready q r c)
unfolding in_cmd_reply in_api_resp waited
await-ready (ctx_done w) e q r c = unfold await in refl
await-ready from_cmd_reply e q r c = await_cmd_reply-ready e q r c
await-ready from_api_resp e q r c = await_api_resp-ready e q r c

job_or-answer :
    (job : Bytes) (x : Bytes × Option Err) (c : Conn)
    → job_or (job, answer_of x) c ≡ done (answer job x.1, c)
unfolding job_or
job_or-answer job x c = refl

abbrev pub queued : Pick → Event → List Event → List Event → Conn → Conn
queued pick e q r c = ready (in_cmd_reply command pick e q) (in_api_resp command pick e r) c

sent-ready :
    (pick : Pick) (cmd : Bytes) (e : Event) (q r : List Event) (c : Conn)
    → send pick cmd [] (queued pick e q r c)
      ≡ done (answer_of (waited pick e), ready q r (act (wrote (cmd ++ codes "\r\n\r\n")) c))
sent-ready pick cmd e q r c =
    send-ready pick cmd [] _ _ c ∙ (unfold command_text in await-ready pick e q r _)

bg_api-ready :
    (pick : Pick) (job cmd : Bytes) (e : Event) (q r : List Event) (c : Conn)
    → (bg_api job pick cmd [] >>= job_or) (queued pick e q r c)
      ≡ done (
        answer job (waited pick e).1,
        ready q r (
            act
              (wrote ((codes "api bgapi uuid:" ++ (job ++ (codes " " ++ cmd))) ++ codes "\r\n\r\n"))
              c),
      )
unfolding bg_api job_or
bg_api-ready pick job cmd e q r c =
    ap (λ o. then_run (then_run o (λ x. pure (job, x))) job_or)
      (sent-ready pick (codes "api bgapi uuid:" ++ (job ++ (codes " " ++ cmd))) e q r c)

pub send_typed-ready :
    (pick : Pick) (job text : Bytes) (e : Event) (q r : List Event) (c : Conn)
    → text ≢ []
    → send_typed pick job text (queued pick e q r c)
      ≡ done (
        answer_of (shown job text (waited pick e)),
        ready q r (act (wrote (wire_text job text)) c),
      )
unfolding send_typed wire_text shown
send_typed-ready pick job [] e q r c n = elim (n refl) [ ]
send_typed-ready pick job (x ∷ cmd) e q r c n = elim (Bool-cases (x == b'/')) [
  | inl slash ↦ rw slash (sent-ready pick cmd e q r c)
  | inr no_slash ↦
      rw no_slash (elim (Bool-cases (same (first_word (x ∷ cmd)) (codes "originate"))) [
        | inl origin ↦ rw origin (bg_api-ready pick job (x ∷ cmd) e q r c)
        | inr other ↦ rw other (unfold api in sent-ready pick (codes "api " ++ (x ∷ cmd)) e q r c)
      ])
]
