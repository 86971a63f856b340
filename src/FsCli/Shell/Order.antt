-- ===== src/FsCli/Shell/Order.antt =====
-- examples/fs_cli/main.go: what a run of typed commands sends and prints.
use goesl.Base.{
  ◌≡◌, ◌≢◌, refl, ap, sym, ◌∙◌, List, [], ◌∷◌, ◌++◌, map, All, Option, none, Bytes, codes, same,
  append_assoc,
}
use goesl.Base.Outcome.{Outcome, done, panic}
use goesl.Errors.{Err}
use goesl.Event.{Event}
use goesl.Conn.{Conn, wrote, M, ◌>>=◌, then_run, pure, act, close}
use goesl.Conn.Send.{from_api_resp, send, api, command_text}
use goesl.Conn.Send.Ready.{
  ready, reply_result, answer_of, send-ready, writing_all, await_api_resp-ready,
}
use goesl.FsCli.Shell.{
  Said, prompt, End, closed, Typed, Kind, nothing, quits, command, kind_of, said_of, say,
  after_command, run_line, read_lines, cli_prefix, after_host, message_send,
}
use goesl.FsCli.Shell.Asked.{
  Asked, waited, in_cmd_reply, in_api_resp, kind, cmd_queue, api_queue, texts_of, texts, shown,
  says_of, says, send_typed-ready,
}

-- The end of messageSend, after this has been printed.
abbrev closing : List Said → Outcome (Unit {0} × Conn) → Outcome ((List Said × End) × Conn)
closing out o = then_run o (λ _. pure (out, closed))

says-closing :
    (a : Said) (out : List Said) (o : Outcome (Unit {0} × Conn))
    → then_run (closing out o) (λ r. pure (say a r)) ≡ closing (a ∷ out) o
unfolding say
says-closing a out (done (u, c)) = refl
says-closing a out (panic p) = refl

quit_line :
    (p : Bytes) (k : Kind) (t : Typed) (rest : M (List Said × End)) (c : Conn)
    → k ≡ quits
    → then_run (run_line k t rest c) (λ r. pure (say (prompt p) r))
      ≡ closing (prompt p ∷ []) (close c)
unfolding run_line
quit_line p k t rest c h = rw h (says-closing (prompt p) [] (close c))

kind_text : (t : Bytes) → kind_of t ≡ command → t ≢ []
unfolding kind_of same
kind_text [] h = cc
kind_text (x ∷ t) h = λ e. cc

printed :
    (p : Bytes) (a : Said) (out : List Said) (o : Outcome ((List Said × End) × Conn))
    (d : Outcome (Unit {0} × Conn))
    → o ≡ closing out d
    → then_run (then_run o (λ x. pure (say a x))) (λ x. pure (say (prompt p) x))
      ≡ closing (prompt p ∷ a ∷ out) d
printed p a out o d h =
    ap (λ v. then_run (then_run v (λ x. pure (say a x))) (λ x. pure (say (prompt p) x))) h
    ∙ ap (λ v. then_run v (λ x. pure (say (prompt p) x))) (says-closing a out d)
    ∙ says-closing (prompt p) (a ∷ out) d

-- One line that does not end the loop.
asked_line :
    (p : Bytes) (k : Kind) (a : Asked) (rest : M (List Said × End)) (q r : List Event) (c d : Conn)
    (out : List Said)
    → k ≢ quits
    → (k ≡ command → a.typed.text ≢ [])
    → rest (ready q r (writing_all (texts_of k a) c)) ≡ closing out (close d)
    → then_run
        (run_line k a.typed rest
          (ready (in_cmd_reply k a.typed.pick a.reply q) (in_api_resp k a.typed.pick a.reply r) c))
        (λ x. pure (say (prompt p) x))
      ≡ closing (says_of p k a ++ out) (close d)
unfolding run_line texts_of writing_all says_of in_cmd_reply in_api_resp
asked_line p nothing a rest q r c d out n m h =
    ap (λ o. then_run o (λ x. pure (say (prompt p) x))) h ∙ says-closing (prompt p) out (close d)
asked_line p quits a rest q r c d out n m h = elim (n refl) [ ]
asked_line p command a rest q r c d out n m h =
    let x = shown a.typed.job a.typed.text (waited a.typed.pick a.reply) in
    ap (λ o. then_run (then_run o (λ x. after_command x rest)) (λ x. pure (say (prompt p) x)))
      (send_typed-ready a.typed.pick a.typed.job a.typed.text a.reply q r c (m refl))
    ∙ printed p (said_of x.0 x.1) out (rest _) (close d) h

writing_all-append :
    (ts us : List Bytes) (c : Conn) → writing_all (ts ++ us) c ≡ writing_all us (writing_all ts c)
unfolding writing_all
writing_all-append [] us c = refl
writing_all-append (t ∷ ts) us c = writing_all-append ts us (act (wrote t) c)

-- A line that does not end messageSend.
abbrev pub GoesOn : Asked → Type 0
GoesOn a = kind a ≢ quits

-- The loop, up to a line that quits.
read_lines-in_order :
    (p : Bytes) (as' : List Asked) (t : Typed) (behind : List Typed) (q r : List Event) (c : Conn)
    → All GoesOn as'
    → kind_of t.text ≡ quits
    → read_lines p
        (map (λ a. a.typed) as' ++ t ∷ behind)
        (ready (cmd_queue as' q) (api_queue as' r) c)
      ≡ (close >>= λ _. pure (says p as' ++ prompt p ∷ [], closed))
          (ready q r (writing_all (texts as') c))
unfolding read_lines cmd_queue api_queue says texts writing_all
read_lines-in_order p [] t behind q r c g h =
    quit_line p (kind_of t.text) t (read_lines p behind) (ready q r c) h
read_lines-in_order p (a ∷ as') t behind q r c (ga, g) h =
    let own = texts_of (kind a) a in
    let rest = read_lines p (map (λ x. x.typed) as' ++ t ∷ behind) in
    asked_line p (kind a) a rest (cmd_queue as' q) (api_queue as' r) c
      (ready q r (writing_all (texts as') (writing_all own c))) (says p as' ++ prompt p ∷ []) ga
      (kind_text a.typed.text) (read_lines-in_order p as' t behind q r (writing_all own c) g h)
    ∙ ap (λ l. closing l (close (ready q r (writing_all (texts as') (writing_all own c)))))
        (sym (append_assoc (says_of p (kind a) a) (says p as') (prompt p ∷ [])))
    ∙ ap (λ k. closing (says p (a ∷ as') ++ prompt p ∷ []) (close (ready q r k)))
        (sym (writing_all-append own (texts as') c))

abbrev pub ask_host : Bytes
ask_host = codes "api global_getvar hostname\r\n\r\n"

host_asked :
    (e : Event) (q r : List Event) (c : Conn)
    → send from_api_resp (codes "api global_getvar") (codes "hostname" ∷ []) (ready q (e ∷ r) c)
      ≡ done (answer_of (reply_result e), ready q r (act (wrote ask_host) c))
host_asked e q r c =
    send-ready from_api_resp (codes "api global_getvar") (codes "hostname" ∷ []) q (e ∷ r) c
    ∙ (unfold command_text in await_api_resp-ready e q r (act (wrote ask_host) c))

after_host-some :
    (x : Bytes × Option Err) (host : Bytes) (ts : List Typed) (c : Conn)
    → x ≡ (host, none)
    → after_host (answer_of x) ts c
      ≡ then_run (read_lines (cli_prefix host) ts c) (λ r. pure (say (prompt (cli_prefix host)) r))
unfolding after_host
after_host-some x host ts c h = ap (λ y. after_host (answer_of y) ts c) h

-- On a connection whose calls succeed, and where the reply to the first command gives the host, the
-- commands that are typed before a line that quits are sent after it in their order, each as it stands
-- behind the words of its kind, and nothing for an empty line; each prints what its own wait gives,
-- behind a prompt for its line. Then Close is called, once, and what is typed behind the line that quits
-- is not read.
pub message_send-in_order :
    (e : Event) (host : Bytes) (as' : List Asked) (t : Typed) (behind : List Typed)
    (q r : List Event) (c : Conn)
    → reply_result e ≡ (host, none)
    → All GoesOn as'
    → kind_of t.text ≡ quits
    → message_send from_api_resp
        (map (λ a. a.typed) as' ++ t ∷ behind)
        (ready (cmd_queue as' q) (e ∷ api_queue as' r) c)
      ≡ (close >>= λ _. pure (
        prompt (cli_prefix host) ∷ (says (cli_prefix host) as' ++ prompt (cli_prefix host) ∷ []),
        closed,
      ))
          (ready q r (writing_all (ask_host ∷ texts as') c))
unfolding message_send api writing_all
message_send-in_order e host as' t behind q r c x g h =
    let p = cli_prefix host in
    let ts = map (λ a. a.typed) as' ++ t ∷ behind in
    let c' = act (wrote ask_host) c in
    ap (λ o. then_run o (λ s. after_host s ts)) (host_asked e (cmd_queue as' q) (api_queue as' r) c)
    ∙ after_host-some (reply_result e) host ts (ready (cmd_queue as' q) (api_queue as' r) c') x
    ∙ ap (λ o. then_run o (λ s. pure (say (prompt p) s)))
        (read_lines-in_order p as' t behind q r c' g h)
    ∙ says-closing (prompt p) (says p as' ++ prompt p ∷ [])
        (close (ready q r (writing_all (texts as') c')))
