-- ===== src/Conn/Send/Ready.antt =====
-- connection.go: commands on a connection whose calls succeed.
use goesl.Base.{◌≡◌, refl, ap, ◌∙◌, List, [], ◌∷◌, ◌++◌, Option, none, Bytes, codes, true, false}
use goesl.Base.Outcome.{Outcome, done, panic}
use goesl.Errors.{Err}
use goesl.Base.Int.{ℤ}
use goesl.Fslog
use goesl.Event.{Event, err_or_res}
use goesl.Event.Reply.{err_or_res-done}
use goesl.Conn.{Conn, wrote, pure, then_run, act, set_deadline, write, write_as, write_out}
use goesl.Conn.Send.{
  Pick, from_cmd_reply, from_api_resp, Sent, answer, must_of, must_send_ok, fslog_as, fslog,
  answered, take_cmd_reply, take_api_resp, await, after_write, send_bytes, command_text, send,
}

-- A connection that is up, whose deadline calls and writes succeed, with these replies in its channels.
unfoldable pub ready : List Event → List Event → Conn → Conn
ready q r c = record c {
  present = true;
  sock = record c.sock { deadlines = []; writes = []; stuck = none; closed = false };
  cmd_reply = q;
  api_resp = r;
}

-- The connection behind these writes.
unfoldable pub writing_all : List Bytes → Conn → Conn
writing_all [] c = c
writing_all (t ∷ ts) c = writing_all ts (act (wrote t) c)

-- ErrOrRes.
result_of : Outcome (Bytes × Option Err) → Bytes × Option Err
result_of (done r) = r
result_of (panic p) = ([], none)

unfoldable pub reply_result : Event → Bytes × Option Err
unfolding result_of
reply_result e = result_of (err_or_res e)

answered-result_of :
    (o : Outcome (Bytes × Option Err)) (r : Bytes × Option Err) (c : Conn)
    → o ≡ done r
    → answered o c ≡ done (answer (result_of o).0 (result_of o).1, c)
unfolding answered result_of
answered-result_of o r c h = rw h refl

abbrev pub answer_of : Bytes × Option Err → Sent
answer_of r = answer r.0 r.1

answered-reply :
    (e : Event) (c : Conn) → answered (err_or_res e) c ≡ done (answer_of (reply_result e), c)
unfolding reply_result
answered-reply e c = answered-result_of (err_or_res e) (err_or_res-done e).0 c (err_or_res-done e).1

-- A command that is sent is written, with nothing before or behind it, and waits.
pub send-ready :
    (pick : Pick) (cmd : Bytes) (args : List Bytes) (q r : List Event) (c : Conn)
    → send pick cmd args (ready q r c)
      ≡ await pick (ready q r (act (wrote (command_text cmd args)) c))
unfolding send send_bytes after_write write write_as write_out set_deadline ready
send-ready pick cmd args q r c = refl

pub await_cmd_reply-ready :
    (e : Event) (q r : List Event) (c : Conn)
    → await from_cmd_reply (ready (e ∷ q) r c) ≡ done (answer_of (reply_result e), ready q r c)
unfolding await take_cmd_reply ready
await_cmd_reply-ready e q r c = answered-reply e _

pub await_api_resp-ready :
    (e : Event) (q r : List Event) (c : Conn)
    → await from_api_resp (ready q (e ∷ r) c) ≡ done (answer_of (reply_result e), ready q r c)
unfolding await take_api_resp ready
await_api_resp-ready e q r c = answered-reply e _

abbrev pub log_text : Bytes → Bytes
log_text name = codes "log " ++ (name ++ codes "\r\n\r\n")

-- A level that has a name.
pub fslog-ready :
    (lv : ℤ) (name : Bytes) (e : Event) (q r : List Event) (c : Conn)
    → Fslog.to_string lv ≡ done name
    → fslog from_cmd_reply lv (ready (e ∷ q) r c)
      ≡ done (must_of (answer_of (reply_result e)), ready q r (act (wrote (log_text name)) c))
unfolding fslog fslog_as must_send_ok command_text
fslog-ready lv name e q r c h =
    ap (λ o. fslog_as from_cmd_reply o (ready (e ∷ q) r c)) h
    ∙ ap (λ o. then_run o (λ x. pure (must_of x)))
        (send-ready from_cmd_reply (codes "log") (name ∷ []) (e ∷ q) r c
          ∙ await_cmd_reply-ready e q r (act (wrote (log_text name)) c))
