-- ===== src/Conn/Send/Replies.antt =====
-- connection.go: which reply a sent command gets.
use goesl.Base.{
  ◌≡◌, refl, ap, sym, ◌∙◌, true, List, [], ◌∷◌, ◌++◌, append_assoc, append-nil, map, length, Option,
  none, some, Bytes, arith,
}
use goesl.Base.Outcome.{Outcome, done, panic}
use goesl.Errors.{NetErr, CtxErr, Err, net, ctx, writing, conn_lost}
use goesl.Event.{Event, err_or_res}
use goesl.Event.Reply.{err_or_res-done}
use goesl.Conn.{
  Conn, wrote, M, ◌>>=◌, then_run, pure, act, deadline_result, rest_of, set_deadline, write,
  write_as, write_out,
}
use goesl.Conn.Send.{
  Pick, ctx_done, from_cmd_reply, Sent, answer, await, waiting, take_cmd_reply, answered,
  send_bytes, after_write, write_failed, as_err,
}

-- A connection whose writes succeed, with these replies in its channel.
pub up : List Event → Conn → Conn
up replies c = record c { sock = record c.sock { writes = []; stuck = none }; cmd_reply = replies }

write-up :
    (b : Bytes) (replies : List Event) (c : Conn)
    → write b (up replies c) ≡ done (none, up replies (act (wrote b) c))
unfolding write write_as write_out up
write-up b replies c = refl

-- What a caller gets for a reply.
abbrev sent_of : Outcome (Bytes × Option Err) → Sent
sent_of (done r) = answer r.0 r.1
sent_of (panic p) = waiting

abbrev pub reply_to : Event → Sent
reply_to e = sent_of (err_or_res e)

answered-done :
    (o : Outcome (Bytes × Option Err)) (r : Bytes × Option Err) (c : Conn)
    → o ≡ done r
    → answered o c ≡ done (sent_of o, c)
unfolding answered
answered-done o r c h = rw h refl

send_bytes-up :
    (b : Bytes) (e : Event) (es : List Event) (c : Conn)
    → send_bytes from_cmd_reply b (up (e ∷ es) c) ≡ done (reply_to e, up es (act (wrote b) c))
unfolding send_bytes after_write await take_cmd_reply
send_bytes-up b e es c =
    ap (λ o. then_run o (λ w. after_write w from_cmd_reply)) (write-up b (e ∷ es) c)
    ∙ (unfold up in answered-done (err_or_res e) (err_or_res-done e).0 _ (err_or_res-done e).1)

-- Commands that a client sends one after the other.
pub send_all : List Bytes → M (List Sent)
send_all [] = pure []
send_all (b ∷ bs) = do s ← send_bytes from_cmd_reply b; ss ← send_all bs; pure (s ∷ ss)

after_all : List Bytes → Conn → Conn
after_all [] c = c
after_all (b ∷ bs) c = after_all bs (act (wrote b) c)

after_all-log : (bs : List Bytes) (c : Conn) → (after_all bs c).log ≡ c.log ++ map wrote bs
unfolding after_all
after_all-log [] c = sym (append-nil c.log)
after_all-log (b ∷ bs) c =
    after_all-log bs (act (wrote b) c) ∙ append_assoc c.log (wrote b ∷ []) (map wrote bs)

send_all-up :
    (bs : List Bytes) (es rest : List Event) (c : Conn)
    → length bs ≡ length es
    → send_all bs (up (es ++ rest) c) ≡ done (map reply_to es, up rest (after_all bs c))
unfolding send_all after_all
send_all-up [] [] rest c h = refl
send_all-up [] (e ∷ es) rest c h = absurd (ground arith)
send_all-up (b ∷ bs) [] rest c h = absurd (ground arith)
send_all-up (b ∷ bs) (e ∷ es) rest c h =
    ap (λ o. then_run o (λ s. send_all bs >>= λ ss. pure (s ∷ ss)))
      (send_bytes-up b e (es ++ rest) c)
    ∙ ap (λ o. then_run o (λ ss. pure (reply_to e ∷ ss)))
        (send_all-up bs es rest (act (wrote b) c) (omega arith))

-- Where writes succeed, commands sent one after the other, each until its reply is there, get the replies
-- in the channel in their order: each of them is written as it is, and gets what ErrOrRes makes of its
-- own reply.
pub send_all-in_order :
    (bs : List Bytes) (es rest : List Event) (c : Conn)
    → length bs ≡ length es
    → (c' : Conn) × (send_all bs (up (es ++ rest) c) ≡ done (map reply_to es, c'))
      × (c'.log ≡ c.log ++ map wrote bs)
      × (c'.cmd_reply ≡ rest)
unfolding up
send_all-in_order bs es rest c h =
    (up rest (after_all bs c), send_all-up bs es rest c h, after_all-log bs c, refl)

-- Where writes succeed, a command whose context is done before its reply is there returns the context's
-- error, and leaves the reply to the next command: that one is written, and gets the reply of the first.
pub send_bytes-late_reply :
    (a b : Bytes) (late : Event) (why : CtxErr) (c : Conn)
    → (c' : Conn) × (send_bytes (ctx_done why) a (up [] c)
        ≡ done (answer [] (some (ctx why)), up [] c'))
      × (send_bytes from_cmd_reply b (up (late ∷ []) c')
          ≡ done (reply_to late, up [] (act (wrote b) c')))
unfolding send_bytes after_write await
send_bytes-late_reply a b late why c = (
  act (wrote a) c,
  ap (λ o. then_run o (λ w. after_write w (ctx_done why))) (write-up a [] c),
  send_bytes-up b late [] (act (wrote a) c),
)

write-stuck :
    (s : Option NetErr) (e : NetErr) (b : Bytes) (c : Conn)
    → s ≡ some e
    → write_as s b c ≡ done (some e, c)
unfolding write_as
write-stuck s e b c h = rw h refl

write_failed-lost :
    (e : NetErr) (c : Conn)
    → conn_lost (net e) writing ≡ true
    → c.present ≡ true
    → (c' : Conn) × (write_failed e c ≡ done (answer [] (as_err (deadline_result c.sock)), c'))
      × (c'.log ≡ c.log)
unfolding write_failed set_deadline
write_failed-lost e c l p = (
  record c { sock = record c.sock { deadlines = rest_of c.sock.deadlines } },
  rw (l, p) refl,
  refl,
)

-- Where the writer has failed before with an error that counts as a lost connection, the error that
-- SendBytes returns is that of the deadline call which follows, and not that of the write; where the call
-- succeeds, the command was not sent, and there is no error at all.
pub send_bytes-lost :
    (pick : Pick) (b : Bytes) (e : NetErr) (c : Conn)
    → c.sock.stuck ≡ some e
    → conn_lost (net e) writing ≡ true
    → c.present ≡ true
    → (c' : Conn) × (send_bytes pick b c ≡ done (answer [] (as_err (deadline_result c.sock)), c'))
      × (c'.log ≡ c.log)
unfolding send_bytes write after_write
send_bytes-lost pick b e c s l p =
    let (c', w, same_log) = write_failed-lost e c l p in
    (
      c',
      ap (λ o. then_run o (λ r. after_write r pick)) (write-stuck c.sock.stuck e b c s) ∙ w,
      same_log,
    )
