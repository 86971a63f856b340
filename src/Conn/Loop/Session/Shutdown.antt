-- ===== src/Conn/Loop/Session/Shutdown.antt =====
-- connection.go: a session that Close ends while HandleEvents waits in a read.
use goesl.Base.{
  inl, ◌⊎◌, sym, ℕ, ◌+◌, ◌≡◌, refl, ap, ◌∙◌, Bool, true, false, List, [], ◌∷◌, ◌++◌, append-nil,
  none, some, arith, ◌==◌, if-true, if-false,
}
use goesl.Base.Outcome.{done}
use goesl.Errors.{Err, reading, conn_lost}
use goesl.Event.{Event}
use goesl.Conn.{Conn, then_run, set_deadline, shut_socket, cancel_callback, close}
use goesl.Conn.Loop.{Turn, ctx_err}
use goesl.Conn.Loop.Closing.{Cut, finish-Cut, cut_turn-closed}
use goesl.Conn.Loop.Callback.{listening, stops}
use goesl.Conn.Loop.Session.{
  Session, Callback, Choice, Loop, leaving, ended, cuts, leaves, calls_back, bind_conn, finished,
  turn_to_end, loop_of, after_turn, turn_in, note_started, note_canceled, cancel_newest,
  all_stopped, has_stopped, step, next_run, run,
}
use goesl.Conn.Loop.Session.Departing.{Departing, done_at}
use goesl.Conn.Loop.Session.Kept.{gone, kept_by, ends}

-- A connection that Close can end.
abbrev pub open_conn : Conn → Conn
open_conn k = record k {
  connected = true;
  once = some false;
  canceler = some false;
  present = true;
}

-- A session with one callback goroutine.
abbrev pub attended_by : Callback → Loop → Conn → ℕ → List Event → Session
attended_by b l c n es = record {
  conn = c;
  loop = l;
  callbacks = b ∷ [];
  calls = n;
  delivered = es;
}

close-open_conn :
    (k : Conn)
    → (c : Conn) × (close (open_conn k) ≡ done (tt, c))
      × Cut c
      × (c.canceled ≡ k.canceled + 1)
      × (c.started ≡ k.started)
      × (c.events ≡ k.events)
unfolding close set_deadline shut_socket cancel_callback
close-open_conn k = (_, refl, refl, refl, refl, refl)

noted :
    (k c : Conn) (b : Callback)
    → c.canceled ≡ k.canceled + 1
    → c.started ≡ k.started
    → note_started k c (note_canceled k c (b ∷ [])) ≡ record b { done = true } ∷ []
unfolding note_started note_canceled cancel_newest
noted k c b h g =
    if-true (c.started == k.started) _ _ (equal c.started k.started g)
    ∙ if-false (c.canceled == k.canceled) _ _ (more c.canceled k.canceled h)
  where
    equal : (m n : ℕ) → m ≡ n → (m == n) ≡ true
    equal m n e = ground arith

    more : (m n : ℕ) → m ≡ n + 1 → (m == n) ≡ false
    more m n e = ground arith

cut_in :
    (t : Turn) (e : Err) (k : Conn) (b : Callback) (n : ℕ) (es : List Event)
    → t.at_top ≡ none
    → conn_lost e reading ≡ true
    → (c : Conn) × (step (cuts t e) (attended_by b Loop.reading (open_conn k) n es)
        ≡ done (attended_by (record b { done = true }) (leaving (ctx_err t.at_end)) c n es))
      × (c.events ≡ k.events)
unfolding step turn_in turn_to_end finished after_turn loop_of bind_conn
cut_in t e k b n es a l =
    let (c, q, cut, d, g, v) = close-open_conn k in
    let s = attended_by b Loop.reading (open_conn k) n es in
    (
      c,
      ap (λ o. bind_conn (then_run o finished) (after_turn s))
            (cut_turn-closed t e (open_conn k) c refl cut a l q)
          ∙ ap (λ o. bind_conn o (after_turn s)) (finish-Cut (ctx_err t.at_end) c cut)
          ∙ ap
              (λ bs. done (record {
                conn = c;
                loop = leaving (ctx_err t.at_end);
                callbacks = bs;
                calls = n;
                delivered = es;
              }))
              (noted (open_conn k) c b d g),
      v,
    )

-- What is behind the first step of a run is a run.
run-behind :
    (k : Choice) (ks : List Choice) (s s' s'' : Session)
    → step k s ≡ done s'
    → run (k ∷ ks) s ≡ done s''
    → run ks s' ≡ done s''
unfolding run
run-behind k ks s s' s'' h r = sym (ap (λ o. next_run o (run ks)) h) ∙ r

-- In a session with one callback goroutine, in its loop, on a connection that Close can still run on, let
-- Close be called while HandleEvents waits in a read, before which its context was not done, and which
-- then fails as on a lost connection. However the session goes on from there, with any steps and if it
-- does not panic, HandleEvents is out of its loop, and the events that OnEvent was called with, followed
-- by those in the channel, are as they were, in order and with none lost or new. From any such point,
-- once the goroutine takes the case of its select that its context is done, and HandleEvents ends its
-- wait for it, the goroutine has stopped, HandleEvents has returned the error of its context, or none,
-- and these two steps do not call OnEvent.
pub run-shuts_down :
    (t : Turn) (e : Err) (k : Conn) (b : Bool) (n : ℕ) (es : List Event) (ks : List Choice)
    (s : Session)
    → t.at_top ≡ none
    → conn_lost e reading ≡ true
    → run
        (cuts t e ∷ ks)
        (attended_by (record { phase = listening; done = b }) Loop.reading (open_conn k) n es)
      ≡ done s
    → (s' : Session) × ((s.loop ≡ leaving (ctx_err t.at_end)) ⊎ (s.loop ≡ ended (ctx_err t.at_end)))
      × (s.delivered ++ s.conn.events ≡ es ++ k.events)
      × (run (calls_back 0 stops ∷ leaves ∷ []) s ≡ done s')
      × (s'.loop ≡ ended (ctx_err t.at_end))
      × (all_stopped s'.callbacks ≡ true)
      × (s'.delivered ≡ s.delivered)
unfolding all_stopped has_stopped
run-shuts_down t e k b n es ks s a l r =
    let x = ctx_err t.at_end in
    let (c, q, h) = cut_in t e k (record { phase = listening; done = b }) n es a l in
    let cut = attended_by (done_at listening) (leaving x) c n es in
    let departing : Departing x cut = record { loop = inl refl; one = inl refl } in
    let (still, kept) = kept_by x ks cut s departing (run-behind (cuts t e) ks _ cut s q r) in
    (
      gone x s,
      still.loop,
      kept ∙ ap (λ v. es ++ v) h,
      ends x s still,
      refl,
      refl,
      append-nil s.delivered,
    )
