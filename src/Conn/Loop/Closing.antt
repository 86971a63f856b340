-- ===== src/Conn/Loop/Closing.antt =====
-- connection.go: HandleEvents, when another goroutine calls Close.
pub mod Effect
use goesl.Base.{
  ◌≡◌, refl, ap, ◌∙◌, Bool, true, false, List, ◌∷◌, Option, none, some, codes, if◌then◌else◌,
  if-true, if-false, not, ◌&&◌, arith, Bool-cases, inl, inr, sym,
}
use goesl.Base.Outcome.{Outcome, done}
use goesl.Errors.{CtxErr, Err, ctx, message, reading, conn_lost, closed_or_canceled}
use goesl.Recv.{new_event}
use goesl.Conn.{
  Conn, M, ◌>>=◌, ◌>>◌, then_run, pure, set_deadline, shut_socket, cancel_callback, cancel_as,
  announce, announce_as, close_body, close_as, close,
}
use goesl.Conn.Keeps.{After, After->>=, After-done}
use goesl.Conn.Loop.{
  Turn, Next, returns, ctx_err, received_one, lost, turn, finish, continue, handle_events,
}

-- A turn whose read waits when Close is called, and fails by it with this error.
cut_read : Turn → Err → M Next
unfolding received_one
cut_read t e = do close; received_one t (some e) new_event

cut_at_top : Turn → Err → Option CtxErr → M Next
unfolding cut_read
cut_at_top t e none = cut_read t e
cut_at_top t e (some x) = pure (returns (some (ctx x)))

abbrev pub disconnected : Option Err
disconnected = some (message (codes "disconnected"))

unfoldable pub cut_turn : Turn → Err → M Next
unfolding cut_at_top
cut_turn t e c = if c.connected then cut_at_top t e t.at_top c else done (returns disconnected, c)

-- HandleEvents, from such a turn on.
unfoldable pub cut_events : Turn → Err → List Turn → M Next
unfolding cut_turn continue
cut_events t e ts = cut_turn t e >>= continue (handle_events ts)

abbrev pub Cut : Conn → Type 0
Cut c = c.connected ≡ false

announce-Cut : (b : Bool) (c : Conn) → b ≡ c.connected → After Cut (announce_as b c)
unfolding announce_as After
announce-Cut true c h = refl
announce-Cut false c h = sym h

cancel_as-Cut : (r : Option Bool) (c : Conn) → Cut c → After Cut (cancel_as r c)
unfolding cancel_as After
cancel_as-Cut none c h = tt
cancel_as-Cut (some true) c h = h
cancel_as-Cut (some false) c h = h

set_deadline-Cut : (c : Conn) → Cut c → After Cut (set_deadline c)
unfolding set_deadline After
set_deadline-Cut c h = elim (Bool-cases c.present) [ inl p ↦ rw p h | inr p ↦ rw p tt ]

shut_socket-Cut : (c : Conn) → Cut c → After Cut (shut_socket c)
unfolding shut_socket After
shut_socket-Cut c h = elim (Bool-cases c.present) [ inl p ↦ rw p h | inr p ↦ rw p tt ]

close_body-Cut : (c : Conn) → After Cut (close_body c)
unfolding close_body announce cancel_callback
close_body-Cut c =
    After->>= Cut Cut (announce_as c.connected c) _ (announce-Cut c.connected c refl) (λ _ d h.
      After->>= Cut Cut (cancel_as d.canceler d) _ (cancel_as-Cut d.canceler d h) (λ _ k g.
        After->>= Cut Cut (set_deadline k) _ (set_deadline-Cut k g) (λ _. shut_socket-Cut)))

close-Cut : (c : Conn) → c.once ≡ some false → After Cut (close c)
unfolding close close_as
close-Cut c h = rw h (close_body-Cut (record c { once = some true }))

and_false : (a b : Bool) → b ≡ false → (a && b) ≡ false
and_false a b h = ground arith

-- The deferred function does nothing where the connection is not connected.
pub finish-Cut : (e : Option Err) (c : Conn) → Cut c → finish e c ≡ done (returns e, c)
unfolding finish
finish-Cut e c h =
    if-false {A = Outcome (Next × Conn)} (not c.opts.auto_redial && c.connected) _ _
      (and_false (not c.opts.auto_redial) c.connected h)

lost-Cut :
    (t : Turn) (e : Err) (c : Conn)
    → conn_lost e reading ≡ true
    → Cut c
    → lost t e c ≡ done (returns (ctx_err t.at_end), c)
unfolding lost
lost-Cut t e c l h =
    if-true {A = Outcome (Next × Conn)} (conn_lost e reading) _ _ l
    ∙ if-false {A = Outcome (Next × Conn)} (c.opts.auto_redial && c.connected) _ _
        (and_false c.opts.auto_redial c.connected h)

pub cut_turn-closed :
    (t : Turn) (e : Err) (c c' : Conn)
    → c.connected ≡ true
    → c'.connected ≡ false
    → t.at_top ≡ none
    → conn_lost e reading ≡ true
    → close c ≡ done (tt, c')
    → cut_turn t e c ≡ done (returns (ctx_err t.at_end), c')
unfolding cut_turn cut_at_top cut_read received_one
cut_turn-closed t e c c' on cut a l h =
    if-true {A = Outcome (Next × Conn)} c.connected _ _ on
    ∙ ap (λ w. cut_at_top t e w c) a
    ∙ ap (λ o. then_run o (λ _. lost t e)) h
    ∙ lost-Cut t e c' l cut

-- Where Close, which has not run yet on this connection, returns: a HandleEvents that waits in a read,
-- which then fails as on a lost connection, returns the error of its context, which is none if that is
-- not done; and one that is not in a read returns the error "disconnected" when it comes to its next
-- turn, whether its context is done or not. That is neither net.ErrClosed nor context.Canceled.
pub handle_events-closed :
    (t t' : Turn) (e : Err) (ts : List Turn) (c c' : Conn)
    → c.connected ≡ true
    → c.once ≡ some false
    → t.at_top ≡ none
    → conn_lost e reading ≡ true
    → close c ≡ done (tt, c')
    → (cut_events t e ts c ≡ done (returns (ctx_err t.at_end), c'))
      × (handle_events (t' ∷ ts) c' ≡ done (returns disconnected, c'))
      × (closed_or_canceled (message (codes "disconnected")) ≡ false)
unfolding cut_events continue handle_events turn closed_or_canceled
handle_events-closed t t' e ts c c' on o a l h =
    let cut : c'.connected ≡ false = After-done Cut (close-Cut c o) h in
    (
      ap (λ o. then_run o (continue (handle_events ts))) (cut_turn-closed t e c c' on cut a l h)
          ∙ finish-Cut (ctx_err t.at_end) c' cut,
      ap (λ o. then_run o (continue (handle_events ts)))
            (if-false {A = Outcome (Next × Conn)} c'.connected _ _ cut)
          ∙ finish-Cut disconnected c' cut,
      refl,
    )
