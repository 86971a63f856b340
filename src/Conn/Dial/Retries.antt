-- ===== src/Conn/Dial/Retries.antt =====
-- connection.go: how often dialTimes dials, and how long it waits between the dials.
use goesl.Base.{
  ℕ, zero, suc, ◌<◌, ◌≡◌, refl, ap, ◌∙◌, true, false, List, [], ◌∷◌, ◌++◌, Option, some, arith,
  length, map, if-true, if-false,
}
use goesl.Base.Int.{ℤ, pos, negsuc}
use goesl.Base.Outcome.{done}
use goesl.Redo.{Strategy, strategy_reset}
use goesl.Errors.{NetErr, eof}
use goesl.Conn.{Conn, Socket, DialResult, failed, opened, dialed, then_run, pure, act}
use goesl.Conn.Dial.{
  reached, gave_up, may_dial, dial_loop, dial_times, reset_strategy, use_socket, with_strategy,
}
use goesl.Conn.Dial.Failing.{
  Allows, attempts, waited, settled, last_err, may_dial-Allows, fails, dial_loop-fails, fails-log,
  fails-strategy, fails-max_retries, fails-dials,
}

dial_loop-stop :
    (i : ℕ) (last : NetErr) (ds : List DialResult) (c : Conn)
    → may_dial i c.opts.max_retries ≡ false
    → dial_loop i last ds c ≡ done (gave_up last, c)
unfolding dial_loop
dial_loop-stop i last [] c h = rw h refl
dial_loop-stop i last (opened o ∷ ds) c h = if-false (may_dial i c.opts.max_retries) _ _ h
dial_loop-stop i last (failed e ∷ ds) c h = if-false (may_dial i c.opts.max_retries) _ _ h

may_dial-past : (max : ℤ) (n : ℕ) → max ≡ pos n → may_dial (suc n) max ≡ false
may_dial-past max n h = rw h (ground arith)

Allows-limit : (max : ℤ) (n k : ℕ) → max ≡ pos n → k < suc n → Allows max k
Allows-limit max n k h l = rw h (omega arith)

-- Where there is a strategy, `n` is the largest number of retries, and the first `n + 1` dials fail, a
-- redial ends with the error of the last of them. Each of them is followed by the next wait of the
-- strategy; no other dial is made, and no socket is left.
pub dial_times-gave_up :
    (c : Conn) (s : Strategy) (n : ℕ) (e : NetErr) (es : List NetErr) (ds : List DialResult)
    → c.opts.redial_strategy ≡ some s
    → c.opts.max_retries ≡ pos n
    → length es ≡ n
    → c.dials ≡ map failed (e ∷ es) ++ ds
    → (c' : Conn) × (dial_times true c ≡ done (gave_up (last_err e es), c'))
      × (c'.log ≡ c.log ++ attempts s (suc n))
      × (c'.dials ≡ ds)
      × (c'.present ≡ false)
unfolding dial_times
dial_times-gave_up c s n e es ds h m l d =
    let c' = fails s (e ∷ es) ds c in
    (
      c',
      ap (λ k. dial_loop 0 eof k c) d
          ∙ dial_loop-fails 0 (suc n) eof (e ∷ es) ds s c h (omega arith)
              (λ k. Allows-limit c.opts.max_retries n k m)
          ∙ dial_loop-stop (suc n) (last_err eof (e ∷ es)) ds c'
              (may_dial-past c'.opts.max_retries n (fails-max_retries s (e ∷ es) ds c ∙ m))
          ∙ (unfold last_err in refl),
      fails-log s (e ∷ es) ds c ∙ ap (λ k. c.log ++ attempts s (suc k)) l,
      (fails-dials s e es ds c).0,
      (fails-dials s e es ds c).1,
    )

opened_at : ℕ → Strategy → Socket → List DialResult → Conn → Conn
opened_at zero s o ds c = use_socket o (act dialed (record c { dials = ds }))
opened_at (suc i) s o ds c =
    with_strategy (strategy_reset s) (use_socket o (act dialed (record c { dials = ds })))

reset_strategy-some :
    (i : ℕ) (r : Option Strategy) (s : Strategy) (o : Socket) (ds : List DialResult) (c : Conn)
    → r ≡ some s
    → then_run
        (reset_strategy i r (use_socket o (act dialed (record c { dials = ds }))))
        (λ _. pure reached)
      ≡ done (reached, opened_at i s o ds c)
unfolding reset_strategy opened_at
reset_strategy-some zero r s o ds c h = refl
reset_strategy-some (suc i) r s o ds c h = rw h refl

dial_loop-opened :
    (i : ℕ) (last : NetErr) (o : Socket) (ds : List DialResult) (s : Strategy) (c : Conn)
    → c.opts.redial_strategy ≡ some s
    → Allows c.opts.max_retries i
    → dial_loop i last (opened o ∷ ds) c ≡ done (reached, opened_at i s o ds c)
unfolding dial_loop
dial_loop-opened i last o ds s c h a =
    if-true (may_dial i c.opts.max_retries) _ _ (may_dial-Allows c.opts.max_retries i a)
    ∙ reset_strategy-some i c.opts.redial_strategy s o ds c h

opened_at-strategy :
    (i : ℕ) (s : Strategy) (o : Socket) (ds : List DialResult) (c : Conn)
    → c.opts.redial_strategy ≡ some (waited s i)
    → (opened_at i (waited s i) o ds c).opts.redial_strategy ≡ some (settled s i)
unfolding opened_at settled
opened_at-strategy zero s o ds c h = h ∙ (unfold waited in refl)
opened_at-strategy (suc i) s o ds c h = refl

opened_at-log :
    (i : ℕ) (s : Strategy) (o : Socket) (ds : List DialResult) (c : Conn)
    → ((opened_at i s o ds c).log ≡ c.log ++ dialed ∷ [])
      × ((opened_at i s o ds c).sock ≡ o)
      × ((opened_at i s o ds c).present ≡ true)
      × ((opened_at i s o ds c).dials ≡ ds)
unfolding opened_at
opened_at-log zero s o ds c = (refl, refl, refl, refl)
opened_at-log (suc i) s o ds c = (refl, refl, refl, refl)

Allows-before : (max : ℤ) (j k : ℕ) → Allows max j → k < j → Allows max k
Allows-before (pos n) j k a l = omega arith
Allows-before (negsuc n) j k a l = tt

-- Where there is a strategy, a redial goes on, with the strategy's waits, until the first dial that
-- succeeds, if the limit of the retries allows as many dials: its socket is the connection's, and the
-- strategy has been reset if a dial had failed. The dials behind it are not made.
pub dial_times-reached :
    (c : Conn) (s : Strategy) (es : List NetErr) (o : Socket) (ds : List DialResult)
    → c.opts.redial_strategy ≡ some s
    → Allows c.opts.max_retries (length es)
    → c.dials ≡ map failed es ++ opened o ∷ ds
    → (c' : Conn) × (dial_times true c ≡ done (reached, c'))
      × (c'.opts.redial_strategy ≡ some (settled s (length es)))
      × (c'.log ≡ (c.log ++ attempts s (length es)) ++ dialed ∷ [])
      × (c'.sock ≡ o)
      × (c'.present ≡ true)
      × (c'.dials ≡ ds)
unfolding dial_times
dial_times-reached c s es o ds h a d =
    let n = length es in
    let f = fails s es (opened o ∷ ds) c in
    let t = fails-strategy s es (opened o ∷ ds) c h in
    let left = opened_at-log n (waited s n) o ds f in
    let allowed : Allows f.opts.max_retries n = rw (fails-max_retries s es (opened o ∷ ds) c) a in
    (
      opened_at n (waited s n) o ds f,
      ap (λ k. dial_loop 0 eof k c) d
          ∙ dial_loop-fails 0 n eof es (opened o ∷ ds) s c h (omega arith)
              (λ k. Allows-before c.opts.max_retries n k a)
          ∙ dial_loop-opened n (last_err eof es) o ds (waited s n) f t allowed,
      opened_at-strategy n s o ds f t,
      left.0 ∙ ap (λ l. l ++ dialed ∷ []) (fails-log s es (opened o ∷ ds) c),
      left.1,
      left.2,
      left.3,
    )
