-- ===== src/Conn/Dial/Failing.antt =====
-- connection.go: dials that fail, one after the other, with the waits between them.
use goesl.Base.{
  ℕ, zero, suc, ◌+◌, ◌≤◌, ◌<◌, ◌≡◌, refl, ap, sym, ◌∙◌, true, false, List, [], ◌∷◌, ◌++◌,
  append_assoc, append-nil, Option, some, arith, length, map, if-true,
}
use goesl.Base.Int.{ℤ, pos, negsuc}
use goesl.Base.Outcome.{done}
use goesl.Redo.{Strategy, strategy_next, strategy_reset}
use goesl.Errors.{NetErr}
use goesl.Conn.{Conn, DialResult, failed, Act, dialed, slept, then_run, act}
use goesl.Conn.Dial.{may_dial, dial_loop, wait_next, no_socket, with_strategy}

-- A limit on the retries leaves room for a dial behind `k` failed ones.
abbrev pub Allows : ℤ → ℕ → Type 0
Allows (pos n) k = k ≤ n
Allows (negsuc n) k = Unit

-- What `k` failed dials leave behind, and the strategy that is asked for the next wait.
unfoldable pub attempts : Strategy → ℕ → List Act
attempts s zero = []
attempts s (suc k) = dialed ∷ slept (strategy_next s).0 ∷ attempts (strategy_next s).1 k

unfoldable pub waited : Strategy → ℕ → Strategy
waited s zero = s
waited s (suc k) = waited (strategy_next s).1 k

-- The first dial that follows any failed one resets the strategy.
unfoldable pub settled : Strategy → ℕ → Strategy
settled s zero = s
settled s (suc k) = strategy_reset (waited s (suc k))

unfoldable pub last_err : NetErr → List NetErr → NetErr
last_err e [] = e
last_err e (f ∷ es) = last_err f es

pub may_dial-Allows : (max : ℤ) (i : ℕ) → Allows max i → may_dial i max ≡ true
may_dial-Allows (pos n) i h = ground arith
may_dial-Allows (negsuc n) i h = refl

unfoldable pub failed_once : Strategy → List DialResult → Conn → Conn
failed_once s ds c =
    act (slept (strategy_next s).0)
      (with_strategy (strategy_next s).1 (no_socket (act dialed (record c { dials = ds }))))

wait_next-some :
    (r : Option Strategy) (s : Strategy) (c : Conn)
    → r ≡ some s
    → wait_next r c
      ≡ done (tt, act (slept (strategy_next s).0) (with_strategy (strategy_next s).1 c))
unfolding wait_next
wait_next-some r s c h = rw h refl

dial_loop-failed :
    (i : ℕ) (last e : NetErr) (ds : List DialResult) (s : Strategy) (c : Conn)
    → c.opts.redial_strategy ≡ some s
    → Allows c.opts.max_retries i
    → dial_loop i last (failed e ∷ ds) c ≡ dial_loop (suc i) e ds (failed_once s ds c)
unfolding dial_loop failed_once
dial_loop-failed i last e ds s c h a =
    if-true (may_dial i c.opts.max_retries) _ _ (may_dial-Allows c.opts.max_retries i a)
    ∙ ap (λ o. then_run o (λ _. dial_loop (suc i) e ds))
        (wait_next-some c.opts.redial_strategy s (no_socket (act dialed (record c { dials = ds })))
          h)

unfoldable pub fails : Strategy → List NetErr → List DialResult → Conn → Conn
fails s [] ds c = c
fails s (e ∷ es) ds c = fails (strategy_next s).1 es ds (failed_once s (map failed es ++ ds) c)

pub dial_loop-fails :
    (i j : ℕ) (last : NetErr) (es : List NetErr) (ds : List DialResult) (s : Strategy) (c : Conn)
    → c.opts.redial_strategy ≡ some s
    → j ≡ i + length es
    → ((k : ℕ) → k < j → Allows c.opts.max_retries k)
    → dial_loop i last (map failed es ++ ds) c ≡ dial_loop j (last_err last es) ds (fails s es ds c)
unfolding fails last_err
dial_loop-fails i j last [] ds s c h e a =
    let same_turn : i ≡ j = omega arith in ap (λ n. dial_loop n last ds c) same_turn
dial_loop-fails i j last (f ∷ es) ds s c h e a =
    dial_loop-failed i last f (map failed es ++ ds) s c h (a i (omega arith))
    ∙ dial_loop-fails (suc i) j f es ds (strategy_next s).1 (failed_once s (map failed es ++ ds) c)
        (unfold failed_once in refl) (omega arith) (unfold failed_once in a)

pub fails-log :
    (s : Strategy) (es : List NetErr) (ds : List DialResult) (c : Conn)
    → (fails s es ds c).log ≡ c.log ++ attempts s (length es)
unfolding fails attempts failed_once
fails-log s [] ds c = sym (append-nil c.log)
fails-log s (e ∷ es) ds c =
    fails-log (strategy_next s).1 es ds (failed_once s (map failed es ++ ds) c)
    ∙ append_assoc (c.log ++ dialed ∷ []) (slept (strategy_next s).0 ∷ []) _
    ∙ append_assoc c.log (dialed ∷ []) _

pub fails-strategy :
    (s : Strategy) (es : List NetErr) (ds : List DialResult) (c : Conn)
    → c.opts.redial_strategy ≡ some s
    → (fails s es ds c).opts.redial_strategy ≡ some (waited s (length es))
unfolding fails waited failed_once
fails-strategy s [] ds c h = h
fails-strategy s (e ∷ es) ds c h =
    fails-strategy (strategy_next s).1 es ds (failed_once s (map failed es ++ ds) c) refl

pub fails-max_retries :
    (s : Strategy) (es : List NetErr) (ds : List DialResult) (c : Conn)
    → (fails s es ds c).opts.max_retries ≡ c.opts.max_retries
unfolding fails failed_once
fails-max_retries s [] ds c = refl
fails-max_retries s (e ∷ es) ds c =
    fails-max_retries (strategy_next s).1 es ds (failed_once s (map failed es ++ ds) c)

pub fails-dials :
    (s : Strategy) (e : NetErr) (es : List NetErr) (ds : List DialResult) (c : Conn)
    → ((fails s (e ∷ es) ds c).dials ≡ ds) × ((fails s (e ∷ es) ds c).present ≡ false)
unfolding fails failed_once
fails-dials s e [] ds c = (refl, refl)
fails-dials s e (f ∷ es) ds c =
    fails-dials (strategy_next s).1 f es ds (failed_once s (map failed (f ∷ es) ++ ds) c)
