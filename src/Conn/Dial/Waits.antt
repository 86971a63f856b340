-- ===== src/Conn/Dial/Waits.antt =====
-- connection.go: the waits of a redial with the default strategy.
use goesl.Base.{ℕ, zero, suc, ◌*◌, ◌^◌, min, ◌≡◌, refl, ap, ◌∙◌, List, [], ◌∷◌}
use goesl.Base.Int.{pos}
use goesl.Redo.{
  DefaultRedoStrategy, second, wait_ceiling, next_redo_wait, default_redo, strategy_next,
  strategy_reset, reset,
}
use goesl.Redo.Backoff.{after, next_redo_wait_exact}
use goesl.Conn.{Act, dialed, slept}
use goesl.Conn.Dial.Failing.{attempts, waited, settled}

-- The default strategy before it is asked.
abbrev pub fresh : DefaultRedoStrategy
fresh = record { redo_waited = [] }

-- `n` dials that fail, from wait `k` on: 1 s, 2 s, 4 s, and so on up to 64 s.
unfoldable pub backoff : ℕ → ℕ → List Act
backoff k zero = []
backoff k (suc n) = dialed ∷ slept (pos (min (2 ^ k * second) wait_ceiling)) ∷ backoff (suc k) n

pub attempts-backoff : (k n : ℕ) → attempts (default_redo (after k fresh)) n ≡ backoff k n
unfolding attempts backoff after strategy_next reset
attempts-backoff k zero = refl
attempts-backoff k (suc n) =
    ap (λ w. dialed ∷ slept (pos w) ∷ attempts (default_redo (after (suc k) fresh)) n)
      (next_redo_wait_exact fresh k)
    ∙ ap (λ l. dialed ∷ slept (pos (min (2 ^ k * second) wait_ceiling)) ∷ l)
        (attempts-backoff (suc k) n)

waited-reset :
    (s : DefaultRedoStrategy) (n : ℕ)
    → strategy_reset (waited (default_redo s) n) ≡ default_redo fresh
unfolding waited strategy_reset strategy_next reset
waited-reset s zero = refl
waited-reset s (suc n) = waited-reset (next_redo_wait s).1 n

-- Behind a redial the strategy waits as it did before.
pub settled-fresh : (n : ℕ) → settled (default_redo fresh) n ≡ default_redo fresh
unfolding settled
settled-fresh zero = refl
settled-fresh (suc n) = waited-reset fresh (suc n)
