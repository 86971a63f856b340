-- ===== src/Redo.antt =====
-- redo.go: the redial strategies. Durations are in nanoseconds.
pub mod Backoff
use goesl.Base.{ℕ, zero, suc, ◌+◌, ◌*◌, ◌%◌, ◌^◌, List, [], ◌∷◌, ◌++◌, ltb, if◌then◌else◌}
use goesl.Base.Int.{ℤ, pos}

-- An int64; negative where a caller passes such a value.
abbrev pub Duration : Type 0
Duration = ℤ

abbrev pub second : ℕ
second = 1_000_000_000

abbrev pub millisecond : ℕ
millisecond = 1_000_000

abbrev pub wait_threshold : ℕ
wait_threshold = 1 * second

abbrev pub wait_ceiling : ℕ
wait_ceiling = 64 * second

pub record DefaultRedoStrategy : Type 0 where
  pub redo_waited : List ℕ

-- The last element of the slice `x ∷ xs`.
abbrev pub last_of : ℕ → List ℕ → ℕ
last_of x [] = x
last_of x (y ∷ ys) = last_of y ys

-- The int64 product is taken below the ceiling only, where it is far from 2 ^ 63.
next_after : List ℕ → ℕ × DefaultRedoStrategy
next_after [] = (wait_threshold, record { redo_waited = wait_threshold ∷ [] })
next_after (x ∷ xs) =
    let cur = last_of x xs in
    let doubled = (cur * 2) % 2 ^ 64 in
    if ltb cur wait_ceiling
    then (doubled, record { redo_waited = (x ∷ xs) ++ doubled ∷ [] })
    else (wait_ceiling, record { redo_waited = x ∷ xs })

unfoldable pub next_redo_wait : DefaultRedoStrategy → ℕ × DefaultRedoStrategy
unfolding next_after
next_redo_wait s = next_after s.redo_waited

unfoldable pub reset : DefaultRedoStrategy → DefaultRedoStrategy
reset s = record { redo_waited = [] }

-- The interface RedoStrategy: the default one, or a caller's, whose waits may depend on how often
-- it was asked and reset.
pub data Strategy : Type 0 where
  default_redo : DefaultRedoStrategy → Strategy
  custom : (ℕ → ℕ → Duration) → ℕ → ℕ → Strategy

unfoldable pub strategy_next : Strategy → Duration × Strategy
unfolding next_redo_wait
strategy_next (default_redo s) = let (wait, s') = next_redo_wait s in (pos wait, default_redo s')
strategy_next (custom wait asked resets) = (wait asked resets, custom wait (asked + 1) resets)

unfoldable pub strategy_reset : Strategy → Strategy
unfolding reset
strategy_reset (default_redo s) = default_redo (reset s)
strategy_reset (custom wait asked resets) = custom wait asked (resets + 1)
