-- ===== src/Redo/Backoff.antt =====
-- The waits that the default strategy of redo.go gives, call after call.
use native.Mathlib.Nat.{pow-suc}
use goesl.Base.{
  ℕ, zero, suc, ◌*◌, ◌^◌, ◌≤◌, ◌<◌, min, ◌≡◌, refl, ◌⊎◌, List, [], ◌∷◌, ◌++◌, arith, length,
  length-append, ltb, inl, inr, true, false, ◌%◌,
}
use goesl.Redo.{
  DefaultRedoStrategy, second, wait_ceiling, last_of, next_after, next_redo_wait, reset,
}

-- The strategy after `n` calls of NextRedoWait.
unfoldable pub after : ℕ → DefaultRedoStrategy → DefaultRedoStrategy
after zero s = s
after (suc n) s = (next_redo_wait (after n s)).1

abbrev capped : ℕ → ℕ
capped n = min (2 ^ n * second) wait_ceiling

-- After `n` calls since a reset: how many waits are kept, and the last of them.
abbrev Waited : ℕ → List ℕ → Type 0
Waited zero l = l ≡ []
Waited (suc n) [] = ⊥
Waited (suc n) (x ∷ xs) = (last_of x xs ≡ capped n) × (length (x ∷ xs) ≡ min (suc n) 7)

last_of-concat : (x : ℕ) (xs : List ℕ) (y : ℕ) → last_of x (xs ++ y ∷ []) ≡ y
last_of-concat x [] y = refl
last_of-concat x (z ∷ zs) y = last_of-concat z zs y

pow_large : (n : ℕ) → 1 ≤ 2 ^ n
pow_large zero = omega arith
pow_large (suc n) = rw pow-suc (omega (arith, pow_large n))

pow_ceiling : (n : ℕ) → 64 ≤ 2 ^ suc (suc (suc (suc (suc (suc n)))))
pow_ceiling n =
    rw (pow-suc, pow-suc, pow-suc, pow-suc, pow-suc, pow-suc) (omega (arith, pow_large n))

-- Below the ceiling a wait doubles exactly, and from the seventh on it is the ceiling.
capped-suc :
    (n : ℕ)
    → ((n < 6) × (capped n < wait_ceiling) × (capped (suc n) ≡ capped n * 2))
      ⊎ ((6 ≤ n) × (capped n ≡ wait_ceiling) × (capped (suc n) ≡ wait_ceiling))
capped-suc zero = omega arith
capped-suc (suc zero) = omega arith
capped-suc (suc (suc zero)) = omega arith
capped-suc (suc (suc (suc zero))) = omega arith
capped-suc (suc (suc (suc (suc zero)))) = omega arith
capped-suc (suc (suc (suc (suc (suc zero))))) = omega arith
capped-suc (suc (suc (suc (suc (suc (suc n)))))) =
    inr (omega arith, omega (arith, pow_ceiling n), omega (arith, pow_ceiling (suc n)))

next_after-Waited :
    (n : ℕ) (l : List ℕ)
    → Waited n l
    → ((next_after l).0 ≡ capped n) × Waited (suc n) (next_after l).1.redo_waited
unfolding next_after
next_after-Waited zero [] h = omega arith
next_after-Waited zero (x ∷ xs) h = cc
next_after-Waited (suc n) [] h = absurd h
next_after-Waited (suc n) (x ∷ xs) (e, k) = elim (capped-suc n) [
  | inl (lt, below, twice) ↦
      let here : ltb (last_of x xs) wait_ceiling ≡ true = ground arith in
      rw here (
        ground (arith, twice, below),
        (
          ground (arith, twice, below, last_of-concat x xs (((last_of x xs) * 2) % 2 ^ 64)),
          omega (arith, length-append {0} xs (((last_of x xs) * 2) % 2 ^ 64 ∷ [])),
        ),
      )
  | inr (ge, at_ceiling, stays) ↦
      let here : ltb (last_of x xs) wait_ceiling ≡ false = ground arith in
      rw here (omega arith, (omega arith, omega arith))
]

after-Waited : (n : ℕ) (s : DefaultRedoStrategy) → Waited n (after n (reset s)).redo_waited
unfolding after reset next_redo_wait
after-Waited zero s = refl
after-Waited (suc n) s = (next_after-Waited n (after n (reset s)).redo_waited (after-Waited n s)).1

Waited-length : (n : ℕ) (l : List ℕ) → Waited n l → length l ≡ min n 7
Waited-length zero l h = rw h (omega arith)
Waited-length (suc n) [] h = absurd h
Waited-length (suc n) (x ∷ xs) (e, k) = k

-- Call n + 1 after a reset waits 2 ^ n seconds, or 64 seconds if that is less: 1, 2, 4, …, 64, 64.
pub next_redo_wait_exact :
    (s : DefaultRedoStrategy) (n : ℕ)
    → (next_redo_wait (after n (reset s))).0 ≡ min (2 ^ n * second) wait_ceiling
unfolding next_redo_wait
next_redo_wait_exact s n =
    (next_after-Waited n (after n (reset s)).redo_waited (after-Waited n s)).0

-- However often it is asked after a reset, the strategy keeps at most seven waits: one for each call
-- up to the seventh.
pub redo_waited_bounded :
    (s : DefaultRedoStrategy) (n : ℕ) → length (after n (reset s)).redo_waited ≡ min n 7
redo_waited_bounded s n = Waited-length n (after n (reset s)).redo_waited (after-Waited n s)
