-- ===== src/Options/Ranges.antt =====
-- The ranges that option.go keeps the options in.
use goesl.Base.{
  ℕ, ◌*◌, ◌≤◌, ◌≡◌, ◌≢◌, ◌⊎◌, true, false, none, some, List, [], ◌∷◌, refl, inl, arith, All,
}
use goesl.Base.Int.{ℤ, pos, negsuc}
use goesl.Redo.{second, millisecond}
use goesl.Options.{
  Opt, Settings, Options, with_auto_redial, with_default_auto_redial, with_max_retries,
  with_net_delay, with_send_reply_cap, apply_one, apply, new_options,
}

abbrev pub Between : ℕ → ℕ → ℤ → Type 0
Between lo hi (pos n) = (lo ≤ n) × (n ≤ hi)
Between lo hi (negsuc n) = ⊥

pub record InRange (o : Options) : Type 0 where
  pub retries : (o.max_retries ≡ negsuc 0) ⊎ Between 1 100 o.max_retries
  pub delay : Between (100 * millisecond) (10 * second) o.net_delay
  pub capacity : Between 1 500 o.send_reply_cap

apply_one-InRange : (o : Opt) (s : Settings) → InRange s.opts → InRange (apply_one o s).opts
unfolding apply_one
apply_one-InRange (with_auto_redial t) s h = ground arith
apply_one-InRange _ s h = ground arith

apply-InRange : (os : List Opt) (s : Settings) → InRange s.opts → InRange (apply os s).opts
unfolding apply
apply-InRange [] s h = h
apply-InRange (o ∷ os) s h = apply-InRange os (apply_one o s) (apply_one-InRange o s h)

-- Whatever options are given, with whatever values and in whatever order, the options of a
-- connection have a retry limit that is -1 or from 1 to 100, a network delay from 100 ms to 10 s,
-- and a channel capacity from 1 to 500.
pub new_options-InRange : (level : ℤ) (os : List Opt) → InRange (new_options level os).opts
unfolding new_options
new_options-InRange level os =
    apply-InRange os _ (record { retries = inl refl; delay = omega arith; capacity = omega arith })

apply_one-limited :
    (o : Opt) (s : Settings)
    → Between 1 100 s.opts.max_retries
    → Between 1 100 (apply_one o s).opts.max_retries
unfolding apply_one
apply_one-limited (with_auto_redial t) s h = h
apply_one-limited (with_max_retries n) s h = ground arith
apply_one-limited (with_net_delay t) s h = ground arith
apply_one-limited (with_send_reply_cap t) s h = ground arith
apply_one-limited _ s h = ground arith

-- Once the retries are limited, no further options make them unlimited: WithMaxRetries(-1) does not.
pub max_retries_stay_limited :
    (os : List Opt) (s : Settings)
    → Between 1 100 s.opts.max_retries
    → Between 1 100 (apply os s).opts.max_retries
unfolding apply
max_retries_stay_limited [] s h = h
max_retries_stay_limited (o ∷ os) s h =
    max_retries_stay_limited os (apply_one o s) (apply_one-limited o s h)

-- The option is not WithAutoRedial(nil).
abbrev pub HasStrategy : Opt → Type 0
HasStrategy (with_auto_redial none) = ⊥
HasStrategy _ = Unit

abbrev pub Redialable : Options → Type 0
Redialable o = o.auto_redial ≡ true → o.redial_strategy ≢ none

apply_one-Redialable :
    (o : Opt) (s : Settings) → HasStrategy o → Redialable s.opts → Redialable (apply_one o s).opts
unfolding apply_one
apply_one-Redialable (with_auto_redial none) s p h = absurd p
apply_one-Redialable (with_auto_redial (some t)) s p h = λ _. cc
apply_one-Redialable with_default_auto_redial s p h = λ _. cc
apply_one-Redialable _ s p h = ground arith

apply-Redialable :
    (os : List Opt) (s : Settings)
    → All HasStrategy os
    → Redialable s.opts
    → Redialable (apply os s).opts
unfolding apply
apply-Redialable [] s p h = h
apply-Redialable (o ∷ os) s (p, ps) h =
    apply-Redialable os (apply_one o s) ps (apply_one-Redialable o s p h)

-- If no option is WithAutoRedial(nil), a connection that redials has a strategy to ask for waits.
pub new_options-Redialable :
    (level : ℤ) (os : List Opt) → All HasStrategy os → Redialable (new_options level os).opts
unfolding new_options
new_options-Redialable level os p = apply-Redialable os _ p (λ (e : false ≡ true). cc)
