-- ===== src/Options/Logging.antt =====
-- The options of option.go that are for the internal logger only.
use goesl.Base.{◌≡◌, ◌++◌, false, List, [], ◌∷◌, refl, ◌∙◌, All, ℕ, sym}
use goesl.Base.Int.{ℤ}
use goesl.Options.{
  Opt, Settings, with_logger, user_logger, with_log_level, with_log_output, with_log_prefix,
  is_default, apply_one, apply, new_options,
}

abbrev pub IsLogOption : Opt → Type 0
IsLogOption (with_log_level _) = Unit
IsLogOption (with_log_output _) = Unit
IsLogOption (with_log_prefix _) = Unit
IsLogOption _ = ⊥

apply_one-user_logger :
    (o : Opt) (s : Settings) → IsLogOption o → is_default s.opts.logger ≡ false → apply_one o s ≡ s
unfolding apply_one
apply_one-user_logger (with_log_level lv) s p h = rw h
apply_one-user_logger (with_log_output w) s p h = rw h
apply_one-user_logger (with_log_prefix t) s p h = rw h
apply_one-user_logger _ s p h = absurd p

apply-user_logger :
    (os : List Opt) (s : Settings)
    → All IsLogOption os
    → is_default s.opts.logger ≡ false
    → apply os s ≡ s
unfolding apply
apply-user_logger [] s p h = refl
apply-user_logger (o ∷ os) s (p, ps) h =
    rw (apply_one-user_logger o s p h) (apply-user_logger os s ps h)

apply-append : (os ps : List Opt) (s : Settings) → apply (os ++ ps) s ≡ apply ps (apply os s)
unfolding apply
apply-append [] ps s = refl
apply-append (o ∷ os) ps s = apply-append os ps (apply_one o s)

-- Behind WithLogger with a logger of the caller's, WithLogLevel, WithLogOutput and WithLogPrefix
-- change nothing, neither the options nor the level of the internal logger.
pub log_options_ignored :
    (level : ℤ) (before logs : List Opt) (l : ℕ)
    → All IsLogOption logs
    → new_options level (before ++ (with_logger (user_logger l) ∷ logs))
      ≡ new_options level (before ++ with_logger (user_logger l) ∷ [])
unfolding new_options apply_one apply
log_options_ignored level before logs l p =
    apply-append before (with_logger (user_logger l) ∷ logs) _
    ∙ apply-user_logger logs _ p refl
    ∙ sym (apply-append before (with_logger (user_logger l) ∷ []) _)
