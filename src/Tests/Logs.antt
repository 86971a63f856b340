-- ===== src/Tests/Logs.antt =====
-- Runs of the internal logger.
use goesl.Base.{◌≡◌, refl, true, List, [], ◌∷◌, ◌++◌, map, codes}
use goesl.Base.Int.{pos, negsuc}
use goesl.Text.Number.{format_int}
use goesl.Options.{Opt, with_log_output, with_log_prefix, with_log_level, new_options, apply_one}
use goesl.Log.{
  is_terminal, debugf, warnf, errorf, fatalf, DefaultLogger, level_text, stdout, dial_logger,
}
use goesl.Log.Heard.{
  Call, log_all, heard, has_fatal, line_for, plain_line, log_all-heard, dial_logger-plain,
}

abbrev fresh : DefaultLogger
fresh = record { level = pos 1; console = true; prefix = codes "p "; output = stdout; lines = [] }

abbrev calls : List Call
calls =
    record { method = debugf; message = codes "not heard" }
    ∷ record { method = warnf; message = codes "one" }
    ∷ record { method = fatalf; message = codes "two" }
    ∷ record { method = errorf; message = codes "too late" }
    ∷ []

log_all-heard_example : log_all calls fresh ≡ (
  has_fatal (heard (pos 1) calls),
  record fresh { lines = [] ++ map (line_for fresh) (heard (pos 1) calls) },
)
log_all-heard_example = log_all-heard calls fresh

heard_two : map (λ c. c.message) (heard (pos 1) calls) ≡ codes "one" ∷ codes "two" ∷ []
unfolding heard
heard_two = refl

abbrev to_a_file : List Opt
to_a_file = with_log_output 7 ∷ with_log_prefix (codes "app") ∷ with_log_level (pos 3) ∷ []

dial_logger-plain_example :
    (log_all calls (dial_logger to_a_file fresh)).1.lines
    ≡ [] ++ map (plain_line 7 (codes "app" ++ codes " ")) (heard (pos 3) calls)
unfolding new_options apply_one is_terminal
dial_logger-plain_example = dial_logger-plain to_a_file fresh 7 calls refl refl (λ h. cc)

unknown_level : level_text (negsuc 1) ≡ codes "[?-2] "
unfolding level_text format_int
unknown_level = refl
