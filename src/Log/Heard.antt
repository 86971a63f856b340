-- ===== src/Log/Heard.antt =====
-- default_logger.go: what a run of calls on the internal logger writes.
use goesl.Base.{
  ◌≡◌, ◌≢◌, refl, ap, sym, ◌∙◌, inl, inr, Bool, true, false, Bool-cases, ◌||◌, List, [], ◌∷◌, ◌++◌,
  append-nil, append_assoc, map, some, Bytes, codes, if◌then◌else◌,
}
use goesl.Base.Int.{ℤ, ltb_ℤ, eqb_ℤ}
use goesl.Options.{Opt, Writer, Settings, new_options}
use goesl.Log.{
  level_text, level_fatal, Line, DefaultLogger, line_of, color_level_str, is_terminal, set_level,
  set_output, set_prefix, set_output_of, set_prefix_of, logf, call, Method, method_level,
  dial_logger,
}

-- A call: its method and the message that its format gives.
pub record Call : Type 0 where
  pub method : Method
  pub message : Bytes

abbrev pub severity : Call → ℤ
severity c = method_level c.method

after_log : Bool × DefaultLogger → (DefaultLogger → Bool × DefaultLogger) → Bool × DefaultLogger
after_log (true, l) f = (true, l)
after_log (false, l) f = f l

-- The calls, until one of them ends the process.
pub log_all : List Call → DefaultLogger → Bool × DefaultLogger
unfolding after_log call
log_all [] l = (false, l)
log_all (c ∷ cs) l = after_log (call c.method c.message l) (log_all cs)

-- The calls that are heard at a threshold: those that are not below it, up to the first fatal one.
unfoldable pub heard : ℤ → List Call → List Call
heard threshold [] = []
heard threshold (c ∷ cs) =
    let rest = heard threshold cs in
    if ltb_ℤ (severity c) threshold
    then rest
    else if eqb_ℤ (severity c) level_fatal
    then c ∷ []
    else c ∷ rest

pub has_fatal : List Call → Bool
has_fatal [] = false
has_fatal (c ∷ cs) = eqb_ℤ (severity c) level_fatal || has_fatal cs

abbrev pub line_for : DefaultLogger → Call → Line
line_for l c = line_of l (severity c) c.message

abbrev with_lines : DefaultLogger → List Line → DefaultLogger
with_lines l ls = record l { lines = ls }

-- A run of calls on the internal logger writes one line for each call whose level is not below the
-- threshold, in the order of the calls, up to the first such call of the fatal level; it ends the
-- process exactly where there is one, and changes nothing else of the logger.
pub log_all-heard :
    (cs : List Call) (l : DefaultLogger)
    → log_all cs l ≡ (
      has_fatal (heard l.level cs),
      record l { lines = l.lines ++ map (line_for l) (heard l.level cs) },
    )
unfolding log_all after_log call logf heard has_fatal line_of
log_all-heard [] l = ap (λ ls. (false, with_lines l ls)) (sym (append-nil l.lines))
log_all-heard (c ∷ cs) l = elim (Bool-cases (ltb_ℤ (severity c) l.level)) [
  | inl below ↦ rw below (log_all-heard cs l)
  | inr not_below ↦ rw not_below (elim (Bool-cases (eqb_ℤ (severity c) level_fatal)) [
    | inl fatal ↦ rw fatal (rw fatal refl)
    | inr goes_on ↦ rw goes_on (
        rw goes_on (
          log_all-heard cs (with_lines l (l.lines ++ line_for l c ∷ []))
          ∙ ap (λ ls. (has_fatal (heard l.level cs), with_lines l ls))
              (append_assoc l.lines (line_for l c ∷ []) (map (line_for l) (heard l.level cs)))))
  ])
]

-- A line as it is without colours.
abbrev pub plain_line : Writer → Bytes → Call → Line
plain_line w p c = record {
  output = w;
  prefix = p;
  text = level_text (severity c) ++ codes " " ++ c.message;
}

with_prefix : (p : Bytes) (l : DefaultLogger) → p ≢ [] → set_prefix_of p l ≡ set_prefix p l
unfolding set_prefix_of
with_prefix [] l h = elim (h refl) [ ]
with_prefix (c ∷ cs) l h = refl

set_all-plain :
    (s : Settings) (l : DefaultLogger) (w : Writer)
    → s.opts.log_output ≡ some w
    → is_terminal w ≡ false
    → s.opts.log_prefix ≢ []
    → set_prefix_of s.opts.log_prefix (set_output_of s.opts.log_output (set_level s.level l))
      ≡ record l {
        level = s.level;
        output = w;
        console = false;
        prefix = s.opts.log_prefix ++ codes " ";
      }
unfolding set_output_of set_output set_level
set_all-plain s l w o t p =
    rw o (rw t (with_prefix s.opts.log_prefix _ p ∙ unfold set_prefix in refl))

-- Where the options that Dial is given set an output that is not a terminal and a prefix, the lines that
-- are written from then on go to that output, behind that prefix, and have no colours: one for each call
-- that is heard at the level that the options set.
pub dial_logger-plain :
    (os : List Opt) (l : DefaultLogger) (w : Writer) (cs : List Call)
    → (new_options l.level os).opts.log_output ≡ some w
    → is_terminal w ≡ false
    → (new_options l.level os).opts.log_prefix ≢ []
    → (log_all cs (dial_logger os l)).1.lines
      ≡ l.lines
        ++ map
            (plain_line w ((new_options l.level os).opts.log_prefix ++ codes " "))
            (heard (new_options l.level os).level cs)
unfolding dial_logger
dial_logger-plain os l w cs o t p =
    ap (λ d. (log_all cs d).1.lines) (set_all-plain (new_options l.level os) l w o t p)
    ∙ ap (λ r. r.1.lines) (log_all-heard cs _)
    ∙ unfold line_of color_level_str in refl
