-- ===== src/FsCli/Main/Redialing.antt =====
-- examples/fs_cli/main.go: how a client with the options of main redials.
use goesl.Base.{ℕ, ◌≡◌, ap, sym, ◌∙◌, List, [], ◌∷◌, ◌++◌, map, length, Option, none, some, true}
use goesl.Base.Int.{ℤ, negsuc}
use goesl.Base.Outcome.{done}
use goesl.Redo.{default_redo}
use goesl.Options.{Options, Writer, new_options, apply_one}
use goesl.Errors.{NetErr}
use goesl.Redo.Backoff.{after}
use goesl.Conn.{Conn, Socket, DialResult, failed, opened, dialed}
use goesl.Conn.Dial.{reached, dial_times}
use goesl.Conn.Dial.Failing.{Allows}
use goesl.Conn.Dial.Retries.{dial_times-reached}
use goesl.Conn.Dial.Waits.{fresh, backoff, attempts-backoff, settled-fresh}
use goesl.FsCli.Main.{main_options}

unlimited :
    (level : ℤ) (file : Option Writer) (o : Options)
    → o ≡ (new_options level (main_options file)).opts
    → (o.redial_strategy ≡ some (default_redo fresh)) × (o.max_retries ≡ negsuc 0)
unfolding new_options main_options apply_one
unlimited level none o h = (ap (λ x. x.redial_strategy) h, ap (λ x. x.max_retries) h)
unlimited level (some w) o h = (ap (λ x. x.redial_strategy) h, ap (λ x. x.max_retries) h)

any_count : (max : ℤ) (n : ℕ) → max ≡ negsuc 0 → Allows max n
any_count max n h = rw h tt

-- A connection with the options of fs_cli's main redials until a dial succeeds, however many fail before
-- it: behind the failed ones it waits 1, 2, 4 seconds and so on, 64 at most; no dial is made behind the
-- one that succeeds, whose socket the connection gets; and the strategy is then as it was at first, so
-- that the next redial waits the same again.
pub dial_times-unlimited :
    (level : ℤ) (file : Option Writer) (c : Conn) (es : List NetErr) (o : Socket)
    (ds : List DialResult)
    → c.opts ≡ (new_options level (main_options file)).opts
    → c.dials ≡ map failed es ++ opened o ∷ ds
    → (c' : Conn) × (dial_times true c ≡ done (reached, c'))
      × (c'.log ≡ (c.log ++ backoff 0 (length es)) ++ dialed ∷ [])
      × (c'.opts.redial_strategy ≡ c.opts.redial_strategy)
      × (c'.sock ≡ o)
      × (c'.present ≡ true)
      × (c'.dials ≡ ds)
dial_times-unlimited level file c es o ds h d =
    let (strategy, limit) = unlimited level file c.opts h in
    let n = length es in
    let (c', e, s, l, k, p, q) =
      dial_times-reached c (default_redo fresh) es o ds strategy
        (any_count c.opts.max_retries n limit) d in
    (
      c',
      e,
      l ∙ ap (λ w. (c.log ++ w) ++ dialed ∷ []) (unfold after in attempts-backoff 0 n),
      s ∙ ap some (settled-fresh n) ∙ sym strategy,
      k,
      p,
      q,
    )
