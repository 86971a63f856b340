-- ===== src/Conn/Loop/Closing/Effect.antt =====
-- connection.go: what a turn whose read Close cuts does to the channels.
use goesl.Base.{refl, [], Option, none, some}
use goesl.Base.Outcome.{Outcome, done, panic}
use goesl.Errors.{CtxErr, Err}
use goesl.Conn.{Conn, then_run, close}
use goesl.Conn.Keeps.{After, Channels}
use goesl.Conn.Channels.{Held, close-Holds}
use goesl.Conn.Loop.{Turn, received_one, lost}
use goesl.Conn.Loop.Effect.{Grows, Held-refl, Grows-if, lost-Grows}
use goesl.Conn.Loop.Invariant.{
  Invariant, Inside, Keeping, Keeping-if, Keeping->>=, Holds-Inside, returns-Keeping, lost-Keeping,
}
use goesl.Conn.Loop.Closing.{cut_read, cut_at_top, cut_turn}

lost_behind-Grows :
    (k : Conn) (t : Turn) (e : Err) (o : Outcome (Unit {0} × Conn))
    → After (Held k) o
    → Grows k.events [] (then_run o (λ _. lost t e))
unfolding After
lost_behind-Grows k t e (done (u, c)) h = lost-Grows k t e c h
lost_behind-Grows k t e (panic p) h = unfold Grows in tt

cut_at_top-Grows :
    (t : Turn) (e : Err) (top : Option CtxErr) (c : Conn) → Grows c.events [] (cut_at_top t e top c)
unfolding cut_at_top cut_read received_one
cut_at_top-Grows t e none c = lost_behind-Grows c t e (close c) (close-Holds c c (Held-refl c))
cut_at_top-Grows t e (some x) c = unfold Grows in refl

-- No event is received in it.
pub cut_turn-Grows : (t : Turn) (e : Err) (c : Conn) → Grows c.events [] (cut_turn t e c)
unfolding cut_turn
cut_turn-Grows t e c =
    Grows-if c c.connected _ _ (cut_at_top-Grows t e t.at_top c) (unfold Grows in refl)

module _ (P : Channels → Type 0) (inv : Invariant P) where
  cut_at_top-Keeping :
      (t : Turn) (e : Err) (top : Option CtxErr) (c : Conn)
      → Inside P c
      → Keeping P (cut_at_top t e top c)
  unfolding cut_at_top cut_read received_one
  cut_at_top-Keeping t e none c f =
      Keeping->>= P (close c) _ (Holds-Inside P close close-Holds c f) (λ _. lost-Keeping P inv t e)
  cut_at_top-Keeping t e (some x) c f = returns-Keeping P _ c f

  pub cut_turn-Keeping : (t : Turn) (e : Err) (c : Conn) → Inside P c → Keeping P (cut_turn t e c)
  unfolding cut_turn
  cut_turn-Keeping t e c f =
      Keeping-if P c.connected _ _ (cut_at_top-Keeping t e t.at_top c f) (returns-Keeping P _ c f)
