-- ===== src/Conn/Loop/Callback/Effect.antt =====
-- connection.go: what eventCallback does to the channels.
use goesl.Base.{
  ◌≡◌, refl, ap, ◌∙◌, Bool, true, false, List, [], ◌∷◌, ◌++◌, Option, none, some, codes,
}
use goesl.Base.Outcome.{Outcome, done, panic}
use goesl.Conn.Loop.Invariant.{Invariant, Inside, Held-Inside}
use goesl.EvName
use goesl.EvName.{heartbeat}
use goesl.Errors.{NetErr}
use goesl.Event.{Event}
use goesl.Conn.{Conn, on_connect, M, ◌>>=◌, then_run, pure, act, set_deadline, write}
use goesl.Conn.Keeps.{
  Channels, channels, After, After->>=, After-if, After-weaken, stays, Same, Keeps, Keeps->>=,
  pure-Keeps, set_deadline-Keeps, write-Keeps,
}
use goesl.Conn.Channels.{Held, Keeps-Holds}
use goesl.Conn.Send.{
  Pick, ctx_done, from_cmd_reply, from_api_resp, await, write_failed, command_text,
}
use goesl.Conn.Send.Channels.{write_failed-Keeps, await-After}
use goesl.Conn.Loop.Callback.{
  Phase, starting, awaiting, greeting, listening, stopped, Move, asks, gets, greets, takes_event,
  stops, asked, ask, got, answered_phase, take_event, callback,
}

asked-Keeps : (e : Option NetErr) → Keeps (asked e)
unfolding asked
asked-Keeps none = pure-Keeps awaiting
asked-Keeps (some e) =
    Keeps->>= (write_failed e) (λ _. pure greeting) (write_failed-Keeps e)
      (λ _. pure-Keeps greeting)

ask-Keeps : Keeps ask
unfolding ask
ask-Keeps k c s =
    let text = command_text (codes "event") (codes "plain" ∷ EvName.to_string heartbeat ∷ []) in
    After-if (Same k) c.opts.auto_redial _ _
      (Keeps->>= set_deadline (λ _. write text >>= asked) set_deadline-Keeps
        (λ _. Keeps->>= (write text) asked (write-Keeps text) asked-Keeps) k c s)
      (stays greeting (Same k) c s)

-- What a move of the callback goroutine can do to a connection of which `P` holds: the channels stay as
-- they were, or one of them loses its first event. What is left of it then, with what OnEvent is called
-- with, is the channel of plain events as it was.
pub record Closed (P : Conn → Type 0) : Type 0 where
  pub held : (c d : Conn) → P c → Held c d → P d
  pub cmd_reply :
      (c : Conn) (e : Event) (es : List Event)
      → P c
      → c.cmd_reply ≡ e ∷ es
      → P (record c { cmd_reply = es })
  pub api_resp :
      (c : Conn) (e : Event) (es : List Event)
      → P c
      → c.api_resp ≡ e ∷ es
      → P (record c { api_resp = es })

pub await-Closed :
    (P : Conn → Type 0) → Closed P → (pick : Pick) (c : Conn) → P c → After P (await pick c)
await-Closed P k pick c p =
    await-After P pick c p (λ e es. k.cmd_reply c e es p) (λ e es. k.api_resp c e es p)

pub Keeps-Closed :
    {A : Type 0} (P : Conn → Type 0)
    → Closed P
    → (m : M A) → Keeps m
    → (c : Conn) → P c
    → After P (m c)
Keeps-Closed P k m q c p =
    After-weaken (Held c) P (m c) (Keeps-Holds m q c c (unfold Held in refl)) (λ d. k.held c d p)

module _ (P : Conn → Type 0) (k : Closed P) where
  waited-Closed :
      (pick : Pick) (c : Conn)
      → P c
      → After P (then_run (await pick c) (λ r. pure (answered_phase r)))
  waited-Closed pick c p =
      After->>= P P (await pick c) _ (await-Closed P k pick c p) (λ r. stays (answered_phase r) P)

  got-Closed : (b : Bool) (pick : Pick) (c : Conn) → P c → After P (got b pick c)
  unfolding got
  got-Closed false (ctx_done e) c p = stays awaiting P c p
  got-Closed false from_cmd_reply c p = waited-Closed from_cmd_reply c p
  got-Closed false from_api_resp c p = waited-Closed from_api_resp c p
  got-Closed true pick c p = waited-Closed pick c p

-- The events that OnEvent is called with, and those that are left, are those that were in the channel.
unfoldable pub Passes : List Event → Outcome ((Phase × List Event) × Conn) → Type 0
Passes es (done ((p, l), d)) = l ++ d.events ≡ es
Passes es (panic e) = Unit

none_passed :
    (es : List Event) (o : Outcome (Phase × Conn))
    → After (λ d. d.events ≡ es) o
    → Passes es (then_run o (λ p. pure (p, [])))
unfolding After Passes
none_passed es (done (p, d)) h = h
none_passed es (panic e) h = tt

Held-events : (k c : Conn) → Held k c → c.events ≡ k.events
unfolding Held
Held-events k c h = ap (λ v. v.events) h

pub events-Closed : (es : List Event) → Closed (λ d. d.events ≡ es)
events-Closed es = record {
  held = λ c d p h. Held-events c d h ∙ p;
  cmd_reply = λ c e rest p q. p;
  api_resp = λ c e rest p q. p;
}

take_event-Passes : (q : List Event) (c : Conn) → c.events ≡ q → Passes q (take_event q c)
unfolding take_event Passes
take_event-Passes [] c h = h
take_event-Passes (e ∷ es) c h = refl

still-Passes : (p : Phase) (c : Conn) → Passes c.events (done ((p, []), c))
unfolding Passes
still-Passes p c = refl

greeted-Passes : (c : Conn) → Passes c.events (done ((listening, []), act on_connect c))
unfolding Passes
greeted-Passes c = refl

pub callback-Passes :
    (m : Move) (b : Bool) (p : Phase) (c : Conn) → Passes c.events (callback m b p c)
unfolding callback
callback-Passes asks b starting c =
    none_passed c.events (ask c) (Keeps-Closed _ (events-Closed c.events) ask ask-Keeps c refl)
callback-Passes (gets pick) b awaiting c =
    none_passed c.events (got b pick c) (got-Closed _ (events-Closed c.events) b pick c refl)
callback-Passes greets b greeting c = greeted-Passes c
callback-Passes takes_event b listening c = take_event-Passes c.events c refl
callback-Passes stops true listening c = still-Passes stopped c
callback-Passes m b p c = still-Passes p c

-- A callback goroutine keeps every invariant of the channels.
module _ (P : Channels → Type 0) (inv : Invariant P) where
  pub Inside-Closed : Closed (Inside P)
  unfolding Inside
  Inside-Closed = record {
    held = Held-Inside P;
    cmd_reply = λ c e es f h. inv.take_cmd_reply (channels c) e es f h;
    api_resp = λ c e es f h. inv.take_api_resp (channels c) e es f h;
  }

  take_event-Inside :
      (q : List Event) (c : Conn) → Inside P c → c.events ≡ q → After (Inside P) (take_event q c)
  unfolding take_event After Inside
  take_event-Inside [] c f h = f
  take_event-Inside (e ∷ es) c f h = inv.take_events (channels c) e es f h

  abbrev nothing : List Event
  nothing = []

  greeted-Inside :
      (c : Conn)
      → Inside P c
      → After {A = Phase × List Event} (Inside P) (done ((listening, nothing), act on_connect c))
  unfolding Inside After
  greeted-Inside c f = f

  pub callback-Inside :
      (m : Move) (b : Bool) (p : Phase) (c : Conn)
      → Inside P c
      → After (Inside P) (callback m b p c)
  unfolding callback
  callback-Inside asks b starting c f =
      After->>= (Inside P) (Inside P) (ask c) _
        (Keeps-Closed (Inside P) Inside-Closed ask ask-Keeps c f)
        (λ p. stays (p, nothing) (Inside P))
  callback-Inside (gets pick) b awaiting c f =
      After->>= (Inside P) (Inside P) (got b pick c) _
        (got-Closed (Inside P) Inside-Closed b pick c f) (λ p. stays (p, nothing) (Inside P))
  callback-Inside greets b greeting c f = greeted-Inside c f
  callback-Inside takes_event b listening c f = take_event-Inside c.events c f refl
  callback-Inside stops true listening c f = stays _ (Inside P) c f
  callback-Inside m b p c f = stays _ (Inside P) c f
