-- ===== src/Conn/Loop/Invariant.antt =====
-- connection.go: what HandleEvents keeps of the channels, for every predicate on them that a send with
-- room keeps.
use goesl.Base.{
  ◌≡◌, refl, inl, inr, Bool, true, false, Bool-cases, ◌&&◌, List, [], ◌∷◌, ◌++◌, Option, none, some,
  if◌then◌else◌, length,
}
use goesl.Base.Int.{pos, ltb_ℤ}
use goesl.Base.Outcome.{Outcome, done, panic}
use goesl.Errors.{CtxErr, Err, reading, conn_lost}
use goesl.Event.{
  Event, EventType, event_invalid, event_state, event_connect, event_auth, event_command_reply,
  event_api_response, event_disconnect, event_log, event_generic,
}
use goesl.Event.Fields.{Fslog, event2_fslog}
use goesl.Conn.{Conn, M, then_run, recv, cancel_callback}
use goesl.Conn.Keeps.{After, After-weaken, Channels, channels, recv-Keeps}
use goesl.Conn.Channels.{Held, Holds, Keeps-Holds, cancel_callback-Holds}
use goesl.Conn.Dial.{Reset, succeeded, failed_with, pending, reset}
use goesl.Conn.Dial.Channels.{reset-Holds}
use goesl.Conn.Loop.{
  Turn, Channel, cmd_replies, api_responses, plain_events, Next, stuck_sending, to_cmd_reply,
  to_api_resp, to_events, has_room, or_done, log_line, hand_on, after_reset, ctx_err, goes_on,
  returns, lost, received_one, read_one, at_top_of, turn, finish,
}

-- The type of the events that HandleEvents sends to a channel.
abbrev pub type_of : Channel → EventType
type_of cmd_replies = event_command_reply
type_of api_responses = event_api_response
type_of plain_events = event_generic

abbrev pub HasRoom : List Event → Channels → Type 0
HasRoom q v = ltb_ℤ (pos (length q)) v.capacity ≡ true

-- A predicate on the channels that holds on when an event of a channel's type is sent to it, where it
-- has room, and when its first event is taken.
pub record Invariant (P : Channels → Type 0) : Type 0 where
  pub send_cmd_reply :
      (v : Channels) (e : Event)
      → P v
      → HasRoom v.cmd_reply v
      → e.type ≡ event_command_reply
      → P (record v { cmd_reply = v.cmd_reply ++ e ∷ [] })
  pub send_api_resp :
      (v : Channels) (e : Event)
      → P v
      → HasRoom v.api_resp v
      → e.type ≡ event_api_response
      → P (record v { api_resp = v.api_resp ++ e ∷ [] })
  pub send_events :
      (v : Channels) (e : Event)
      → P v
      → HasRoom v.events v
      → e.type ≡ event_generic
      → P (record v { events = v.events ++ e ∷ [] })
  pub take_cmd_reply :
      (v : Channels) (e : Event) (es : List Event)
      → P v
      → v.cmd_reply ≡ e ∷ es
      → P (record v { cmd_reply = es })
  pub take_api_resp :
      (v : Channels) (e : Event) (es : List Event)
      → P v
      → v.api_resp ≡ e ∷ es
      → P (record v { api_resp = es })
  pub take_events :
      (v : Channels) (e : Event) (es : List Event)
      → P v
      → v.events ≡ e ∷ es
      → P (record v { events = es })

-- An event that waits to be sent has the type of its channel.
abbrev pub Sends : Next → Type 0
Sends (stuck_sending q ev) = ev.type ≡ type_of q
Sends _ = Unit

module _ (P : Channels → Type 0) where
  unfoldable pub Inside : Conn → Type 0
  Inside c = P (channels c)

  unfoldable pub Keeping : Outcome (Next × Conn) → Type 0
  Keeping (done (n, c)) = Inside c × Sends n
  Keeping (panic e) = Unit

  pub Held-Inside : (k c : Conn) → Inside k → Held k c → Inside c
  unfolding Inside Held
  Held-Inside k c f h = rw h f

  pub Holds-Inside : {A : Type 0} (m : M A) → Holds m → (c : Conn) → Inside c → After Inside (m c)
  Holds-Inside m p c f =
      After-weaken (Held c) Inside (m c) (p c c (unfold Held in refl)) (λ d. Held-Inside c d f)

  goes_on-Keeping : (c : Conn) → Inside c → Keeping (done (goes_on, c))
  unfolding Keeping
  goes_on-Keeping c f = (f, tt)

  pub returns-Keeping : (e : Option Err) (c : Conn) → Inside c → Keeping (done (returns e, c))
  unfolding Keeping
  returns-Keeping e c f = (f, tt)

  -- Behind a method that leaves the connection inside.
  pub Keeping->>= :
      {A : Type 0} (o : Outcome (A × Conn)) (f : A → M Next)
      → After Inside o
      → ((a : A) (c : Conn) → Inside c → Keeping (f a c))
      → Keeping (then_run o f)
  unfolding After Keeping
  Keeping->>= (done (a, c)) f p k = k a c p
  Keeping->>= (panic e) f p k = tt

  pub Keeping-if :
      (b : Bool) (x y : Outcome (Next × Conn))
      → Keeping x
      → Keeping y
      → Keeping (if b then x else y)
  Keeping-if true x y p q = p
  Keeping-if false x y p q = q

  module _ (inv : Invariant P) where
    pub to_cmd_reply-Keeping :
        (ev : Event) (c : Conn)
        → ev.type ≡ event_command_reply
        → Inside c
        → Keeping (to_cmd_reply ev c)
    unfolding to_cmd_reply has_room Inside Keeping
    to_cmd_reply-Keeping ev c t f =
        elim (Bool-cases (ltb_ℤ (pos (length c.cmd_reply)) c.opts.send_reply_cap)) [
          | inl room ↦ rw room (inv.send_cmd_reply (channels c) ev f room t, tt)
          | inr full ↦ rw full (f, t)
        ]

    pub to_api_resp-Keeping :
        (ev : Event) (c : Conn)
        → ev.type ≡ event_api_response
        → Inside c
        → Keeping (to_api_resp ev c)
    unfolding to_api_resp has_room Inside Keeping
    to_api_resp-Keeping ev c t f =
        elim (Bool-cases (ltb_ℤ (pos (length c.api_resp)) c.opts.send_reply_cap)) [
          | inl room ↦ rw room (inv.send_api_resp (channels c) ev f room t, tt)
          | inr full ↦ rw full (f, t)
        ]

    pub to_events-Keeping :
        (ev : Event) (c : Conn) → ev.type ≡ event_generic → Inside c → Keeping (to_events ev c)
    unfolding to_events has_room Inside Keeping
    to_events-Keeping ev c t f =
        elim (Bool-cases (ltb_ℤ (pos (length c.events)) c.opts.send_reply_cap)) [
          | inl room ↦ rw room (inv.send_events (channels c) ev f room t, tt)
          | inr full ↦ rw full (f, t)
        ]

    or_done-Keeping :
        (a : Option CtxErr) (m : M Next) (c : Conn)
        → Inside c
        → Keeping (m c)
        → Keeping (or_done a m c)
    unfolding or_done
    or_done-Keeping none m c f k = k
    or_done-Keeping (some e) m c f k = returns-Keeping _ c f

    log_line-Keeping :
        (o : Outcome (Fslog × Option Err)) (c : Conn) → Inside c → Keeping (log_line o c)
    unfolding log_line Keeping Inside
    log_line-Keeping (panic p) c f = tt
    log_line-Keeping (done (l, none)) c f = (f, tt)
    log_line-Keeping (done (l, some e)) c f = (f, tt)

    hand_on-Keeping :
        (a : Option CtxErr) (t : EventType) (ev : Event) (c : Conn)
        → ev.type ≡ t
        → Inside c
        → Keeping (hand_on a t ev c)
    unfolding hand_on Keeping Inside
    hand_on-Keeping a event_disconnect ev c h f = (f, tt)
    hand_on-Keeping a event_command_reply ev c h f =
        or_done-Keeping a (to_cmd_reply ev) c f (to_cmd_reply-Keeping ev c h f)
    hand_on-Keeping a event_api_response ev c h f =
        or_done-Keeping a (to_api_resp ev) c f (to_api_resp-Keeping ev c h f)
    hand_on-Keeping a event_generic ev c h f = to_events-Keeping ev c h f
    hand_on-Keeping a event_log ev c h f = log_line-Keeping (event2_fslog ev) c f
    hand_on-Keeping a event_invalid ev c h f = (f, tt)
    hand_on-Keeping a event_state ev c h f = (f, tt)
    hand_on-Keeping a event_connect ev c h f = (f, tt)
    hand_on-Keeping a event_auth ev c h f = (f, tt)

    after_reset-Keeping : (r : Reset) (c : Conn) → Inside c → Keeping (after_reset r c)
    unfolding after_reset Keeping
    after_reset-Keeping succeeded c f = (f, tt)
    after_reset-Keeping (failed_with e) c f = (f, tt)
    after_reset-Keeping pending c f = (f, tt)

    disconnected : (c : Conn) → Inside c → Inside (record c { connected = false })
    unfolding Inside
    disconnected c f = f

    pub lost-Keeping : (t : Turn) (e : Err) (c : Conn) → Inside c → Keeping (lost t e c)
    unfolding lost
    lost-Keeping t e c f =
        let down = record c { connected = false } in
        Keeping-if (conn_lost e reading) _ _
          (Keeping-if (c.opts.auto_redial && c.connected) _ _
            (Keeping->>= (reset (some e) down) after_reset
              (Holds-Inside (reset (some e)) (reset-Holds (some e)) down (disconnected c f))
              after_reset-Keeping)
            (returns-Keeping (ctx_err t.at_end) c f))
          (goes_on-Keeping c f)

    received_one-Keeping :
        (t : Turn) (e : Option Err) (ev : Event) (c : Conn)
        → Inside c
        → Keeping (received_one t e ev c)
    unfolding received_one
    received_one-Keeping t (some e) ev c f = lost-Keeping t e c f
    received_one-Keeping t none ev c f = hand_on-Keeping t.at_send ev.type ev c refl f

    at_top_of-Keeping :
        (t : Turn) (top : Option CtxErr) (c : Conn) → Inside c → Keeping (at_top_of t top c)
    unfolding at_top_of read_one
    at_top_of-Keeping t none c f =
        Keeping->>= (recv c) _ (Holds-Inside recv (Keeps-Holds recv recv-Keeps) c f)
          (λ r. received_one-Keeping t r.err r.event)
    at_top_of-Keeping t (some e) c f = returns-Keeping _ c f

    pub turn-Keeping : (t : Turn) (c : Conn) → Inside c → Keeping (turn t c)
    unfolding turn
    turn-Keeping t c f =
        Keeping-if c.connected _ _ (at_top_of-Keeping t t.at_top c f) (returns-Keeping _ c f)

  pub finish-Keeping : (e : Option Err) (c : Conn) → Inside c → Keeping (finish e c)
  unfolding finish
  finish-Keeping e c f =
      Keeping-if _ _ _
        (Keeping->>= (cancel_callback c) _ (Holds-Inside cancel_callback cancel_callback-Holds c f)
          (λ _. returns-Keeping e))
        (returns-Keeping e c f)
