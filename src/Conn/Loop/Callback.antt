-- ===== src/Conn/Loop/Callback.antt =====
-- connection.go: eventCallback, from one wait to the next.
pub mod Effect
use goesl.Base.{Bool, true, false, List, [], ◌∷◌, ◌++◌, Option, none, some, codes, if◌then◌else◌}
use goesl.Base.Outcome.{Outcome, done}
use goesl.Errors.{NetErr}
use goesl.EvName
use goesl.EvName.{heartbeat}
use goesl.Event.{Event}
use goesl.Conn.{Conn, on_connect, M, ◌>>=◌, ◌>>◌, pure, act, set_deadline, write}
use goesl.Conn.Send.{Pick, ctx_done, Sent, answer, waiting, await, write_failed, command_text}

-- Where eventCallback is: before `plain`, in its wait for the reply, before OnConnect, in its loop,
-- returned.
pub data Phase : Type 0 where
  starting awaiting greeting listening stopped : Phase

-- `conn.plain(ctx, "HEARTBEAT")` up to its wait. Where Fatalf, called for an error, ends the process
-- nothing follows; where a caller's logger returns from it, the goroutine goes on.
unfoldable pub asked : Option NetErr → M Phase
asked none = pure awaiting
asked (some e) = do write_failed e; pure greeting

unfoldable pub ask : M Phase
unfolding asked
ask c =
    if c.opts.auto_redial
    then (do
      set_deadline
      e ← write (command_text (codes "event") (codes "plain" ∷ EvName.to_string heartbeat ∷ []))
      asked e)
        c
    else done (greeting, c)

unfoldable pub answered_phase : Sent → Phase
answered_phase (answer raw err) = greeting
answered_phase waiting = awaiting

-- The wait for its reply; a context that is not done is not ready in the select.
unfoldable pub got : Bool → Pick → M Phase
unfolding answered_phase
got false (ctx_done e) = pure awaiting
got b pick = do r ← await pick; pure (answered_phase r)

unfoldable pub take_event : List Event → M (Phase × List Event)
take_event [] c = done ((listening, []), c)
take_event (e ∷ es) c = done ((listening, e ∷ []), record c { events = es })

-- What a callback goroutine may do next.
pub data Move : Type 0 where
  asks greets takes_event stops : Move
  gets : Pick → Move

abbrev with_none : Phase → M (Phase × List Event)
with_none p = pure (p, [])

-- eventCallback: its next phase, and the events that OnEvent is called with. In its select either of
-- two ready cases may be taken; a move that is not ready changes nothing.
unfoldable pub callback : Move → Bool → Phase → M (Phase × List Event)
unfolding ask got take_event
callback asks b starting = do p ← ask; with_none p
callback (gets pick) b awaiting = do p ← got b pick; with_none p
callback greets b greeting = λ c. done ((listening, []), act on_connect c)
callback takes_event b listening = λ c. take_event c.events c
callback stops true listening = with_none stopped
callback m b p = with_none p
