-- ===== src/Event/Reply.antt =====
-- Event.ErrOrRes of event.go: which replies are errors.
use goesl.Base.{
  ◌≡◌, ◌≢◌, ◌⊎◌, refl, ◌∙◌, ap, sym, Bool, true, false, [], ◌∷◌, ◌++◌, Bytes, codes, none, some,
  length, drop, ltb, arith, Bool-cases, inl, inr, Option,
}
use goesl.Base.Outcome.{done}
use goesl.Text.{has_prefix, trim_space}
use goesl.Text.Laws.{has_prefix-append, has_prefix_split}
use goesl.Errors.{Err, message}
use goesl.Event.{
  Event, EventType, event_invalid, event_state, event_connect, event_auth, event_disconnect,
  event_log, event_generic, event_command_reply, event_api_response, get, get_text_body,
  err_or_res_of, raw_result, err_or_res,
}

-- The text that an event of one of the two reply types carries.
abbrev pub IsReply : Event → Bytes → Type 0
IsReply e raw =
    ((e.type ≡ event_command_reply) × (raw ≡ get e (codes "Reply-Text")))
    ⊎ ((e.type ≡ event_api_response) × (raw ≡ trim_space e.raw_body))

api_text_body :
    (e : Event) → e.type ≡ event_api_response → get_text_body e ≡ done (trim_space e.raw_body)
unfolding get_text_body
api_text_body e h = rw h

raw_result-IsReply :
    (t : EventType) (e : Event) (raw : Bytes)
    → ((t ≡ event_command_reply) × (raw ≡ get e (codes "Reply-Text")))
      ⊎ ((t ≡ event_api_response) × (get_text_body e ≡ done raw))
    → raw_result t e ≡ done (some raw)
unfolding raw_result
raw_result-IsReply t e raw (inl (p, r)) = rw (p, r)
raw_result-IsReply t e raw (inr (p, r)) = rw (p, r)

err_or_res-IsReply :
    (e : Event) (raw : Bytes) → IsReply e raw → err_or_res e ≡ done (err_or_res_of raw)
unfolding err_or_res
err_or_res-IsReply e raw (inl (t, r)) = rw (raw_result-IsReply e.type e raw (inl (t, r)))
err_or_res-IsReply e raw (inr (t, r)) =
    rw (raw_result-IsReply e.type e raw (inr (t, api_text_body e t ∙ ap done (sym r))))

abbrev is_reply : EventType → Bool
is_reply event_command_reply = true
is_reply event_api_response = true
is_reply _ = false

raw_result-other : (t : EventType) (e : Event) → is_reply t ≡ false → raw_result t e ≡ done none
unfolding raw_result
raw_result-other event_command_reply e h = cc
raw_result-other event_api_response e h = cc
raw_result-other _ e h = refl

err_or_res-other :
    (e : Event) (t : EventType) → is_reply t ≡ false → e.type ≡ t → err_or_res e ≡ done ([], none)
unfolding err_or_res
err_or_res-other e t h p =
    let other : is_reply e.type ≡ false = ap is_reply p ∙ h in rw (raw_result-other e.type e other)

-- ErrOrRes ends with a result on every event, whatever its type and its headers.
pub err_or_res-done : (e : Event) → (r : Bytes × Option Err) × (err_or_res e ≡ done r)
err_or_res-done e = by_type e.type refl
  where
    by_type : (t : EventType) → e.type ≡ t → (r : Bytes × Option Err) × (err_or_res e ≡ done r)
    by_type event_command_reply t = (_, err_or_res-IsReply e _ (inl (t, refl)))
    by_type event_api_response t = (_, err_or_res-IsReply e _ (inr (t, refl)))
    by_type event_invalid t = (([], none), err_or_res-other e _ refl t)
    by_type event_state t = (([], none), err_or_res-other e _ refl t)
    by_type event_connect t = (([], none), err_or_res-other e _ refl t)
    by_type event_auth t = (([], none), err_or_res-other e _ refl t)
    by_type event_disconnect t = (([], none), err_or_res-other e _ refl t)
    by_type event_log t = (([], none), err_or_res-other e _ refl t)
    by_type event_generic t = (([], none), err_or_res-other e _ refl t)

long_enough : (m : Bytes) → m ≢ [] → ltb (length (codes "-ERR " ++ m)) 6 ≡ false
long_enough [] h = absurd (h refl)
long_enough (c ∷ m) h = ground arith

not_long : (m : Bytes) → ltb (length (codes "-ERR " ++ m)) 6 ≡ false → m ≢ []
not_long [] h = absurd (ground arith)
not_long (c ∷ m) h = cc

-- A reply is an error exactly if it is "-ERR " and a text that is not empty; the error has that text,
-- and the whole reply is returned beside it, as it is where there is no error.
pub err_or_res_exact :
    (e : Event) (raw : Bytes)
    → IsReply e raw
    → ((m : Bytes) × (m ≢ [])
        × (raw ≡ codes "-ERR " ++ m)
        × (err_or_res e ≡ done (raw, some (message m))))
      ⊎ (((m : Bytes) → m ≢ [] → raw ≢ codes "-ERR " ++ m) × (err_or_res e ≡ done (raw, none)))
unfolding err_or_res_of
err_or_res_exact e raw h = elim (Bool-cases (ltb (length raw) 6)) [
  | inl short ↦ inr (
    (λ m ne p. cc (long_enough m ne, ap (λ r. ltb (length r) 6) p, short)),
    err_or_res-IsReply e raw h ∙ rw (err_or_res_of, short),
  )
  | inr long ↦ elim (Bool-cases (has_prefix raw (codes "-ERR "))) [
    | inl p ↦
        let shape : raw ≡ codes "-ERR " ++ drop 5 raw = has_prefix_split (codes "-ERR ") raw p in
        inl (
          drop 5 raw,
          not_long (drop 5 raw) (ap (λ r. ltb (length r) 6) (sym shape) ∙ long),
          shape,
          err_or_res-IsReply e raw h ∙ rw (err_or_res_of, long, p),
        )
    | inr p ↦ inr (
      (λ m ne q.
          cc (has_prefix-append (codes "-ERR ") m, ap (λ r. has_prefix r (codes "-ERR ")) q, p)),
      err_or_res-IsReply e raw h ∙ rw (err_or_res_of, long, p),
    )
  ]
]
