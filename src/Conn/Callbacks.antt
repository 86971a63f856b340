-- ===== src/Conn/Callbacks.antt =====
-- connection.go: the event callback goroutines, as the calls on a connection and Close leave them.
use goesl.Base.{
  ℕ, ◌+◌, ◌⊎◌, ◌≡◌, refl, ap, sym, ◌∙◌, Bool, true, false, Option, none, some, inl, inr, arith,
}
use goesl.Conn.{
  Conn, ◌>>◌, set_deadline, shut_socket, cancel_callback, cancel_as, announce, announce_as,
  close_body, close_as, close,
}
use goesl.Conn.Keeps.{
  After, After->>=, After-weaken, Same, Keeps->>=, set_deadline-Keeps, shut_socket-Keeps,
}

abbrev pub running : Option Bool → ℕ
running (some false) = 1
running _ = 0

-- All goroutines but the one of the current canceler have been canceled; while that one has not been,
-- Close can still run.
unfoldable pub Tidy : Conn → Type 0
Tidy c =
    (c.started ≡ c.canceled + running c.canceler) × (running c.canceler ≡ 1 → c.once ≡ some false)

-- Close.
unfoldable pub Ended : Conn → Type 0
Ended c = (c.started ≡ c.canceled) × (running c.canceler ≡ 0)

pub Same-Ended : (k c : Conn) → Ended k → Same k c → Ended c
unfolding Same Ended
Same-Ended k c e s = (
  ap (λ v. v.started) s ∙ e.0 ∙ sym (ap (λ v. v.canceled) s),
  ap (λ v. running v.canceler) s ∙ e.1,
)

pub Same-Tidy : (k c : Conn) → Tidy k → Same k c → Tidy c
unfolding Same Tidy
Same-Tidy k c t s = (
  ap (λ v. v.started) s ∙ t.0 ∙ sym (ap (λ v. v.canceled + running v.canceler) s),
  λ r. ap (λ v. v.once) s ∙ t.1 (sym (ap (λ v. running v.canceler) s) ∙ r),
)

pub Ended-Tidy : (c : Conn) → Ended c → Tidy c
unfolding Ended Tidy
Ended-Tidy c e = (omega arith, λ h. absurd (omega arith))

cancel_as-Ended :
    (r : Option Bool) (c : Conn)
    → r ≡ c.canceler
    → c.started ≡ c.canceled + running r
    → After Ended (cancel_as r c)
unfolding cancel_as After Ended
cancel_as-Ended none c e t = tt
cancel_as-Ended (some true) c e t = (omega arith, ap running (sym e))
cancel_as-Ended (some false) c e t = (omega arith, refl)

cancel_callback-Ended :
    (c : Conn) → c.started ≡ c.canceled + running c.canceler → After Ended (cancel_callback c)
unfolding cancel_callback
cancel_callback-Ended c t = cancel_as-Ended c.canceler c refl t

behind-Ended : (c : Conn) → Ended c → After Ended ((set_deadline >> shut_socket) c)
behind-Ended c e =
    After-weaken (Same c) Ended _
      (Keeps->>= set_deadline (λ _. shut_socket) set_deadline-Keeps (λ _. shut_socket-Keeps) c c
        (unfold Same in refl))
      (λ c'. Same-Ended c c' e)

announce_as-started :
    (b : Bool) (c : Conn)
    → c.started ≡ c.canceled + running c.canceler
    → After (λ c'. c'.started ≡ c'.canceled + running c'.canceler) (announce_as b c)
unfolding announce_as After
announce_as-started true c t = t
announce_as-started false c t = t

close_body-Ended :
    (c : Conn) → c.started ≡ c.canceled + running c.canceler → After Ended (close_body c)
unfolding close_body announce
close_body-Ended c t =
    After->>= _ Ended (announce_as c.connected c) _ (announce_as-started c.connected c t) (λ _ d t'.
      After->>= Ended Ended (cancel_callback d) _ (cancel_callback-Ended d t')
        (λ _ c' e. behind-Ended c' e))

pub running_cases : (r : Option Bool) → (running r ≡ 0) ⊎ (running r ≡ 1)
running_cases none = inl refl
running_cases (some true) = inl refl
running_cases (some false) = inr refl

close_as-Ended : (r : Option Bool) (c : Conn) → r ≡ c.once → Tidy c → After Ended (close_as r c)
unfolding close_as After Tidy Ended
close_as-Ended none c e t = tt
close_as-Ended (some true) c e t = elim (running_cases c.canceler) [
  | inl z ↦ (omega arith, z)
  | inr o ↦ absurd (ground (arith, e, t.1 o))
]
close_as-Ended (some false) c e t = close_body-Ended (record c { once = some true }) t.0

-- Close leaves no callback goroutine running, however often it has been called before.
pub close-Ended : (c : Conn) → Tidy c → After Ended (close c)
unfolding close
close-Ended c t = close_as-Ended c.once c refl t
