-- ===== src/Conn/Channels.antt =====
-- connection.go: the calls on a connection that leave its channels as they are.
use goesl.Base.{◌≡◌, refl, ap, ◌∙◌, Bool, true, false, Option, none, some}
use goesl.Conn.{
  Conn, M, ◌>>=◌, ◌>>◌, set_deadline, shut_socket, cancel_callback, cancel_as, announce,
  announce_as, close_body, close_as, close,
}
use goesl.Conn.Keeps.{
  After, After->>=, After-weaken, channels, Same, Keeps, Keeps->>=, set_deadline-Keeps,
  shut_socket-Keeps,
}

unfoldable pub Held : Conn → Conn → Type 0
Held k c = channels c ≡ channels k

-- A method that leaves the channels as they are.
abbrev pub Holds : {A : Type 0} → M A → Type 0
Holds m = (k c : Conn) → Held k c → After (Held k) (m c)

Same-Held : (k c d : Conn) → Held k c → Same c d → Held k d
unfolding Same Held
Same-Held k c d h s = ap (λ v. v.held) s ∙ h

pub Keeps-Holds : {A : Type 0} (m : M A) → Keeps m → Holds m
Keeps-Holds m p k c h =
    After-weaken (Same c) (Held k) (m c) (p c c (unfold Same in refl)) (λ d. Same-Held k c d h)

pub Holds->>= :
    {A B : Type 0} (m : M A) (f : A → M B) → Holds m → ((a : A) → Holds (f a)) → Holds (m >>= f)
Holds->>= m f p q k c h = After->>= (Held k) (Held k) (m c) f (p k c h) (λ a d g. q a k d g)

cancel_as-Holds : (r : Option Bool) → Holds (cancel_as r)
unfolding cancel_as After Held
cancel_as-Holds none k c h = tt
cancel_as-Holds (some true) k c h = h
cancel_as-Holds (some false) k c h = h

pub cancel_callback-Holds : Holds cancel_callback
unfolding cancel_callback
cancel_callback-Holds k c h = cancel_as-Holds c.canceler k c h

announce_as-Holds : (b : Bool) → Holds (announce_as b)
unfolding announce_as After Held
announce_as-Holds true k c h = h
announce_as-Holds false k c h = h

close_body-Holds : Holds close_body
unfolding close_body announce
close_body-Holds k c h =
    Holds->>= (announce_as c.connected) _ (announce_as-Holds c.connected)
      (λ _. Holds->>= cancel_callback _ cancel_callback-Holds (λ _.
        Keeps-Holds (set_deadline >> shut_socket)
          (Keeps->>= set_deadline (λ _. shut_socket) set_deadline-Keeps (λ _. shut_socket-Keeps))))
      k c h

close_as-Holds : (r : Option Bool) → Holds (close_as r)
unfolding close_as
close_as-Holds none k c h = unfold After in tt
close_as-Holds (some true) k c h = unfold After in h
close_as-Holds (some false) k c h =
    close_body-Holds k (record c { once = some true }) (unfold Held in h)

pub close-Holds : Holds close
unfolding close
close-Holds k c h = close_as-Holds c.once k c h
