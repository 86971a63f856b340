-- ===== src/Conn/Dial/Refusal.antt =====
-- connection.go: auth, on a refusal that it takes for acceptance.
use goesl.Base.{ℕ, ◌≡◌, refl, ap, ◌∙◌, true, [], ◌∷◌, ◌++◌, Bytes, codes, none, arith}
use goesl.Base.Outcome.{done}
use goesl.Text.{contains_byte, has_prefix}
use goesl.Text.Query.{Stray, query_unescape-Stray}
use goesl.Errors.{NetErr}
use goesl.Recv.Frames.{Frame, IsFrame, field, print_frame}
use goesl.Conn.{Conn, act, wrote}
use goesl.Conn.Dial.{auth}
use goesl.Conn.Dial.Auth.{up, reply_text, verdict, auth-print_frame}

contains_byte-append : (b : ℕ) (s t : Bytes) → contains_byte b (s ++ (b ∷ t)) ≡ true
unfolding contains_byte
contains_byte-append b [] t = ground arith
contains_byte-append b (c ∷ s) t = ground (arith, contains_byte-append b s t)

reply_text-Stray :
    (g : Frame) (s t : Bytes)
    → field (codes "Reply-Text") g ≡ s ++ (b'%' ∷ t)
    → Stray t
    → reply_text g ≡ []
unfolding reply_text
reply_text-Stray g s t h k = rw (h, contains_byte-append b'%' s t, query_unescape-Stray s t k) refl

-- On a well-formed request of a server and a well-formed reply that refuses the password, with "-ERR " at
-- its start and, anywhere in the reason behind it, a percent sign that no hexadecimal digit follows, and
-- with calls on the socket that succeed, auth writes the password and returns no error, as it does for an
-- accepted password.
pub auth-refusal_accepted :
    (c : Conn) (f g : Frame) (s t rest : Bytes) (ending : NetErr)
    → IsFrame f
    → IsFrame g
    → field (codes "Content-Type") f ≡ codes "auth/request"
    → field (codes "Content-Type") g ≡ codes "command/reply"
    → field (codes "Reply-Text") g ≡ codes "-ERR " ++ (s ++ (b'%' ∷ t))
    → Stray t
    → auth (up (print_frame f (print_frame g rest)) ending c)
      ≡ done
          (none, up rest ending (act (wrote (codes "auth " ++ (c.password ++ codes "\r\n\r\n"))) c))
unfolding has_prefix
auth-refusal_accepted c f g s t rest ending hf hg tf tg refused k =
    auth-print_frame c f g rest ending hf hg tf tg
    ∙ ap
        (λ reply. done (
          verdict reply,
          up rest ending (act (wrote (codes "auth " ++ (c.password ++ codes "\r\n\r\n"))) c),
        ))
        (reply_text-Stray g (codes "-ERR " ++ s) t refused k)
