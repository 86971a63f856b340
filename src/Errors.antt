-- ===== src/Errors.antt =====
-- The errors that event.go and connection.go make and tell apart.
use goesl.Base.{ℕ, Bool, true, false, Bytes}

-- What a read, a write or a deadline call on a connection fails with.
pub data NetErr : Type 0 where
  eof unexpected_eof deadline_exceeded broken_pipe net_closed : NetErr
  other_net : ℕ → NetErr

-- The errors of a context.
pub data CtxErr : Type 0 where
  canceled ctx_deadline : CtxErr

-- `wrap` is fmt.Errorf with a text and the verb %w.
pub data Err : Type 0 where
  net : NetErr → Err
  ctx : CtxErr → Err
  message : Bytes → Err
  mime_malformed : Bytes → Err
  not_a_number : Bytes → Err
  wrap : Bytes → Err → Err

-- errors.Is goes through the wrapping. The list for reads, and the list for writes, of connLost.
abbrev lost_read : NetErr → Bool
lost_read eof = true
lost_read unexpected_eof = true
lost_read deadline_exceeded = true
lost_read broken_pipe = false
lost_read net_closed = true
lost_read (other_net _) = false

abbrev lost_write : NetErr → Bool
lost_write eof = false
lost_write unexpected_eof = false
lost_write deadline_exceeded = true
lost_write broken_pipe = true
lost_write net_closed = true
lost_write (other_net _) = false

pub data Mode : Type 0 where
  reading writing : Mode

lost_net : Mode → NetErr → Bool
lost_net reading e = lost_read e
lost_net writing e = lost_write e

-- connLost of connection.go.
unfoldable pub conn_lost : Err → Mode → Bool
unfolding lost_net
conn_lost (net e) mode = lost_net mode e
conn_lost (wrap t e) mode = conn_lost e mode
conn_lost _ mode = false

-- errors.Is(err, net.ErrClosed) || errors.Is(err, context.Canceled)
unfoldable pub closed_or_canceled : Err → Bool
closed_or_canceled (net net_closed) = true
closed_or_canceled (ctx canceled) = true
closed_or_canceled (wrap t e) = closed_or_canceled e
closed_or_canceled _ = false
