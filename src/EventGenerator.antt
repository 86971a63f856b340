-- ===== src/EventGenerator.antt =====
-- examples/event_generator/main.go: the server that prints heartbeats, and the client that it serves.
pub mod Frames
pub mod Framing
pub mod Service
use goesl.Base.{ℕ, zero, suc, ◌*◌, List, [], ◌∷◌, ◌++◌, Bytes, codes}
use goesl.Base.Int.{pos, negsuc}
use goesl.Redo.{second}
use goesl.Options.{
  Opt, Writer, with_default_auto_redial, with_heart_beat, with_net_delay, with_max_retries,
  with_log_level, with_log_output, with_log_prefix,
}
use goesl.Log.{level_debug}
use goesl.Conn.{M}
use goesl.Conn.Send.{Pick, Must, must_send_ok}

unfoldable pub auth_request : Bytes
auth_request = codes "Content-Type: auth/request\r\n\r\n"

unfoldable pub auth_reply : Bytes
auth_reply = codes "Content-Type: command/reply\r\nReply-Text: +OK accepted\r\n\r\n"

unfoldable pub heartbeat : Bytes
heartbeat =
    codes "Content-Length: 914\r\nContent-Type: text/event-plain\r\n\r\n"
    ++ codes "Event-Name: HEARTBEAT\r\n"
    ++ codes "Core-UUID: 3f531e10-0b35-4f5a-abdc-0f6c058095a5\r\n"
    ++ codes "FreeSWITCH-Hostname: sza92131\r\n"
    ++ codes "FreeSWITCH-Switchname: sza92131\r\n"
    ++ codes "FreeSWITCH-IPv4: 10.132.92.131\r\n"
    ++ codes "FreeSWITCH-IPv6: ::1\r\n"
    ++ codes "Event-Date-Local: 2022-03-23 16:27:45\r\n"
    ++ codes "Event-Date-GMT: Wed, 23 Mar 2022 08:27:45 GMT\r\n"
    ++ codes "Event-Date-Timestamp: 1648024065289541\r\n"
    ++ codes "Event-Calling-File: switch_core.c\r\n"
    ++ codes "Event-Calling-Function: send_heartbeat\r\n"
    ++ codes "Event-Calling-Line-Number: 81\r\n"
    ++ codes "Event-Sequence: 57728710\r\n"
    ++ codes "Event-Info: System Ready\r\n"
    ++ codes
        "Up-Time: 0 years, 78 days, 2 hours, 11 minutes, 40 seconds, 201 milliseconds, 301 microseconds\r\n"
    ++ codes "FreeSWITCH-Version: 1.10.5-release+git~20200818T185121Z~25569c1631~64bit\r\n"
    ++ codes "Uptime-msec: 6747100201\r\n"
    ++ codes "Session-Count: 39\r\n"
    ++ codes "Max-Sessions: 2000\r\n"
    ++ codes "Session-Per-Sec: 399\r\n"
    ++ codes "Session-Per-Sec-Last: 7\r\n"
    ++ codes "Session-Per-Sec-Max: 169\r\n"
    ++ codes "Session-Per-Sec-FiveMin: 12\r\n"
    ++ codes "Session-Since-Startup: 1862025\r\n"
    ++ codes "Session-Peak-Max: 358\r\n"
    ++ codes "Session-Peak-FiveMin: 73\r\n"
    ++ codes "Idle-CPU: 99.233333\r\n\r\n"

unfoldable pub plain_reply : Bytes
plain_reply = codes "Content-Type: command/reply\r\nReply-Text: +OK\r\n\r\n"

-- What the server does on the connection that it accepts: a write with its Flush, or a read of what the
-- client has sent, whatever that is.
pub data ServerAct : Type 0 where
  writes_out : Bytes → ServerAct
  reads_in : ServerAct

-- `once.Do`
abbrev greeting : List ServerAct
greeting =
    writes_out auth_request
    ∷ reads_in
    ∷ writes_out auth_reply
    ∷ reads_in
    ∷ writes_out plain_reply
    ∷ reads_in
    ∷ writes_out plain_reply
    ∷ []

-- `n` rounds of the loop.
unfoldable pub rounds : ℕ → List ServerAct
rounds zero = []
rounds (suc n) = writes_out heartbeat ∷ rounds n

unfoldable pub serve : ℕ → List ServerAct
unfolding rounds
serve n = greeting ++ rounds n

-- The bytes that it has sent.
unfoldable pub sent : List ServerAct → Bytes
sent [] = []
sent (writes_out b ∷ as') = b ++ sent as'
sent (reads_in ∷ as') = sent as'

-- The options of the client.
unfoldable pub client_options : Writer → List Opt
client_options file =
    with_default_auto_redial
    ∷ with_heart_beat (pos (20 * second))
    ∷ with_net_delay (pos (2 * second))
    ∷ with_max_retries (negsuc 0)
    ∷ with_log_level level_debug
    ∷ with_log_output file
    ∷ with_log_prefix (codes "<event_generator>")
    ∷ []

-- OnConnect
unfoldable pub on_connect : Pick → M Must
on_connect pick = must_send_ok pick (codes "event") (codes "plain" ∷ codes "ALL" ∷ [])
