-- ===== src/Tests/Shell.antt =====
-- A run of the example fs_cli: the host is asked, two commands and an empty line are typed, and a quit.
use goesl.Base.{◌≡◌, refl, List, [], ◌∷◌, ◌++◌, map, none, codes, Bytes, same, All}
use goesl.Text.{trim_space, has_prefix}
use goesl.Event.{Event, event_api_response, err_or_res, get_text_body, no_headers, is_text_type}
use goesl.Conn.{◌>>=◌, pure, close}
use goesl.Conn.Send.{from_api_resp}
use goesl.Conn.Send.Ready.{ready, reply_result, writing_all}
use goesl.FsCli.Shell.{prompt, closed, quits, Typed, kind_of, cli_prefix, message_send}
use goesl.FsCli.Shell.Asked.{Asked, cmd_queue, api_queue, texts, says}
use goesl.FsCli.Shell.Order.{GoesOn, ask_host, message_send-in_order}
use goesl.Tests.Loop.{at_work}

abbrev pub text_reply : Bytes → Event
text_reply b = record {
  header = no_headers;
  body = no_headers;
  raw_body = b;
  type = event_api_response;
}

abbrev typed : Bytes → Typed
typed b = record { text = b; pick = from_api_resp; job = codes "id" }

abbrev session : List Asked
session =
    record { typed = typed (codes "status"); reply = text_reply (codes "UP\n") }
    ∷ record { typed = typed []; reply = text_reply [] }
    ∷ record { typed = typed (codes "originate user/1"); reply = text_reply (codes "-ERR no") }
    ∷ []

abbrev last_line : Typed
last_line = typed (codes "/bye")

host_reply : reply_result (text_reply (codes "box\n")) ≡ (codes "box", none)
unfolding reply_result err_or_res get_text_body trim_space has_prefix is_text_type
host_reply = refl

goes_on : All GoesOn session
unfolding kind_of same
goes_on = ((λ e. cc), ((λ e. cc), ((λ e. cc), tt)))

quits_line : kind_of last_line.text ≡ quits
unfolding kind_of same
quits_line = refl

message_send-in_order_example :
    message_send from_api_resp
      (map (λ a. a.typed) session ++ last_line ∷ typed (codes "late") ∷ [])
      (ready (cmd_queue session []) (text_reply (codes "box\n") ∷ api_queue session []) at_work)
    ≡ (close >>= λ _. pure (
      prompt (cli_prefix (codes "box"))
          ∷ (says (cli_prefix (codes "box")) session ++ prompt (cli_prefix (codes "box")) ∷ []),
      closed,
    ))
        (ready [] [] (writing_all (ask_host ∷ texts session) at_work))
message_send-in_order_example =
    message_send-in_order (text_reply (codes "box\n")) (codes "box") session last_line
      (typed (codes "late") ∷ []) [] [] at_work host_reply goes_on quits_line
