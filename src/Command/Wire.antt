-- ===== src/Command/Wire.antt =====
-- What command.go puts on the wire, and what a reader of headers makes of it.
use goesl.Base.{
  ℕ, ◌≡◌, refl, ap, Bool, true, false, List, [], ◌∷◌, ◌++◌, append_assoc, none, Bytes, codes, All,
  ltb, if◌then◌else◌, Bool-cases, inl, inr,
}
use goesl.Text.Number.{format_uint}
use goesl.Mime.{read_mime_header}
use goesl.Mime.Frame.{IsField, field_text, print_fields, add_fields}
use goesl.Mime.Frame.Read.{read_mime_header-print_fields}
use goesl.Command.{Command, serialize, sync_line, loops_line}

lock_field : Bool → List (Bytes × Bytes)
lock_field sync = if sync then (codes "event-lock", codes "true") ∷ [] else []

loops_field : ℕ → List (Bytes × Bytes)
loops_field loops = if ltb 1 loops then (codes "loops", format_uint loops) ∷ [] else []

-- The headers that a command stands for; one loop, or none, is not said.
unfoldable pub command_fields : Command → List (Bytes × Bytes)
unfolding lock_field loops_field
command_fields cmd =
    (codes "call-command", codes "execute")
    ∷ (codes "execute-app-name", cmd.app)
    ∷ (codes "execute-app-args", cmd.args)
    ∷ (lock_field cmd.sync ++ loops_field cmd.loops)

loops-print_fields :
    (loops : ℕ)
    → loops_line loops ++ codes "\r\n\r\n" ≡ print_fields true (loops_field loops) (codes "\r\n")
unfolding loops_line loops_field print_fields field_text
loops-print_fields loops = elim (Bool-cases (ltb 1 loops)) [
  | inl many ↦
      rw many (ap (λ t. codes "loops: " ++ t) (append_assoc (format_uint loops) (codes "\r\n") _))
  | inr one ↦ rw one refl
]

lines-print_fields :
    (sync : Bool) (loops : ℕ)
    → sync_line sync ++ (loops_line loops ++ codes "\r\n\r\n")
      ≡ print_fields true (lock_field sync ++ loops_field loops) (codes "\r\n")
unfolding sync_line lock_field print_fields field_text
lines-print_fields true loops =
    ap (λ t. codes "event-lock: true\r\n" ++ t) (loops-print_fields loops)
lines-print_fields false loops = loops-print_fields loops

serialize-print_fields :
    (cmd : Command)
    → serialize cmd
      ≡ codes "sendmsg "
        ++ (cmd.uuid ++ (codes "\r\n" ++ print_fields true (command_fields cmd) (codes "\r\n")))
unfolding serialize command_fields print_fields field_text
serialize-print_fields cmd =
    ap
      (λ t.
        codes "sendmsg "
        ++ (cmd.uuid
            ++ (codes "\r\ncall-command: execute\r\nexecute-app-name: "
                ++ (cmd.app
                    ++ (codes "\r\nexecute-app-args: " ++ (cmd.args ++ (codes "\r\n" ++ t)))))))
      (lines-print_fields cmd.sync cmd.loops)

-- Where its fields can be printed, Serialize prints one line with the channel, and behind it a block that
-- reads back as the call-command, the application and its arguments, the lock where it is synchronous,
-- and the loops where there are more than one. A line end is left behind the block's own blank line.
pub serialize-read_mime_header :
    (cmd : Command)
    → All IsField (command_fields cmd)
    → (block : Bytes) × (serialize cmd ≡ codes "sendmsg " ++ (cmd.uuid ++ (codes "\r\n" ++ block)))
      × (read_mime_header block ≡ record {
        header = add_fields (command_fields cmd) [];
        problem = none;
        rest = codes "\r\n";
      })
serialize-read_mime_header cmd h = (
  print_fields true (command_fields cmd) (codes "\r\n"),
  serialize-print_fields cmd,
  read_mime_header-print_fields true (command_fields cmd) (codes "\r\n") h,
)
