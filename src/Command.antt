-- ===== src/Command.antt =====
-- command.go: the sendmsg command.
pub mod Wire
use goesl.Base.{ℕ, ◌^◌, Bool, true, false, List, [], ◌∷◌, ◌++◌, Bytes, codes, ltb, if◌then◌else◌}
use goesl.Text.Number.{format_uint}

-- `loops` is a uint, below 2 ^ 64.
pub record Command : Type 0 where
  pub uuid : Bytes
  pub app : Bytes
  pub args : Bytes
  pub sync : Bool
  pub loops : ℕ

sync_line : Bool → Bytes
sync_line sync = if sync then codes "event-lock: true\r\n" else []

loops_line : ℕ → Bytes
loops_line loops =
    if ltb 1 loops then codes "loops: " ++ (format_uint loops ++ codes "\r\n") else []

-- Serialize, one piece for each WriteString.
unfoldable pub serialize : Command → Bytes
unfolding sync_line loops_line
serialize cmd =
    codes "sendmsg "
    ++ (cmd.uuid
        ++ (codes "\r\ncall-command: execute"
            ++ (codes "\r\nexecute-app-name: "
                ++ (cmd.app
                    ++ (codes "\r\nexecute-app-args: "
                        ++ (cmd.args
                            ++ (codes "\r\n"
                                ++ (sync_line cmd.sync
                                    ++ (loops_line cmd.loops ++ codes "\r\n\r\n")))))))))
