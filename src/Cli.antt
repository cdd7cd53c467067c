-- ===== src/Cli.antt =====
-- sources/agent/src/main.cc: the command line that steers the agent; the agent's own mode is in Agent.
-- `std::filesystem::absolute` is an argument, and so is whether `mq_open` succeeds. An exception of the
-- queue is not caught and ends the process: it is the error of the result.
pub mod Commands
pub mod Export
pub mod Agent
use volta.Prelude.{
  ℕ, ◌-◌, Bool, true, false, Option, none, some, List, [], ◌∷◌, ◌++◌, Text, text, length, drop,
  ◌=t=◌, starts_with, if◌then◌else◌, ltb,
}
use volta.MessageQueue.{MessageQueue, Result, ok, err, sender}
use volta.MessageQueue

-- The exit status and the messages given to `mq_send`. What that returns is not looked at.
pub record Exit : Type 0 where
  pub status : ℕ
  pub sent : List Text

abbrev pub exit : ℕ → List Text → Exit
exit status sent = record { status = status; sent = sent }

-- `send`, and then the return of 0.
unfoldable pub send_and_exit : MessageQueue → Text → Result Exit
send_and_exit q message = elim (MessageQueue.send q message true) [
  | err f ↦ err f
  | ok _ ↦ ok (exit 0 (message ∷ []))
]

unfoldable pub export_command : (Text → Text) → MessageQueue → List Text → Result Exit
unfolding send_and_exit
export_command absolute q [] = ok (exit 1 [])
export_command absolute q (subcommand ∷ args) =
    if subcommand =t= text "start"
    then (let file : Text = elim args [ [] ↦ [] | path ∷ _ ↦ absolute path ] in
        send_and_exit q (text "dump_start;" ++ file))
    else if subcommand =t= text "stop"
    then send_and_exit q (text "dump_end")
    else ok (exit 1 [])

-- `cli_mode`, at the arguments after the program's name.
unfoldable pub cli_mode : (Text → Text) → Bool → List Text → Result Exit
unfolding export_command
cli_mode absolute opened [] = ok (exit 1 [])
cli_mode absolute opened (command ∷ args) =
    elim (MessageQueue.create (text "/volta_agent_command_queue") sender 4096 opened) [
      | err f ↦ err f
      | ok (q, _) ↦
          if command =t= text "export" then export_command absolute q args else ok (exit 1 [])
    ]

-- `std::string::ends_with`
abbrev ends_with : Text → Text → Bool
ends_with t suffix =
    if ltb (length t) (length suffix) then false else drop (length t - length suffix) t =t= suffix

pub data Mode : Type 0 where
  cli agent neither : Mode

-- The choice that `main` makes by the program's name.
unfoldable pub mode_of : Text → Mode
mode_of program_name =
    if ends_with program_name (text "volta")
    then cli
    else if ends_with program_name (text "voltad")
    then agent
    else neither
