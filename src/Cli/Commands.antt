-- ===== src/Cli/Commands.antt =====
-- The messages of the command line, as the agent's handler reads them.
use volta.Prelude.{
  ◌≡◌, refl, ap, sym, ◌∙◌, Bool, true, false, some, List, [], ◌∷◌, ◌++◌, Text, text, length, leb,
  if◌then◌else◌, arith, Bool-cases, inl, inr,
}
use volta.MessageQueue.{ok, err, invalid_argument, runtime_error}
use volta.MessageQueue
use volta.Scheduler.{parse_command, starts, ends}
use volta.Scheduler.Loop.{parse_command-start}
use volta.Cli.{exit, cli_mode}

-- How `export start` ends, by whether the queue opens.
start_result :
    (absolute : Text → Text) (opened : Bool) (path : Text) (more : List Text)
    → cli_mode absolute opened (text "export" ∷ text "start" ∷ path ∷ more) ≡ (
        if opened
        then (if leb (length (absolute path)) 4085
            then ok (exit 0 ((text "dump_start;" ++ absolute path) ∷ []))
            else err invalid_argument)
        else err runtime_error)
unfolding cli_mode MessageQueue.create MessageQueue.send
start_result absolute false path more = refl
start_result absolute true path more = elim (Bool-cases (leb (length (absolute path)) 4085)) [
  | inl e ↦ ground (arith, e)
  | inr e ↦ ground (arith, e)
]

-- `export start PATH`: if the queue opens, and the absolute path of PATH has at most 4085 bytes, one
-- message is given to the queue and the exit status is 0; a longer path ends the process with
-- `invalid_argument`, and a queue that does not open with `runtime_error`. The agent reads the message as the
-- start of a dump into that path, where it begins with `/`.
pub cli_mode-start :
    (absolute : Text → Text) (opened : Bool) (path rest : Text) (more : List Text)
    → absolute path ≡ b'/' ∷ rest
    → (message : Text) × (cli_mode absolute opened (text "export" ∷ text "start" ∷ path ∷ more) ≡ (
        if opened
        then (if leb (length (absolute path)) 4085
            then ok (exit 0 (message ∷ []))
            else err invalid_argument)
        else err runtime_error))
      × (parse_command message ≡ some (starts (absolute path) ∷ []))
cli_mode-start absolute opened path rest more h = (
  text "dump_start;" ++ absolute path,
  start_result absolute opened path more,
  ap (λ t. parse_command (text "dump_start;" ++ t)) h
      ∙ parse_command-start rest
      ∙ ap (λ t. some (starts t ∷ [])) (sym h),
)

-- `export stop` sends one message, which the agent reads as the end of a dump.
pub cli_mode-stop :
    (absolute : Text → Text) (more : List Text)
    → (message : Text) × (cli_mode absolute true (text "export" ∷ text "stop" ∷ more)
        ≡ ok (exit 0 (message ∷ [])))
      × (parse_command message ≡ some (ends ∷ []))
unfolding cli_mode MessageQueue.create MessageQueue.send parse_command
cli_mode-stop absolute more = (text "dump_end", refl, refl)
