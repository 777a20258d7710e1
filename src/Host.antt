-- ===== src/Host.antt =====
-- internal/lvm/lvm.go and internal/agent/runner.go, the Runner: host commands, what they answer,
-- and the log of those that ran. The calls of `os` on host files are commands too, by the names of
-- the Go functions, so that the log keeps their order.
pub mod Growth
use stornas.Base.{String, Bool, true, false, Option, none, some, List, [], ◌∷◌, if◌then◌else◌}

pub record Command : Type 0 where
  pub name : String
  pub args : List String
  pub input : String

-- A command without input, and one that is given input (`RunInput` of internal/agent/runner.go).
abbrev pub command : String → List String → Command
command name args = record { name = name; args = args; input = "" }

abbrev pub command_with : String → String → List String → Command
command_with input name args = record { name = name; args = args; input = input }

-- What `Run` returns: the output; or the output and an error.
pub data Reply : Type 0 where
  ran : String → Reply
  run_failed : String → String → Reply

-- The commands that ran, the last one first.
abbrev pub Log : Type 0
Log = List Command

-- The host: what a command answers, after the commands that ran before it.
abbrev pub Runner : Type 0
Runner = Log → Command → Reply

abbrev pub error_of : Reply → Option String
error_of (ran out) = none
error_of (run_failed out e) = some e

abbrev pub succeeds : Reply → Bool
succeeds (ran out) = true
succeeds (run_failed out e) = false

-- The error, unless the output says that there was nothing to do.
abbrev pub unless : (String → String → Bool) → Reply → Option String
unless p (ran out) = none
unless p (run_failed out e) = if p out e then none else some e

-- One command runs.
abbrev pub exec : Runner → Command → Log → Log × Reply
exec run c log = (c ∷ log, run log c)

-- ... and only its error is looked at.
abbrev pub try : Runner → Command → Log → Log × Option String
try run c log = (c ∷ log, error_of (run log c))

-- ... and only whether it succeeds.
abbrev pub test : Runner → Command → Log → Log × Bool
test run c log = (c ∷ log, succeeds (run log c))

-- `os.WriteFile`, `os.Remove`, `os.MkdirAll`, `os.Stat` and `os.ReadFile`. A missing file shows in
-- the reply's output, which is `not_exist`.
abbrev pub write_file : String → String → Command
write_file path text = command_with text "os.WriteFile" (path ∷ [])

abbrev pub remove_file : String → Command
remove_file path = command "os.Remove" (path ∷ [])

abbrev pub make_dirs : String → Command
make_dirs path = command "os.MkdirAll" (path ∷ [])

abbrev pub stat : String → Command
stat path = command "os.Stat" (path ∷ [])

abbrev pub read_file : String → Command
read_file path = command "os.ReadFile" (path ∷ [])

abbrev pub not_exist : String
not_exist = "os.ErrNotExist"

-- What comes next runs unless the step before it failed.
unfoldable pub unless_failed :
    Log × Option String → (Log → Log × Option String) → Log × Option String
unless_failed (log, some e) next = (log, some e)
unless_failed (log, none) next = next log
