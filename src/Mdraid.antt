-- ===== src/Mdraid.antt =====
-- internal/mdraid/mdraid.go: the mdadm commands, their arguments, and how their replies are read.
use stornas.Base.{
  String, Bool, not, ◌||◌, Option, none, some, List, [], ◌∷◌, ◌++◌, ◌==◌, if◌then◌else◌, ◌<>◌,
  length, decimal,
}
use stornas.Host.{command, Command, Reply, ran, run_failed, Log, Runner, unless, try, test}
use stornas.Strings.{trim_space, has_text, lines, fields, cut_colon, after_last_colon}

-- `DevPath`.
unfoldable pub dev_path : String → String
dev_path pool = "/dev/md/stornas-" <> pool

abbrev pub mdadm : List String → Command
mdadm args = command "mdadm" args

abbrev pub detail : String → Command
detail dev = mdadm ("--detail" ∷ dev ∷ [])

abbrev pub create_array : String → String → String → List String → Command
create_array dev name level devices = mdadm (
    ("--create"
      ∷ dev
      ∷ "--run"
      ∷ "--force"
      ∷ ("--name=" <> name)
      ∷ "--homehost=stornas"
      ∷ ("--level=" <> level)
      ∷ ("--raid-devices=" <> decimal (length devices))
      ∷ [])
    ++ devices)

abbrev pub add_spare : String → String → Command
add_spare dev with_dev = mdadm (dev ∷ "--add-spare" ∷ with_dev ∷ [])

abbrev pub replace_member : String → String → String → Command
replace_member dev old with_dev = mdadm (dev ∷ "--replace" ∷ old ∷ "--with" ∷ with_dev ∷ [])

abbrev pub add_member : String → String → Command
add_member dev member = mdadm (dev ∷ "--add" ∷ member ∷ [])

abbrev pub fail_member : String → String → Command
fail_member dev member = mdadm (dev ∷ "--fail" ∷ member ∷ [])

abbrev pub remove_member : String → String → Command
remove_member dev member = mdadm (dev ∷ "--remove" ∷ member ∷ [])

abbrev pub stop_array : String → Command
stop_array dev = mdadm ("--stop" ∷ dev ∷ [])

abbrev pub zero_of : String → Command
zero_of member = mdadm ("--zero-superblock" ∷ member ∷ [])

abbrev pub examine : String → Command
examine member = mdadm ("--examine" ∷ member ∷ [])

-- The name in the value of the first line whose key is Name, without the host.
unfoldable pub first_field : List String → String
first_field [] = ""
first_field (name ∷ _) = after_last_colon name

unfoldable pub name_in : List String → String
name_in [] = ""
name_in (line ∷ rest) =
    let later = name_in rest in
    elim (cut_colon line) [
      | none ↦ later
      | some (k, v) ↦
          if not (trim_space k == "Name") then later else first_field (fields (trim_space v))
    ]

-- `ExamineName` of the reply of `mdadm --examine`.
unfoldable pub array_of : Reply → String
array_of (run_failed out e) = ""
array_of (ran out) = name_in (lines out)

module _ (run : Runner) where
  unfoldable pub exists : String → Log → Log × Bool
  exists dev log = test run (detail dev) log

  unfoldable pub create : String → String → String → List String → Log → Log × Option String
  create dev name level devices log = try run (create_array dev name level devices) log

  -- A second command runs only after a first that did not fail.
  unfoldable pub and_then : Log × Option String → Command → Log × Option String
  and_then (log, some e) c = (log, some e)
  and_then (log, none) c = try run c log

  unfoldable pub replace : String → String → String → Log → Log × Option String
  replace dev old with_dev log =
      and_then (try run (add_spare dev with_dev) log) (replace_member dev old with_dev)

  unfoldable pub add : String → String → Log → Log × Option String
  add dev member log = try run (add_member dev member) log

  unfoldable pub fail_detached : String → Log → Log × Option String
  fail_detached dev log = try run (fail_member dev "detached") log

  unfoldable pub remove_failed : String → Log → Log × Option String
  remove_failed dev log =
      and_then (try run (remove_member dev "failed") log) (remove_member dev "detached")

  unfoldable pub fail : String → String → Log → Log × Option String
  fail dev member log = try run (fail_member dev member) log

  -- An array that is absent is stopped already.
  unfoldable pub stop : String → Log → Log × Option String
  stop dev log = (
    stop_array dev ∷ log,
    unless (λ (out e : String). has_text out "No such file" || has_text e "No such file")
        (run log (stop_array dev)),
  )

  unfoldable pub zero_superblock : String → Log → Log × Option String
  zero_superblock member log = (
    zero_of member ∷ log,
    unless
        (λ (out e : String).
          has_text out "Unrecognised"
          || has_text out "No such file"
          || has_text out "Couldn't open")
        (run log (zero_of member)),
  )

  unfoldable pub examine_name : String → Log → Log × String
  examine_name member log = (examine member ∷ log, array_of (run log (examine member)))
