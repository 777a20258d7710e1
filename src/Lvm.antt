-- ===== src/Lvm.antt =====
-- internal/lvm/lvm.go: the LVM commands, their arguments, and how their replies are read.
use stornas.Base.{
  String, Bool, false, ◌||◌, Option, none, some, List, [], ◌∷◌, ◌==◌, if◌then◌else◌, ◌<>◌,
}
use stornas.Host.{command, Command, Reply, ran, run_failed, Log, Runner, unless, try, test}
use stornas.Strings.{trim_space, has_text}
use text.Mathlib.Text.{starts_with}

abbrev pub pvs : String → Command
pvs dev = command "pvs" (dev ∷ [])

abbrev pub pvcreate : String → Command
pvcreate dev = command "pvcreate" (dev ∷ [])

abbrev pub vgs : String → Command
vgs vg = command "vgs" (vg ∷ [])

abbrev pub vgcreate : String → List String → Command
vgcreate vg devices = command "vgcreate" (vg ∷ devices)

abbrev pub lv_attr : String → String → Command
lv_attr vg lv = command "lvs" ("--noheadings" ∷ "--options" ∷ "lv_attr" ∷ (vg <> "/" <> lv) ∷ [])

abbrev pub lvcreate : String → String → Command
lvcreate vg lv =
    command "lvcreate" ("--type" ∷ "thin-pool" ∷ "--extents" ∷ "90%VG" ∷ "--name" ∷ lv ∷ vg ∷ [])

abbrev pub test_block : String → Command
test_block dev = command "test" ("-b" ∷ dev ∷ [])

abbrev pub readlink : String → Command
readlink dev = command "readlink" ("-f" ∷ dev ∷ [])

abbrev pub vgextend : String → String → Command
vgextend vg dev = command "vgextend" (vg ∷ dev ∷ [])

abbrev pub vgreduce : String → String → Command
vgreduce vg dev = command "vgreduce" (vg ∷ dev ∷ [])

abbrev pub pvremove : String → Command
pvremove dev = command "pvremove" (dev ∷ [])

abbrev pub vgremove : String → Command
vgremove vg = command "vgremove" ("-ff" ∷ "-y" ∷ vg ∷ [])

abbrev pub pvwipe : String → Command
pvwipe dev = command "pvremove" ("-ff" ∷ "-y" ∷ dev ∷ [])

abbrev pub pv_vg_name : String → Command
pv_vg_name dev = command "pvs" ("--noheadings" ∷ "--options" ∷ "vg_name" ∷ dev ∷ [])

abbrev pub pvmove : String → String → Command
pvmove dev dst = command "pvmove" ("--background" ∷ dev ∷ (if dst == "" then [] else dst ∷ []))

-- `ResolvePath` of the reply of `readlink`.
unfoldable pub resolved : String → Reply → String
resolved dev (run_failed out e) = dev
resolved dev (ran out) = if trim_space out == "" then dev else trim_space out

-- `PVVG` of the reply of `pvs`; `none` is no PV.
unfoldable pub vg_of : Reply → Option String
vg_of (run_failed out e) = none
vg_of (ran out) = some (trim_space out)

unfoldable pub is_thin_attr : Reply → Bool
is_thin_attr (run_failed out e) = false
is_thin_attr (ran out) = starts_with (trim_space out) "t"

module _ (run : Runner) where
  unfoldable pub is_pv : String → Log → Log × Bool
  is_pv dev log = test run (pvs dev) log

  unfoldable pub create_pv : String → Log → Log × Option String
  create_pv dev log = try run (pvcreate dev) log

  unfoldable pub vg_exists : String → Log → Log × Bool
  vg_exists vg log = test run (vgs vg) log

  unfoldable pub create_vg : String → List String → Log → Log × Option String
  create_vg vg devices log = try run (vgcreate vg devices) log

  unfoldable pub is_thin_pool : String → String → Log → Log × Bool
  is_thin_pool vg lv log = (lv_attr vg lv ∷ log, is_thin_attr (run log (lv_attr vg lv)))

  unfoldable pub create_thin_pool : String → String → Log → Log × Option String
  create_thin_pool vg lv log = try run (lvcreate vg lv) log

  unfoldable pub is_block_dev : String → Log → Log × Bool
  is_block_dev dev log = test run (test_block dev) log

  unfoldable pub resolve_path : String → Log → Log × String
  resolve_path dev log = (readlink dev ∷ log, resolved dev (run log (readlink dev)))

  unfoldable pub vg_extend : String → String → Log → Log × Option String
  vg_extend vg dev log = try run (vgextend vg dev) log

  unfoldable pub vg_reduce : String → String → Log → Log × Option String
  vg_reduce vg dev log = try run (vgreduce vg dev) log

  unfoldable pub pv_remove : String → Log → Log × Option String
  pv_remove dev log = try run (pvremove dev) log

  -- An absent VG is removed already.
  unfoldable pub vg_remove : String → Log → Log × Option String
  vg_remove vg log = (
    vgremove vg ∷ log,
    unless (λ (out e : String). has_text out "not found") (run log (vgremove vg)),
  )

  unfoldable pub pv_wipe : String → Log → Log × Option String
  pv_wipe dev log = (
    pvwipe dev ∷ log,
    unless (λ (out e : String). has_text out "o PV label" || has_text out "not found")
        (run log (pvwipe dev)),
  )

  unfoldable pub pv_vg : String → Log → Log × Option String
  pv_vg dev log = (pv_vg_name dev ∷ log, vg_of (run log (pv_vg_name dev)))

  unfoldable pub pv_move : String → String → Log → Log × Option String
  pv_move dev dst log = (
    pvmove dev dst ∷ log,
    unless (λ (out e : String). has_text out "in progress") (run log (pvmove dev dst)),
  )
