-- ===== src/Replace/Examples.antt =====
-- One disk of a VG is swapped for another.
use stornas.Base.{String, ◌≡◌, refl, ◌↔◌, true, false, List, [], ◌∷◌, ◌==◌, if◌then◌else◌, In, here}
use stornas.Host.{Runner, ran}
use stornas.Replace.{
  Pv, DevicePlan, is_empty, plan_devices, plan_members, absent_from, wanted, present, kernel_path,
}
use stornas.Replace.Plan.{IsConverged, plan_is_empty_iff}

plan_runs : Unit {0}
unfolding plan_devices plan_members absent_from wanted present kernel_path is_empty
plan_runs = tt

abbrev by_id : String → String
by_id dev = if dev == "/dev/disk/by-id/x" then "/dev/sda" else ""

abbrev swapped : List String
swapped = "/dev/disk/by-id/x" ∷ "/dev/sdc" ∷ []

abbrev members : List Pv
members =
    record { name = "/dev/sda"; missing = false; used_bytes = 4096 }
    ∷ record { name = "/dev/sdb"; missing = false; used_bytes = 0 }
    ∷ []

abbrev plan : DevicePlan
plan = plan_devices swapped by_id members

plan_is : (plan.add ≡ "/dev/sdc" ∷ []) × (plan.drop ≡ "/dev/sdb" ∷ []) × (plan.evacuate ≡ [])
unfolding plan_runs
plan_is = (refl, refl, refl)

drops : In "/dev/sdb" plan.drop
unfolding plan_runs
drops = here refl

plan_is_empty_iff_example : (is_empty plan ≡ true) ↔ IsConverged swapped by_id members
plan_is_empty_iff_example = plan_is_empty_iff swapped by_id members

abbrev quiet_host : Runner
quiet_host log c = ran ""
