-- ===== src/Replace.antt =====
-- internal/agent/replace.go: what must change so that the members of a VG are the devices of the
-- spec, and the commands that change it.
pub mod Plan
pub mod Steps
mod Examples
use stornas.Base.{
  ℕ, String, Bool, true, false, not, ◌&&◌, Option, none, List, [], ◌∷◌, map, ◌==◌, ltb,
  if◌then◌else◌, contains,
}
use stornas.Host.{unless_failed, Log, Runner}
use stornas.Lvm.{is_pv, create_pv, vg_extend, vg_reduce, pv_remove, pv_move}
use stornas.StoragePool.{StoragePool, vg_name}

-- `lvm.PV`; the sizes that LVM reports are no negative numbers.
pub record Pv : Type 0 where
  pub name : String
  pub missing : Bool
  pub used_bytes : ℕ

pub record DevicePlan : Type 0 where
  pub add : List String
  pub evacuate : List String
  pub drop : List String
  pub missing : Bool

abbrev pub is_nil {ℓ} : {A : Type ℓ} → List A → Bool
is_nil [] = true
is_nil (x ∷ xs) = false

-- `devicePlan.empty`.
unfoldable pub is_empty : DevicePlan → Bool
is_empty p = is_nil p.add && is_nil p.evacuate && is_nil p.drop && not p.missing

-- The kernel path of a spec device; the map has "" where it has no key.
unfoldable pub kernel_path : (String → String) → String → String
kernel_path resolved dev = if resolved dev == "" then dev else resolved dev

-- The keys of `want`.
unfoldable pub wanted : (String → String) → List String → List String
wanted resolved spec = map (kernel_path resolved) spec

-- The keys of `present`.
unfoldable pub present : List Pv → List String
present [] = []
present (pv ∷ pvs) = let rest = present pvs in if pv.missing then rest else pv.name ∷ rest

-- The loop over the members.
unfoldable pub plan_members : List String → List Pv → DevicePlan
plan_members want [] = record { add = []; evacuate = []; drop = []; missing = false }
plan_members want (pv ∷ pvs) =
    let rest = plan_members want pvs in
    if pv.missing
    then record rest { missing = true }
    else if contains pv.name want
    then rest
    else if ltb 0 pv.used_bytes
    then record rest { evacuate = pv.name ∷ rest.evacuate }
    else record rest { drop = pv.name ∷ rest.drop }

-- The loop over the spec.
unfoldable pub absent_from : List String → (String → String) → List String → List String
absent_from here_now resolved [] = []
absent_from here_now resolved (dev ∷ spec) =
    let rest = absent_from here_now resolved spec in
    if contains (kernel_path resolved dev) here_now then rest else dev ∷ rest

-- `planDevices`.
unfoldable pub plan_devices : List String → (String → String) → List Pv → DevicePlan
plan_devices spec resolved pvs = record (plan_members (wanted resolved spec) pvs) {
  add = absent_from (present pvs) resolved spec;
}

-- The one newcomer, or none in particular.
unfoldable pub destination : List String → String
destination [] = ""
destination (dev ∷ []) = dev
destination (dev ∷ other ∷ devs) = ""

module _ (run : Runner) where
  unfoldable pub ensure_pv : String → Log × Bool → Log × Option String
  ensure_pv dev (log, true) = (log, none)
  ensure_pv dev (log, false) = create_pv run dev log

  unfoldable pub add_devices : String → List String → Log → Log × Option String
  add_devices vg [] log = (log, none)
  add_devices vg (dev ∷ devs) log =
      unless_failed (unless_failed (ensure_pv dev (is_pv run dev log)) (vg_extend run vg dev))
        (add_devices vg devs)

  unfoldable pub evacuate_devices : String → List String → Log → Log × Option String
  evacuate_devices dst [] log = (log, none)
  evacuate_devices dst (dev ∷ devs) log =
      unless_failed (pv_move run dev dst log) (evacuate_devices dst devs)

  unfoldable pub drop_devices : String → List String → Log → Log × Option String
  drop_devices vg [] log = (log, none)
  drop_devices vg (dev ∷ devs) log =
      unless_failed (unless_failed (vg_reduce run vg dev log) (pv_remove run dev))
        (drop_devices vg devs)

  -- `convergeDevices`.
  unfoldable pub converge_devices : StoragePool → DevicePlan → Log → Log × Option String
  converge_devices p plan log =
      unless_failed
        (unless_failed (add_devices (vg_name p) plan.add log)
          (evacuate_devices (destination plan.add) plan.evacuate))
        (drop_devices (vg_name p) plan.drop)
