-- ===== src/PoolAgent.antt =====
-- internal/agent/pool.go: what the node agent does to the host when a pool is deleted.
pub mod Wipes
pub mod Complete
pub mod Clearance
mod Examples
use stornas.Base.{
  String, Bool, true, false, not, ◌&&◌, ◌||◌, Option, none, some, List, [], ◌∷◌, ◌==◌,
  if◌then◌else◌, ◌<>◌,
}
use stornas.Kube.{
  condition_true, ready, torn_down, deregistered, WriteReply, written, conflict, already_exists,
  write_not_found, write_failed, write_error, Outcome, done, failed, MetaLib,
}
use stornas.Host.{unless_failed, Log, Runner}
use stornas.Lvm.{is_block_dev, resolve_path, vg_remove, pv_wipe, pv_vg}
use stornas.Mdraid.{dev_path, stop, zero_superblock, examine_name}
use stornas.StoragePool.{StoragePool, vg_name, with_conditions}
use stornas.PoolController.{condition}

abbrev pub is_raid : String → Bool
is_raid raid = not (raid == "") && not (raid == "none")

-- The name of the array of a pool.
abbrev pub array_name : String → String
array_name pool = "stornas-" <> pool

-- The PV is an orphan, or of this VG; `none` is no PV.
abbrev pub is_own_pv : String → Option String → Bool
is_own_pv vg none = false
is_own_pv vg (some v) = v == "" || v == vg

module _ (run : Runner) where
  -- The superblock of one resolved member goes if it is of this array.
  unfoldable pub wipe_named : String → String → Log × String → Log × Option String
  wipe_named pool path (log, name) = elim (name == array_name pool) [
    | true ↦ zero_superblock run path log
    | false ↦ (log, none)
  ]

  unfoldable pub wipe_examined : String → String → Log × Bool → Log × Option String
  wipe_examined pool path (log, false) = (log, none)
  wipe_examined pool path (log, true) = wipe_named pool path (examine_name run path log)

  unfoldable pub wipe_resolved : String → Log × String → Log × Option String
  wipe_resolved pool (log, path) = wipe_examined pool path (is_block_dev run path log)

  -- The loop over the devices of a raid pool.
  unfoldable pub wipe_members : String → List String → Log → Log × Option String
  wipe_members pool [] log = (log, none)
  wipe_members pool (dev ∷ devs) log =
      unless_failed (wipe_resolved pool (resolve_path run dev log)) (wipe_members pool devs)

  unfoldable pub wipe_own : String → String → Log × Option String → Log × Option String
  wipe_own vg dev (log, claimed) = elim (is_own_pv vg claimed) [
    | true ↦ pv_wipe run dev log
    | false ↦ (log, none)
  ]

  unfoldable pub wipe_present : String → String → Log × Bool → Log × Option String
  wipe_present vg dev (log, false) = (log, none)
  wipe_present vg dev (log, true) = wipe_own vg dev (pv_vg run dev log)

  -- The loop over the devices of a linear pool.
  unfoldable pub wipe_pvs : String → List String → Log → Log × Option String
  wipe_pvs vg [] log = (log, none)
  wipe_pvs vg (dev ∷ devs) log =
      unless_failed (wipe_present vg dev (is_block_dev run dev log)) (wipe_pvs vg devs)

  unfoldable pub wipe_raid : StoragePool → Log → Log × Option String
  wipe_raid p log =
      unless_failed (stop run (dev_path p.meta.name) log) (wipe_members p.meta.name p.spec.devices)

  -- `TeardownPool`.
  unfoldable pub teardown_pool : StoragePool → Log → Log × Option String
  teardown_pool p log =
      unless_failed (vg_remove run (vg_name p) log)
        (if is_raid p.spec.raid then wipe_raid p else wipe_pvs (vg_name p) p.spec.devices)

-- What the agent does about a deleting pool.
pub record Reaction : Type 0 where
  pub log : Log
  pub writes : List StoragePool
  pub outcome : Outcome

abbrev pub ignore_not_found : WriteReply → Outcome
ignore_not_found written = done
ignore_not_found write_not_found = done
ignore_not_found conflict = failed (write_error conflict)
ignore_not_found already_exists = failed (write_error already_exists)
ignore_not_found (write_failed e) = failed e

module _ (lib : MetaLib) (run : Runner) where
  open lib use {set_status_condition, is_status_condition_true}

  -- The pool, with the agent's confirmation.
  unfoldable pub confirmed : StoragePool → StoragePool
  confirmed p =
      with_conditions p
        (set_status_condition (condition p torn_down condition_true ready "") p.status.conditions)

  unfoldable pub after_teardown : StoragePool → WriteReply → Log × Option String → Reaction
  after_teardown p reply (log, some e) = record { log = log; writes = []; outcome = failed e }
  after_teardown p reply (log, none) = record {
    log = log;
    writes = confirmed p ∷ [];
    outcome = ignore_not_found reply;
  }

  -- The branch of `PoolReconciler.Reconcile` for a deleting pool of this node.
  unfoldable pub reconcile_deleting : StoragePool → WriteReply → Log → Reaction
  reconcile_deleting p reply log =
      elim (is_status_condition_true torn_down p.status.conditions
        || not (is_status_condition_true deregistered p.status.conditions)) [
          | true ↦ record { log = log; writes = []; outcome = done }
          | false ↦ after_teardown p reply (teardown_pool run p log)
        ]
