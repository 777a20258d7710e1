-- ===== src/PoolAgent/Wipes.antt =====
-- Which commands the teardown of a pool may run.
use stornas.Base.{
  String, ◌≡◌, refl, inl, inr, Bool, true, false, Option, none, some, List, [], ◌∷◌, ◌==◌,
  if◌then◌else◌, Bool-cases, eq_of_test, In, here, there, if-both,
}
use stornas.Host.{unless_failed, Command, Log, Runner}
use stornas.Lvm.{
  vgremove, pvwipe, test_block, readlink, pv_vg_name, vg_of, vg_remove, pv_wipe, pv_vg,
  is_block_dev, resolve_path,
}
use stornas.Mdraid.{
  dev_path, stop_array, zero_of, examine, array_of, stop, zero_superblock, examine_name,
}
use stornas.StoragePool.{StoragePool, vg_name}
use stornas.PoolAgent.{
  array_name, is_own_pv, is_raid, wipe_named, wipe_examined, wipe_resolved, wipe_members, wipe_own,
  wipe_present, wipe_pvs, wipe_raid, teardown_pool,
}

module _ (run : Runner) (p : StoragePool) where
  -- After the commands of a log, the next one is no danger to what is not the pool's: it only looks;
  -- or it removes the pool's VG or stops the pool's array; or it erases a member that the very
  -- command before it saw to name the pool's array; or it erases a PV of the spec that the very
  -- command before it saw to be an orphan or of the pool's VG.
  pub data Allowed : Log → Command → Type 0 where
    looks_block : (log : Log) (dev : String) → Allowed log (test_block dev)
    looks_path : (log : Log) (dev : String) → Allowed log (readlink dev)
    looks_vg : (log : Log) (dev : String) → Allowed log (pv_vg_name dev)
    looks_array : (log : Log) (dev : String) → Allowed log (examine dev)
    removes_vg : (log : Log) → Allowed log (vgremove (vg_name p))
    stops_array : (log : Log) → Allowed log (stop_array (dev_path p.meta.name))
    erases_member :
        (log : Log) (path : String)
        → array_of (run log (examine path)) ≡ array_name p.meta.name
        → Allowed (examine path ∷ log) (zero_of path)
    erases_pv :
        (log : Log) (dev : String)
        → In dev p.spec.devices
        → is_own_pv (vg_name p) (vg_of (run log (pv_vg_name dev))) ≡ true
        → Allowed (pv_vg_name dev ∷ log) (pvwipe dev)

  -- The log grew by allowed commands only.
  pub data Grows (log : Log) : Log → Type 0 where
    same : Grows log log
    more : {l : Log} {c : Command} → Grows log l → Allowed l c → Grows log (c ∷ l)

  pub Grows-trans : (a b c : Log) → Grows a b → Grows b c → Grows a c
  Grows-trans a b c g same = g
  Grows-trans a b (x ∷ l) g (more h i) = more (Grows-trans a b l g h) i

  Grows-unless_failed :
      (log : Log) (r : Log × Option String) (next : Log → Log × Option String)
      → Grows log r.0
      → ((l : Log) → Grows l (next l).0)
      → Grows log (unless_failed r next).0
  unfolding unless_failed
  Grows-unless_failed log (l, some e) next g h = g
  Grows-unless_failed log (l, none) next g h = Grows-trans log l (next l).0 g (h l)

  wipe_named-Grows :
      (log : Log) (path : String)
      → Grows log (examine path ∷ log)
      → Grows log (wipe_named run p.meta.name path (examine_name run path log)).0
  unfolding wipe_named examine_name zero_superblock
  wipe_named-Grows log path g =
      elim (Bool-cases (array_of (run log (examine path)) == array_name p.meta.name)) [
        | inl e ↦ rw (e, wipe_named) (more g (erases_member log path (eq_of_test _ _ e)))
        | inr e ↦ rw (e, wipe_named) g
      ]

  wipe_examined-Grows :
      (log : Log) (path : String) (b : Bool)
      → Grows log (wipe_examined run p.meta.name path (log, b)).0
  unfolding wipe_examined
  wipe_examined-Grows log path false = same
  wipe_examined-Grows log path true = wipe_named-Grows log path (more same (looks_array log path))

  pub wipe_resolved-Grows :
      (log : Log) (path : String) → Grows log (wipe_resolved run p.meta.name (log, path)).0
  unfolding wipe_resolved is_block_dev
  wipe_resolved-Grows log path =
      Grows-trans log (test_block path ∷ log) (wipe_resolved run p.meta.name (log, path)).0
        (more same (looks_block log path)) (wipe_examined-Grows (test_block path ∷ log) path _)

  pub wipe_members-Grows :
      (devs : List String) (log : Log) → Grows log (wipe_members run p.meta.name devs log).0
  unfolding wipe_members resolve_path
  wipe_members-Grows [] log = same
  wipe_members-Grows (dev ∷ devs) log =
      Grows-unless_failed log (wipe_resolved run p.meta.name (resolve_path run dev log))
        (wipe_members run p.meta.name devs)
        (Grows-trans log (readlink dev ∷ log)
          (wipe_resolved run p.meta.name (resolve_path run dev log)).0
          (more same (looks_path log dev)) (wipe_resolved-Grows (readlink dev ∷ log) _))
        (wipe_members-Grows devs)

  wipe_own-Grows :
      (log : Log) (dev : String)
      → In dev p.spec.devices
      → Grows log (wipe_own run (vg_name p) dev (pv_vg run dev log)).0
  unfolding wipe_own pv_vg pv_wipe
  wipe_own-Grows log dev i =
      elim (Bool-cases (is_own_pv (vg_name p) (vg_of (run log (pv_vg_name dev))))) [
        | inl e ↦ rw (e, wipe_own) (more (more same (looks_vg log dev)) (erases_pv log dev i e))
        | inr e ↦ rw (e, wipe_own) (more same (looks_vg log dev))
      ]

  pub wipe_present-Grows :
      (log : Log) (dev : String) (b : Bool)
      → In dev p.spec.devices
      → Grows log (wipe_present run (vg_name p) dev (log, b)).0
  unfolding wipe_present
  wipe_present-Grows log dev false i = same
  wipe_present-Grows log dev true i = wipe_own-Grows log dev i

  pub wipe_pvs-Grows :
      (devs : List String) (log : Log)
      → ((dev : String) → In dev devs → In dev p.spec.devices)
      → Grows log (wipe_pvs run (vg_name p) devs log).0
  unfolding wipe_pvs is_block_dev
  wipe_pvs-Grows [] log s = same
  wipe_pvs-Grows (dev ∷ devs) log s =
      Grows-unless_failed log (wipe_present run (vg_name p) dev (is_block_dev run dev log))
        (wipe_pvs run (vg_name p) devs)
        (Grows-trans log (test_block dev ∷ log)
          (wipe_present run (vg_name p) dev (is_block_dev run dev log)).0
          (more same (looks_block log dev))
          (wipe_present-Grows (test_block dev ∷ log) dev _ (s dev (here refl))))
        (λ l. wipe_pvs-Grows devs l (λ d i. s d (there i)))

  wipe_raid-Grows : (log : Log) → Grows log (wipe_raid run p log).0
  unfolding wipe_raid stop
  wipe_raid-Grows log =
      Grows-unless_failed log (stop run (dev_path p.meta.name) log)
        (wipe_members run p.meta.name p.spec.devices) (more same (stops_array log))
        (wipe_members-Grows p.spec.devices)

  pub wipe_all-Grows :
      (log : Log)
      → Grows log
          ((if is_raid p.spec.raid
              then wipe_raid run p
              else wipe_pvs run (vg_name p) p.spec.devices)
            log).0
  wipe_all-Grows =
      if-both (λ (next : Log → Log × Option String). (l : Log) → Grows l (next l).0)
        (is_raid p.spec.raid) (wipe_raid run p) (wipe_pvs run (vg_name p) p.spec.devices)
        wipe_raid-Grows (λ l. wipe_pvs-Grows p.spec.devices l (λ d i. i))

  -- `TeardownPool`, whatever the host answers and wherever it stops, runs only commands that are
  -- allowed: besides looking, it removes the pool's VG and stops the pool's array, and it erases
  -- a device only right after the host reported that it carries the pool's array name, or that
  -- it is a PV of no VG or of the pool's VG and the spec lists it.
  pub teardown_pool-Grows : (log : Log) → Grows log (teardown_pool run p log).0
  unfolding teardown_pool vg_remove
  teardown_pool-Grows log =
      Grows-unless_failed log (vg_remove run (vg_name p) log)
        (if is_raid p.spec.raid then wipe_raid run p else wipe_pvs run (vg_name p) p.spec.devices)
        (more same (removes_vg log)) wipe_all-Grows
