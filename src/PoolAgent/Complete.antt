-- ===== src/PoolAgent/Complete.antt =====
-- What a teardown that reports no error has erased.
use stornas.Base.{
  String, ◌≡◌, refl, ◌≢◌, inl, inr, Bool, true, false, Option, none, some, List, [], ◌∷◌, ◌==◌,
  if◌then◌else◌, Bool-cases, ne_of_test, All, In, there, subst,
}
use stornas.Host.{unless_failed, Command, Log, Runner, succeeds}
use stornas.Lvm.{
  pvwipe, test_block, readlink, resolved, pv_vg_name, vg_of, vg_remove, vgremove, pv_wipe, pv_vg,
  is_block_dev, resolve_path,
}
use stornas.Mdraid.{
  dev_path, stop_array, zero_of, examine, array_of, stop, zero_superblock, examine_name,
}
use stornas.StoragePool.{StoragePool, vg_name}
use stornas.PoolAgent.{
  array_name, is_own_pv, is_raid, wipe_named, wipe_examined, wipe_resolved, wipe_members, wipe_own,
  wipe_present, wipe_pvs, wipe_raid, teardown_pool,
}
use stornas.PoolAgent.Wipes.{
  Grows, same, more, wipe_members-Grows, wipe_pvs-Grows, wipe_resolved-Grows, wipe_all-Grows,
}

-- A log as it was when the commands that followed had not run.
pub data Before (l : Log) : Log → Type 0 where
  now : Before l l
  later : {m : Log} {c : Command} → Before l m → Before l (c ∷ m)

Before-trans : (a b c : Log) → Before a b → Before b c → Before a c
Before-trans a b c h now = h
Before-trans a b (x ∷ m) h (later i) = later (Before-trans a b m h i)

module _ (run : Runner) (p : StoragePool) where
  Grows-Before : (a b : Log) → Grows run p a b → Before a b
  Grows-Before a b same = now
  Grows-Before a (c ∷ l) (more g x) = later (Grows-Before a l g)

  Grows-Before_trans : (a b c : Log) → Grows run p a b → Before b c → Before a c
  Grows-Before_trans a b c g h = Before-trans a b c (Grows-Before a b g) h

  -- What became of a device of a linear pool in a run that ended with a log: it was not there, it
  -- was not the pool's, or it was erased, or had nothing to erase.
  pub data PvSettled (final : Log) (dev : String) : Type 0 where
    pv_absent :
        (l : Log)
        → Before (test_block dev ∷ l) final
        → succeeds (run l (test_block dev)) ≡ false
        → PvSettled final dev
    pv_foreign :
        (l : Log)
        → Before (pv_vg_name dev ∷ l) final
        → is_own_pv (vg_name p) (vg_of (run l (pv_vg_name dev))) ≡ false
        → PvSettled final dev
    pv_erased :
        (l : Log)
        → Before (pvwipe dev ∷ l) final
        → (pv_wipe run dev l).1 ≡ none
        → PvSettled final dev

  -- ... and of a raid pool, at the path that the host resolved it to.
  pub data PathSettled (final : Log) (path : String) : Type 0 where
    path_absent :
        (l : Log)
        → Before (test_block path ∷ l) final
        → succeeds (run l (test_block path)) ≡ false
        → PathSettled final path
    path_foreign :
        (l : Log)
        → Before (examine path ∷ l) final
        → array_of (run l (examine path)) ≢ array_name p.meta.name
        → PathSettled final path
    path_erased :
        (l : Log)
        → Before (zero_of path ∷ l) final
        → (zero_superblock run path l).1 ≡ none
        → PathSettled final path

  pub data MemberSettled (final : Log) (dev : String) : Type 0 where
    member_settled :
        (l : Log)
        → Before (readlink dev ∷ l) final
        → PathSettled final (resolved dev (run l (readlink dev)))
        → MemberSettled final dev

  -- Nothing failed: both steps ran to their end.
  split_none :
      (r : Log × Option String) (next : Log → Log × Option String)
      → (unless_failed r next).1 ≡ none
      → (r.1 ≡ none) × (unless_failed r next ≡ next r.0)
  unfolding unless_failed
  split_none (l, some e) next h = absurd (cc)
  split_none (l, none) next h = (refl, refl)

  abbrev Ends : Log → Log × Option String → Type 0
  Ends final r = Before r.0 final × (r.1 ≡ none)

  wipe_own-Settled :
      (final log : Log) (dev : String)
      → Ends final (wipe_own run (vg_name p) dev (pv_vg run dev log))
      → PvSettled final dev
  unfolding wipe_own pv_vg pv_wipe
  wipe_own-Settled final log dev h =
      elim (Bool-cases (is_own_pv (vg_name p) (vg_of (run log (pv_vg_name dev))))) [
        | inl e ↦ let (b, n) = rw (e, wipe_own) at h in pv_erased (pv_vg_name dev ∷ log) b n
        | inr e ↦ let (b, n) = rw (e, wipe_own) at h in pv_foreign log b e
      ]

  wipe_present-Settled :
      (final log : Log) (dev : String) (b : Bool)
      → succeeds (run log (test_block dev)) ≡ b
      → Ends final (wipe_present run (vg_name p) dev (test_block dev ∷ log, b))
      → PvSettled final dev
  unfolding wipe_present
  wipe_present-Settled final log dev false e h = pv_absent log h.0 e
  wipe_present-Settled final log dev true e h = wipe_own-Settled final (test_block dev ∷ log) dev h

  wipe_pvs-Settled :
      (final : Log) (devs : List String) (log : Log)
      → ((dev : String) → In dev devs → In dev p.spec.devices)
      → Ends final (wipe_pvs run (vg_name p) devs log)
      → All (λ dev. PvSettled final dev) devs
  unfolding wipe_pvs is_block_dev
  wipe_pvs-Settled final [] log s h = tt
  wipe_pvs-Settled final (dev ∷ devs) log s h =
      let r = wipe_present run (vg_name p) dev (is_block_dev run dev log) in
      let (e, f) = split_none r (wipe_pvs run (vg_name p) devs) h.1 in
      let rest : Ends final (wipe_pvs run (vg_name p) devs r.0) = subst (Ends final) f h in
      (
        wipe_present-Settled final log dev _ refl (
          Grows-Before_trans r.0 (wipe_pvs run (vg_name p) devs r.0).0 final
              (wipe_pvs-Grows run p devs r.0 (λ d i. s d (there i))) rest.0,
          e,
        ),
        wipe_pvs-Settled final devs r.0 (λ d i. s d (there i)) rest,
      )

  wipe_named-Settled :
      (final log : Log) (path : String)
      → Ends final (wipe_named run p.meta.name path (examine_name run path log))
      → PathSettled final path
  unfolding wipe_named examine_name zero_superblock
  wipe_named-Settled final log path h =
      elim (Bool-cases (array_of (run log (examine path)) == array_name p.meta.name)) [
        | inl e ↦ let (b, n) = rw (e, wipe_named) at h in path_erased (examine path ∷ log) b n
        | inr e ↦ let (b, n) = rw (e, wipe_named) at h in path_foreign log b (ne_of_test _ _ e)
      ]

  wipe_examined-Settled :
      (final log : Log) (path : String) (b : Bool)
      → succeeds (run log (test_block path)) ≡ b
      → Ends final (wipe_examined run p.meta.name path (test_block path ∷ log, b))
      → PathSettled final path
  unfolding wipe_examined
  wipe_examined-Settled final log path false e h = path_absent log h.0 e
  wipe_examined-Settled final log path true e h =
      wipe_named-Settled final (test_block path ∷ log) path h

  wipe_resolved-Settled :
      (final log : Log) (dev : String)
      → Ends final (wipe_resolved run p.meta.name (resolve_path run dev log))
      → PathSettled final (resolved dev (run log (readlink dev)))
  unfolding wipe_resolved resolve_path is_block_dev
  wipe_resolved-Settled final log dev h =
      wipe_examined-Settled final (readlink dev ∷ log) (resolved dev (run log (readlink dev))) _
        refl h

  resolved-Grows :
      (log : Log) (dev : String)
      → Grows run p
          (readlink dev ∷ log)
          (wipe_resolved run p.meta.name (resolve_path run dev log)).0
  unfolding resolve_path
  resolved-Grows log dev = wipe_resolved-Grows run p (readlink dev ∷ log) _

  wipe_members-Settled :
      (final : Log) (devs : List String) (log : Log)
      → Ends final (wipe_members run p.meta.name devs log)
      → All (λ dev. MemberSettled final dev) devs
  unfolding wipe_members
  wipe_members-Settled final [] log h = tt
  wipe_members-Settled final (dev ∷ devs) log h =
      let r = wipe_resolved run p.meta.name (resolve_path run dev log) in
      let (e, f) = split_none r (wipe_members run p.meta.name devs) h.1 in
      let rest : Ends final (wipe_members run p.meta.name devs r.0) = subst (Ends final) f h in
      let b =
        Grows-Before_trans r.0 (wipe_members run p.meta.name devs r.0).0 final
          (wipe_members-Grows run p devs r.0) rest.0 in
      (
        member_settled log
            (Grows-Before_trans (readlink dev ∷ log) r.0 final (resolved-Grows log dev) b)
            (wipe_resolved-Settled final log dev (b, e)),
        wipe_members-Settled final devs r.0 rest,
      )

  -- ... of a raid pool (`true`), and of a linear pool.
  abbrev pub Settled : Log → Bool → Type 0
  Settled final false = All (λ dev. PvSettled final dev) p.spec.devices
  Settled final true =
      ((l : Log) × Before (stop_array (dev_path p.meta.name) ∷ l) final
        × ((stop run (dev_path p.meta.name) l).1 ≡ none))
      × All (λ dev. MemberSettled final dev) p.spec.devices

  -- What a teardown that ended with a log has done: the pool's VG was removed or was absent, and
  -- every device of the spec is settled; the array of a raid pool was stopped or was absent.
  pub record IsTornDown (final : Log) : Type 0 where
    pub vg_gone :
        (l : Log) × Before (vgremove (vg_name p) ∷ l) final
        × ((vg_remove run (vg_name p) l).1 ≡ none)
    pub devices_settled : Settled final (is_raid p.spec.raid)

  wipe_raid-Settled : (final log : Log) → Ends final (wipe_raid run p log) → Settled final true
  unfolding wipe_raid stop
  wipe_raid-Settled final log h =
      let r = stop run (dev_path p.meta.name) log in
      let (s, f) = split_none r (wipe_members run p.meta.name p.spec.devices) h.1 in
      let rest : Ends final (wipe_members run p.meta.name p.spec.devices r.0) =
        subst (Ends final) f h in
      (
        (
          log,
          Grows-Before_trans r.0 (wipe_members run p.meta.name p.spec.devices r.0).0 final
              (wipe_members-Grows run p p.spec.devices r.0) rest.0,
          s,
        ),
        wipe_members-Settled final p.spec.devices r.0 rest,
      )

  settle :
      (final log : Log) (b : Bool)
      → Ends final ((if b then wipe_raid run p else wipe_pvs run (vg_name p) p.spec.devices) log)
      → Settled final b
  settle final log false h = wipe_pvs-Settled final p.spec.devices log (λ d i. i) h
  settle final log true h = wipe_raid-Settled final log h

  pub teardown_pool-IsTornDown :
      (log : Log) → (teardown_pool run p log).1 ≡ none → IsTornDown (teardown_pool run p log).0
  unfolding teardown_pool vg_remove
  teardown_pool-IsTornDown log h =
      let next =
        if is_raid p.spec.raid then wipe_raid run p else wipe_pvs run (vg_name p) p.spec.devices in
      let r = vg_remove run (vg_name p) log in
      let (v, f) = split_none r next h in
      let rest : Ends (teardown_pool run p log).0 (next r.0) =
        subst (Ends (teardown_pool run p log).0) f (now, h) in
      record {
        vg_gone = (
          log,
          Grows-Before_trans r.0 (next r.0).0 (teardown_pool run p log).0 (wipe_all-Grows run p r.0)
              rest.0,
          v,
        );
        devices_settled = settle (teardown_pool run p log).0 r.0 (is_raid p.spec.raid) rest;
      }
