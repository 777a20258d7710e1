-- ===== src/PoolAgent/Examples.antt =====
-- The teardown of the pool `tank` on a host whose disks carry its labels.
use stornas.Base.{
  String, ◌≡◌, refl, ◌≢◌, true, Option, some, [], ◌∷◌, ◌==◌, if◌then◌else◌, length, In, here,
}
use stornas.Kube.{condition_true, deregistered, written, pool_finalizer}
use stornas.Kube.Concrete.{concrete}
use stornas.Host.{unless_failed, ran, Log, Runner}
use stornas.Strings.{trim_space}
use stornas.Lvm.{vg_remove, pv_wipe, pv_vg, vg_of, is_block_dev, pvwipe}
use stornas.StoragePool.{StoragePool, vg_name}
use stornas.PoolAgent.{
  wipe_pvs, wipe_present, wipe_own, teardown_pool, after_teardown, reconcile_deleting,
}
use stornas.PoolAgent.Wipes.{Grows, teardown_pool-Grows}
use stornas.Samples.{tank, meta_of, condition_of}

teardown_runs : Unit {0}
unfolding teardown_pool unless_failed wipe_pvs wipe_present wipe_own vg_remove pv_wipe pv_vg vg_of
    is_block_dev vg_name trim_space after_teardown reconcile_deleting
teardown_runs = tt

-- Every command works, and `pvs` names the VG of the pool.
abbrev tank_host : Runner
tank_host log c = if c.name == "pvs" then ran "  stornas-tank\n" else ran ""

abbrev cleared_tank : StoragePool
cleared_tank = record tank {
  meta = meta_of "tank" true (pool_finalizer ∷ []);
  spec = record {
    node = "a";
    devices = "/dev/sda" ∷ "/dev/sdb" ∷ [];
    tier = "default";
    raid = "none";
    thin = some true;
  };
  status = record tank.status { conditions = condition_of deregistered condition_true ∷ [] };
}

abbrev torn : Log × Option String
torn = teardown_pool tank_host cleared_tank []

-- Both disks are erased, and five commands look or remove the VG.
erases : (length torn.0 ≡ 7) × In (pvwipe "/dev/sdb") torn.0
unfolding teardown_runs
erases = (refl, here refl)

teardown_pool-Grows_example : Grows tank_host cleared_tank [] torn.0
teardown_pool-Grows_example = teardown_pool-Grows tank_host cleared_tank []

acts : (reconcile_deleting concrete tank_host cleared_tank written []).log ≢ []
unfolding teardown_runs
acts e = cc
