-- ===== src/Handshake/Examples.antt =====
-- r-drbd has released `tank`; the operator clears it, and the agent wipes it.
use stornas.Base.{◌≡◌, refl, ◌≢◌, inl, true, false, [], ◌∷◌, ◌==◌, if◌then◌else◌, In, here}
use stornas.Kube.{
  condition_true, deregistered, ready, found, get_not_found, written, pool_finalizer,
}
use stornas.Kube.Concrete.{concrete}
use stornas.Host.{unless_failed, Runner, ran}
use stornas.Strings.{trim_space}
use stornas.Lvm.{vg_remove, pv_wipe, pv_vg, vg_of, is_block_dev}
use stornas.StoragePool.{StoragePool, vg_name, with_conditions}
use stornas.Registrar.{delete_pool}
use stornas.PoolController.{
  Replies, update_pool, update_pool_status, reconcile_delete, condition, set_condition, before,
  after_delete, clear,
}
use stornas.PoolAgent.{
  wipe_pvs, wipe_present, wipe_own, teardown_pool, after_teardown, reconcile_deleting,
}
use stornas.Handshake.{
  State, Gone, operator, agent_runs, Reachable, start, next, acts_after_release,
}
use stornas.Handshake.Progress
use stornas.PoolController.Deletion.{without_finalizer}
use stornas.PoolAgent.{confirmed}
use stornas.Samples.{tank, meta_of}

handshake_runs : Unit {0}
unfolding teardown_pool unless_failed wipe_pvs wipe_present wipe_own vg_remove pv_wipe pv_vg vg_of
    is_block_dev vg_name trim_space after_teardown reconcile_deleting delete_pool reconcile_delete
    before after_delete clear set_condition with_conditions condition
handshake_runs = tt

abbrev tank_host : Runner
tank_host log c = if c.name == "pvs" then ran "stornas-tank" else ran ""

abbrev deleting : StoragePool
deleting = record tank {
  meta = meta_of "tank" true (pool_finalizer ∷ []);
  spec = record tank.spec { raid = "none" };
  status = record tank.status { conditions = [] };
}

abbrev replies : Replies
replies = record {
  get_pool = found deleting;
  get_rdrbd = get_not_found;
  create_rdrbd = written;
  delete_rdrbd = written;
  get_node = λ n. get_not_found;
  update = written;
  update_status = written;
  recorder = false;
}

abbrev first : State
first = record { pool = deleting; rdrbd = get_not_found; log = [] }

abbrev cleared : StoragePool
cleared = set_condition concrete deleting (condition deleting deregistered condition_true ready "")

clears : In (update_pool_status cleared) (reconcile_delete concrete deleting replies).0
unfolding handshake_runs
clears = here refl

abbrev second : State
second = record first { pool = cleared }

abbrev third : State
third = record second { log = (reconcile_deleting concrete tank_host cleared written []).log }

reached : Reachable concrete tank_host third
reached =
    next second third
      (next first second (start first (record { no_clearance = refl; idle = refl }))
        (operator first replies cleared refl clears))
      (agent_runs second written)

acts : third.log ≢ []
unfolding handshake_runs
acts e = cc

acts_after_release_example : Gone cleared get_not_found
acts_after_release_example = acts_after_release concrete tank_host third reached acts

deletion_ends_example :
    let w = Progress.cleared concrete tank_host deleting in
    let w' = confirmed concrete tank_host w in
    ((reconcile_delete concrete deleting replies).0 ≡ update_pool_status w ∷ [])
    × ((reconcile_deleting concrete tank_host w written []).writes ≡ w' ∷ [])
    × ((reconcile_delete concrete w' replies).0 ≡ update_pool (without_finalizer concrete w') ∷ [])
unfolding handshake_runs
deletion_ends_example =
    Progress.deletion_ends concrete tank_host deleting replies replies written [] refl (inl refl)
      (inl refl) refl refl refl
