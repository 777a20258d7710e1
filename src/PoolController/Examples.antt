-- ===== src/PoolController/Examples.antt =====
-- The pool `tank`: live and available, then deleted.
use stornas.Base.{◌≡◌, refl, ◌↔◌, true, false, List, [], ◌∷◌, In, here}
use stornas.Kube.{
  available, deregistered, found, get_not_found, GetReply, written, pool_finalizer, is_true,
}
use stornas.Kube.Concrete.{concrete}
use stornas.StoragePool.{StoragePool, vg_name, min_devices, with_conditions}
use stornas.Registrar.{
  RdrbdPool, ensure_pool, ensure_found, same_location, pool_spec, readiness, delete_pool,
}
use stornas.PoolController.{
  Replies, Write, request, update_pool, update_pool_status, warn, reconcile_live, reconcile_delete,
  reconcile_status, before, warnings, finish, assess, registration, set_condition, condition,
  after_delete, clear,
}
use stornas.PoolController.Deletion.{Releases, reconcile_delete-Releases_iff, without_finalizer}
use stornas.PoolController.Available.{IsSound, available-IsSound}
use stornas.Samples.{tank, tank_pool, meta_of}

live_runs : Unit {0}
unfolding reconcile_live reconcile_status before warnings finish assess registration set_condition
    condition with_conditions min_devices ensure_pool ensure_found same_location pool_spec vg_name
    readiness
live_runs = tt

abbrev live_tank : StoragePool
live_tank = record tank { meta = meta_of "tank" false (pool_finalizer ∷ []) }

abbrev deleting_tank : StoragePool
deleting_tank = record tank { meta = meta_of "tank" true (pool_finalizer ∷ []) }

abbrev world : StoragePool → GetReply RdrbdPool → Replies
world p rdrbd = record {
  get_pool = found p;
  get_rdrbd = rdrbd;
  create_rdrbd = written;
  delete_rdrbd = written;
  get_node = λ n. get_not_found;
  update = written;
  update_status = written;
  recorder = true;
}

-- The status that a pass writes.
abbrev status_in : List Write → StoragePool → StoragePool
status_in [] p = p
status_in (request r ∷ ws) p = status_in ws p
status_in (update_pool w ∷ ws) p = status_in ws p
status_in (update_pool_status w ∷ ws) p = w
status_in (warn m ∷ ws) p = status_in ws p

abbrev reported : StoragePool
reported =
    status_in (reconcile_live concrete live_tank (world live_tank (found tank_pool))).0 live_tank

reports :
    In
      (update_pool_status reported)
      (reconcile_live concrete live_tank (world live_tank (found tank_pool))).0
unfolding live_runs
reports = here refl

reported_available :
    is_true (concrete.find_status_condition available reported.status.conditions) ≡ true
unfolding live_runs
reported_available = refl

available-IsSound_example : IsSound concrete (world live_tank (found tank_pool)) live_tank
available-IsSound_example =
    available-IsSound concrete (world live_tank (found tank_pool)) live_tank reported reports
      reported_available

reconcile_delete-Releases_iff_example :
    In
      (update_pool (without_finalizer concrete deleting_tank))
      (reconcile_delete concrete deleting_tank (world deleting_tank get_not_found)).0
    ↔ Releases concrete
        (world deleting_tank get_not_found)
        deleting_tank
        (without_finalizer concrete deleting_tank)
reconcile_delete-Releases_iff_example =
    reconcile_delete-Releases_iff concrete (world deleting_tank get_not_found) deleting_tank
      (without_finalizer concrete deleting_tank)

-- Without an r-drbd Pool the clearance is written.
abbrev cleared : StoragePool
cleared =
    status_in (reconcile_delete concrete deleting_tank (world deleting_tank get_not_found)).0
      deleting_tank

clears :
    In
      (update_pool_status cleared)
      (reconcile_delete concrete deleting_tank (world deleting_tank get_not_found)).0
unfolding reconcile_delete before delete_pool after_delete clear
clears = here refl

cleared_deregistered :
    is_true (concrete.find_status_condition deregistered cleared.status.conditions) ≡ true
unfolding reconcile_delete before delete_pool after_delete clear set_condition condition
    with_conditions
cleared_deregistered = refl
