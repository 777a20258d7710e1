-- ===== src/PoolController.antt =====
-- operator/internal/controller/storagepool_controller.go: the conditions of a StoragePool and the
-- release of its finalizer.
pub mod Deletion
pub mod Available
mod Examples
use stornas.Base.{
  String, Bool, true, false, not, ◌&&◌, ◌||◌, Option, none, some, List, [], ◌∷◌, ◌++◌, ◌==◌, ltb,
  if◌then◌else◌, ◌<>◌, length, decimal,
}
use stornas.Kube.{
  Condition, ConditionType, ConditionStatus, condition_true, condition_false, condition_unknown,
  Reason, ready, invalid_spec, waiting_for_agent, waiting_for_pool, backend_error, unsupported,
  host_not_ready, available, host_ready, registered, torn_down, deregistered, GetReply, found,
  get_not_found, get_failed, WriteReply, written, conflict, already_exists, write_not_found,
  write_failed, write_error, Outcome, done, requeue_after, failed, MetaLib, volume_settle_interval,
  pool_finalizer,
}
use stornas.Nodes.{Node, gone, gone_failed, node_gone_or_unready}
use stornas.StoragePool.{StoragePool, DeviceStatus, min_devices, with_conditions, with_finalizers}
use stornas.Registrar.{
  RdrbdPool, Request, Ensured, pool_ready, not_ready, ensure_failed, ensure_pool, Released,
  pool_gone, not_gone, delete_failed, delete_pool,
}

-- What one pass reads, and how the API server answers its writes. `recorder` says that there is
-- an event recorder.
pub record Replies : Type 0 where
  pub get_pool : GetReply StoragePool
  pub get_rdrbd : GetReply RdrbdPool
  pub create_rdrbd : WriteReply
  pub delete_rdrbd : WriteReply
  pub get_node : String → GetReply Node
  pub update : WriteReply
  pub update_status : WriteReply
  pub recorder : Bool

pub data Write : Type 0 where
  request : Request → Write
  update_pool : StoragePool → Write
  update_pool_status : StoragePool → Write
  warn : String → Write

unfoldable pub condition :
    StoragePool → ConditionType → ConditionStatus → Reason → String → Condition
condition p t s r msg = record {
  kind = t;
  status = s;
  reason = r;
  message = msg;
  observed_generation = p.meta.generation;
}

-- The members that the warning names.
unfoldable pub bad_members : List DeviceStatus → String
bad_members [] = ""
bad_members (d ∷ ds) =
    if d.state == "Missing" || d.state == "Failed"
    then "; " <> d.path <> " " <> d.state <> bad_members ds
    else bad_members ds

-- The event of an unhealthy pool.
unfoldable pub warnings : StoragePool → Bool → List Write
warnings p recorder =
    if recorder && (p.status.health == "Degraded" || p.status.health == "Failed")
    then warn ("pool " <> p.meta.name <> " is " <> p.status.health <> bad_members p.status.devices)
      ∷ []
    else []

-- Errors that `IgnoreNotFound` lets through.
abbrev pub ignore_not_found : WriteReply → Outcome
ignore_not_found written = done
ignore_not_found write_not_found = done
ignore_not_found conflict = failed (write_error conflict)
ignore_not_found already_exists = failed (write_error already_exists)
ignore_not_found (write_failed e) = failed e

-- ... after a conflict has been let pass.
abbrev pub ignore_conflict : Outcome → WriteReply → Outcome
ignore_conflict o written = o
ignore_conflict o conflict = done
ignore_conflict o write_not_found = done
ignore_conflict o already_exists = failed (write_error already_exists)
ignore_conflict o (write_failed e) = failed e

-- What a pass over a live pool writes into the status: the pool and the Available condition, and
-- the error of the registration.
pub record Report : Type 0 where
  pub requests : List Write
  pub pool : StoragePool
  pub condition : Condition
  pub backend_error : Option String

abbrev pub requests_of : List Request → List Write
requests_of [] = []
requests_of (r ∷ rs) = request r ∷ requests_of rs

abbrev pub is_thick : Option Bool → Bool
is_thick none = false
is_thick (some thin) = not thin

module _ (lib : MetaLib) where
  open lib use {
    set_status_condition, is_status_condition_true, contains_finalizer, add_finalizer,
    remove_finalizer,
  }

  unfoldable pub set_condition : StoragePool → Condition → StoragePool
  set_condition p c = with_conditions p (set_status_condition c p.status.conditions)

  unfoldable pub release : StoragePool → Replies → List Write × Outcome
  release p io = (
    update_pool (with_finalizers p (remove_finalizer pool_finalizer p.meta.finalizers)) ∷ [],
    ignore_not_found io.update,
  )

  -- The last steps of a deletion: the clearance to wipe, then the agent's confirmation.
  unfoldable pub confirm : StoragePool → Replies → List Write × Outcome
  confirm p io =
      if is_status_condition_true torn_down p.status.conditions
      then release p io
      else elim (node_gone_or_unready (io.get_node p.spec.node)) [
        | gone_failed e ↦ ([], failed e)
        | gone true ↦ release p io
        | gone false ↦ ([], requeue_after volume_settle_interval)
      ]

  unfoldable pub clear : StoragePool → Replies → List Write × Outcome
  clear p io = if is_status_condition_true deregistered p.status.conditions then confirm p io else (
    update_pool_status (set_condition p (condition p deregistered condition_true ready "")) ∷ [],
    ignore_conflict (requeue_after volume_settle_interval) io.update_status,
  )

  unfoldable pub after_delete : StoragePool → Replies → Released → List Write × Outcome
  after_delete p io (delete_failed e) = ([], failed e)
  after_delete p io (not_gone msg) = (
    update_pool_status
          (set_condition p (condition p deregistered condition_false waiting_for_pool msg))
        ∷ [],
    ignore_conflict done io.update_status,
  )
  after_delete p io pool_gone = clear p io

  unfoldable pub before : List Write → List Write × Outcome → List Write × Outcome
  before ws (vs, o) = (ws ++ vs, o)

  -- The pass over a deleting pool.
  unfoldable pub reconcile_delete : StoragePool → Replies → List Write × Outcome
  reconcile_delete p io =
      if not (contains_finalizer pool_finalizer p.meta.finalizers)
      then ([], done)
      else let (reqs, released) = delete_pool p io.get_rdrbd io.delete_rdrbd in
        before (requests_of reqs) (after_delete p io released)

  -- Registered and Available by what `EnsurePool` says.
  unfoldable pub registration : StoragePool → List Write → Ensured → Report
  registration p ws pool_ready = record {
    requests = ws;
    pool = set_condition p (condition p registered condition_true ready "");
    condition = condition p available condition_true ready "";
    backend_error = none;
  }
  registration p ws (not_ready msg) = record {
    requests = ws;
    pool = set_condition p (condition p registered condition_false waiting_for_pool msg);
    condition = condition p available condition_false waiting_for_pool msg;
    backend_error = none;
  }
  registration p ws (ensure_failed e) = record {
    requests = ws;
    pool = set_condition p (condition p registered condition_false backend_error e);
    condition = condition p available condition_false backend_error e;
    backend_error = some e;
  }

  too_few : StoragePool → Report
  too_few p = record {
    requests = [];
    pool = p;
    condition = condition p available condition_false invalid_spec (
        p.spec.raid
        <> " needs at least "
        <> decimal (min_devices p.spec.raid)
        <> " devices, got "
        <> decimal (length p.spec.devices));
    backend_error = none;
  }

  thick : StoragePool → Report
  thick p = record {
    requests = [];
    pool =
        set_condition p
          (condition p registered condition_false unsupported "r-drbd pools are thin only");
    condition = condition p available condition_false unsupported "r-drbd pools are thin only";
    backend_error = none;
  }

  waiting : StoragePool → Report
  waiting p = record {
    requests = [];
    pool = set_condition p (
        condition p registered condition_unknown host_not_ready
          "waiting for the node agent to converge host state");
    condition =
        condition p available condition_false waiting_for_agent
          "waiting for the node agent to converge host state";
    backend_error = none;
  }

  -- The `switch` over a live pool.
  unfoldable pub assess : StoragePool → Replies → Report
  unfolding too_few thick waiting
  assess p io =
      if ltb (length p.spec.devices) (min_devices p.spec.raid)
      then too_few p
      else if is_thick p.spec.thin
      then thick p
      else if not (is_status_condition_true host_ready p.status.conditions)
      then waiting p
      else let (reqs, ensured) = ensure_pool lib p io.get_rdrbd io.create_rdrbd in
        registration p (requests_of reqs) ensured

  -- The status write at the end, and what its reply means.
  unfoldable pub finish : Replies → Report → List Write × Outcome
  finish io r = (
    r.requests ++ update_pool_status (set_condition r.pool r.condition) ∷ [],
    elim io.update_status [
      | written ↦ elim r.backend_error [ none ↦ done | some e ↦ failed e ]
      | conflict ↦ done
      | already_exists ↦ failed (write_error already_exists)
      | write_not_found ↦ failed (write_error write_not_found)
      | write_failed e ↦ failed e
    ],
  )

  unfoldable pub reconcile_status : StoragePool → Replies → List Write × Outcome
  reconcile_status p io = before (warnings p io.recorder) (finish io (assess p io))

  unfoldable pub finalized : StoragePool → StoragePool
  finalized p = with_finalizers p (add_finalizer pool_finalizer p.meta.finalizers)

  -- The write of the finalizer, by its reply.
  unfoldable pub reconcile_new : StoragePool → Replies → WriteReply → List Write × Outcome
  reconcile_new p io written = before (update_pool p ∷ []) (reconcile_status p io)
  reconcile_new p io conflict = (update_pool p ∷ [], failed (write_error conflict))
  reconcile_new p io already_exists = (update_pool p ∷ [], failed (write_error already_exists))
  reconcile_new p io write_not_found = (update_pool p ∷ [], failed (write_error write_not_found))
  reconcile_new p io (write_failed e) = (update_pool p ∷ [], failed e)

  unfoldable pub reconcile_live : StoragePool → Replies → List Write × Outcome
  reconcile_live p io =
      if contains_finalizer pool_finalizer p.meta.finalizers
      then reconcile_status p io
      else reconcile_new (finalized p) io io.update

  unfoldable pub reconcile_found : StoragePool → Replies → List Write × Outcome
  reconcile_found p io = if p.meta.deleting then reconcile_delete p io else reconcile_live p io

  -- `StoragePoolReconciler.Reconcile`.
  unfoldable pub reconcile : Replies → List Write × Outcome
  reconcile io = elim io.get_pool [
    | get_not_found ↦ ([], done)
    | get_failed e ↦ ([], failed e)
    | found p ↦ reconcile_found p io
  ]
