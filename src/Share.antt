-- ===== src/Share.antt =====
-- operator/internal/controller/share_controller.go: placement and the Available condition of an
-- NFS or SMB share, and the release of its finalizer.
pub mod Writes
pub mod Honest
pub mod Moves
pub mod Teardown
mod Examples
use stornas.Base.{
  String, Bool, true, false, not, ◌&&◌, ◌||◌, Option, List, [], ◌∷◌, ◌==◌, if◌then◌else◌, ◌<>◌,
}
use stornas.Kube.{
  ObjectMeta, Condition, condition_true, condition_false, Reason, ready, waiting_for_volume,
  waiting_for_agent, available, host_ready, GetReply, found, get_not_found, get_failed, ListReply,
  WriteReply, written, conflict, already_exists, write_not_found, write_failed, write_error,
  Outcome, done, requeue_after, failed, MetaLib, volume_settle_interval, teardown_finalizer,
}
use stornas.Nodes.{
  Node, down, unready_failed, unready_nodes, gone, gone_failed, node_gone_or_unready,
}
use stornas.Claim.{Reader, ClaimVolume, usable, unusable, claim_volume}
use stornas.Placement.{Resolved, placed, no_replica, resolve_placement}

-- `status.state`; `unset` is the empty string.
pub data ExportState : Type 0 where
  unset pending exported export_failed removed : ExportState

abbrev pub is_removed : ExportState → Bool
is_removed removed = true
is_removed _ = false

pub record NfsExport : Type 0 where
  pub clients : List String

pub record SmbExport : Type 0 where
  pub name : String
  pub valid_users : List String

pub record ShareSpec : Type 0 where
  pub claim_name : String
  pub nfs : Option NfsExport
  pub smb : Option SmbExport

pub record ShareStatus : Type 0 where
  pub conditions : List Condition
  pub node : String
  pub device : String
  pub state : ExportState

pub record Share : Type 0 where
  pub meta : ObjectMeta
  pub spec : ShareSpec
  pub status : ShareStatus

-- What one pass reads, and how the API server answers its writes.
pub record Replies : Type 0 where
  pub get_share : GetReply Share
  pub reader : Reader
  pub list_nodes : ListReply Node
  pub get_node : String → GetReply Node
  pub update : WriteReply
  pub update_status : WriteReply

pub data Write : Type 0 where
  update_share : Share → Write
  update_share_status : Share → Write

-- What the middle of `Reconcile` hands to its end: the share, the Available condition and the
-- result, or an error that ends the pass.
pub data Pass : Type 0 where
  report : Share → Condition → Outcome → Pass
  stop : String → Pass

-- The condition as `Reconcile` starts it, with the reason and message of a branch.
unfoldable pub not_available : Share → Reason → String → Condition
not_available s r m = record {
  kind = available;
  status = condition_false;
  reason = r;
  message = m;
  observed_generation = s.meta.generation;
}

abbrev pub waits : Reason → Bool
waits waiting_for_volume = true
waits _ = false

-- `moved`: the share was placed, and at another node.
unfoldable pub has_moved : String → String → Bool
has_moved old node = not (old == "") && not (old == node)

-- HostReady as the operator resets it on a move.
unfoldable pub moved_to : Share → String → Condition
moved_to s node = record {
  kind = host_ready;
  status = condition_false;
  reason = waiting_for_agent;
  message = "moved to " <> node;
  observed_generation = s.meta.generation;
}

module _ (lib : MetaLib) where
  open lib use {
    set_status_condition, is_status_condition_true, contains_finalizer, add_finalizer,
    remove_finalizer,
  }

  unfoldable pub reset_host_ready : Share → String → List Condition
  reset_host_ready s node = set_status_condition (moved_to s node) s.status.conditions

  -- The status after a placement.
  unfoldable pub with_placement : Share → String → String → Share
  with_placement s node device = record s {
    status = record {
      conditions =
          if has_moved s.status.node node then reset_host_ready s node else s.status.conditions;
      node = node;
      device = device;
      state = s.status.state;
    };
  }

  -- Available of a placed share follows HostReady.
  unfoldable pub availability : Share → Condition
  unfolding not_available
  availability s =
      if is_status_condition_true host_ready s.status.conditions
      then record (not_available s ready "") { status = condition_true }
      else not_available s waiting_for_agent "waiting for the node agent to mount and export"

  unfoldable pub place : Share → Resolved → Pass
  unfolding not_available
  place s (no_replica n msg) = report s (not_available s waiting_for_volume msg) done
  place s (placed node device n) =
      let s' = with_placement s node device in report s' (availability s') done

  unfoldable pub place_with : Share → Replies → ClaimVolume → Pass
  unfolding not_available
  place_with s io (unusable r m) =
      report s (not_available s r m)
        (if waits r then requeue_after volume_settle_interval else done)
  place_with s io (usable v) = elim (unready_nodes io.list_nodes) [
    | unready_failed e ↦ stop e
    | down avoid ↦ place s (resolve_placement v s.status.node avoid)
  ]

  -- The `switch` of `Reconcile`.
  unfoldable pub pass : Share → Replies → Pass
  pass s io = place_with s io (claim_volume io.reader s.meta.namespace s.spec.claim_name)

  unfoldable pub with_condition : Share → Condition → Share
  with_condition s c = record s {
    status = record s.status { conditions = set_status_condition c s.status.conditions };
  }

  -- The end of `Reconcile`: the status write and what its reply means.
  unfoldable pub finish : Replies → Pass → List Write × Outcome
  finish io (stop e) = ([], failed e)
  finish io (report s c res) = (
    update_share_status (with_condition s c) ∷ [],
    elim io.update_status [
      | written ↦ res
      | conflict ↦ done
      | already_exists ↦ failed (write_error already_exists)
      | write_not_found ↦ failed (write_error write_not_found)
      | write_failed e ↦ failed e
    ],
  )

  unfoldable pub after : Write → List Write × Outcome → List Write × Outcome
  after w (ws, r) = (w ∷ ws, r)

  unfoldable pub finalized : Share → Share
  finalized s = record s {
    meta = record s.meta { finalizers = add_finalizer teardown_finalizer s.meta.finalizers };
  }

  -- The write of the finalizer, by its reply.
  unfoldable pub reconcile_new : Share → Replies → WriteReply → List Write × Outcome
  reconcile_new s io written = after (update_share s) (finish io (pass s io))
  reconcile_new s io conflict = (update_share s ∷ [], done)
  reconcile_new s io already_exists = (update_share s ∷ [], failed (write_error already_exists))
  reconcile_new s io write_not_found = (update_share s ∷ [], failed (write_error write_not_found))
  reconcile_new s io (write_failed e) = (update_share s ∷ [], failed e)

  -- From the finalizer on.
  unfoldable pub reconcile_live : Share → Replies → List Write × Outcome
  reconcile_live s io =
      if contains_finalizer teardown_finalizer s.meta.finalizers
      then finish io (pass s io)
      else reconcile_new (finalized s) io io.update

  unfoldable pub released : Share → Share
  released s = record s {
    meta = record s.meta { finalizers = remove_finalizer teardown_finalizer s.meta.finalizers };
  }

  unfoldable pub release : Share → Replies → List Write × Outcome
  release s io = (
    update_share (released s) ∷ [],
    elim io.update [
      | written ↦ done
      | conflict ↦ done
      | already_exists ↦ failed (write_error already_exists)
      | write_not_found ↦ done
      | write_failed e ↦ failed e
    ],
  )

  -- `reconcileDelete`.
  unfoldable pub reconcile_delete : Share → Replies → List Write × Outcome
  reconcile_delete s io =
      if not (contains_finalizer teardown_finalizer s.meta.finalizers)
      then ([], done)
      else if s.status.node == "" || is_removed s.status.state
      then release s io
      else elim (node_gone_or_unready (io.get_node s.status.node)) [
        | gone_failed e ↦ ([], failed e)
        | gone true ↦ release s io
        | gone false ↦ ([], requeue_after volume_settle_interval)
      ]

  unfoldable pub reconcile_found : Share → Replies → List Write × Outcome
  reconcile_found s io = if s.meta.deleting then reconcile_delete s io else reconcile_live s io

  -- `ShareReconciler.Reconcile`.
  unfoldable pub reconcile : Replies → List Write × Outcome
  reconcile io = elim io.get_share [
    | get_not_found ↦ ([], done)
    | get_failed e ↦ ([], failed e)
    | found s ↦ reconcile_found s io
  ]

-- `allShares` and `volumeShares`: the requests that an event maps to, by namespace and name.
unfoldable pub all_shares : List Share → List (String × String)
all_shares [] = []
all_shares (s ∷ ss) = (s.meta.namespace, s.meta.name) ∷ all_shares ss
