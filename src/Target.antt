-- ===== src/Target.antt =====
-- operator/internal/controller/target_controller.go: placement, device resolution and the Available
-- condition of an iSCSI target, and the release of its finalizer.
pub mod Writes
pub mod Served
pub mod Teardown
mod Examples
use stornas.Base.{
  ℕ, String, Bool, true, false, not, ◌&&◌, ◌||◌, List, [], ◌∷◌, ◌++◌, ◌==◌, ltb, if◌then◌else◌,
  ◌<>◌, contains,
}
use stornas.Kube.{
  ObjectMeta, Condition, condition_true, condition_false, Reason, ready, invalid_spec,
  waiting_for_volume, waiting_for_agent, available, host_ready, GetReply, found, get_not_found,
  get_failed, ListReply, WriteReply, written, conflict, already_exists, write_not_found,
  write_failed, write_error, Outcome, done, requeue_after, failed, MetaLib, volume_settle_interval,
  teardown_finalizer, iqn_prefix,
}
use stornas.Nodes.{
  Node, down, unready_failed, unready_nodes, gone, gone_failed, node_gone_or_unready,
}
use stornas.Volume.{Volume}
use stornas.Claim.{Reader, usable, unusable, claim_volume}
use stornas.Placement.{placed, no_replica, resolve_placement}
use stornas.Chap.{Secret, chap_credentials, is_usable}
use stornas.Share.{ExportState, is_removed, waits, has_moved}

pub record Lun : Type 0 where
  pub id : ℕ
  pub claim_name : String

pub record Initiator : Type 0 where
  pub iqn : String
  pub chap_secret_ref : String

pub record TargetSpec : Type 0 where
  pub vip : String
  pub luns : List Lun
  pub initiators : List Initiator

pub record LunStatus : Type 0 where
  pub id : ℕ
  pub device : String

pub record SecretVersion : Type 0 where
  pub name : String
  pub resource_version : String

pub record TargetStatus : Type 0 where
  pub conditions : List Condition
  pub iqn : String
  pub active_node : String
  pub luns : List LunStatus
  pub chap_secret_versions : List SecretVersion
  pub sessions : ℕ
  pub state : ExportState

pub record Target : Type 0 where
  pub meta : ObjectMeta
  pub spec : TargetSpec
  pub status : TargetStatus

pub record Replies : Type 0 where
  pub get_target : GetReply Target
  pub get_secret : String → String → GetReply Secret
  pub reader : Reader
  pub list_nodes : ListReply Node
  pub get_node : String → GetReply Node
  pub update : WriteReply
  pub update_status : WriteReply

pub data Write : Type 0 where
  update_target : Target → Write
  update_target_status : Target → Write

-- `chapSecrets`: the versions of the usable Secrets, and what is wrong with the first that is not.
pub data Secrets : Type 0 where
  versions : List SecretVersion → String → Secrets
  secrets_failed : String → Secrets

abbrev pub first_problem : String → String → String
first_problem problem new = if problem == "" then new else problem

-- One more Secret, by the reply to its read.
unfoldable pub check_secret : String → GetReply Secret → List SecretVersion → String → Secrets
check_secret ref get_not_found vs problem =
    versions vs (first_problem problem ("chap secret " <> ref <> " not found"))
check_secret ref (get_failed e) vs problem = secrets_failed e
check_secret ref (found s) vs problem =
    if is_usable (chap_credentials s)
    then versions (vs ++ record { name = ref; resource_version = s.resource_version } ∷ []) problem
    else versions vs
        (first_problem problem ("chap secret " <> ref <> " has no username or password key"))

unfoldable pub chap_secrets_from :
    (String → GetReply Secret)
    → List Initiator
    → List String
    → List SecretVersion
    → String
    → Secrets
chap_secrets_from get [] seen vs problem = versions vs problem
chap_secrets_from get (ini ∷ inis) seen vs problem =
    let ref = ini.chap_secret_ref in
    elim (ref == "" || contains ref seen) [
      | true ↦ chap_secrets_from get inis seen vs problem
      | false ↦ elim (check_secret ref (get ref) vs problem) [
        | secrets_failed e ↦ secrets_failed e
        | versions vs' problem' ↦ chap_secrets_from get inis (ref ∷ seen) vs' problem'
      ]
    ]

unfoldable pub chap_secrets : Replies → Target → Secrets
chap_secrets io t = chap_secrets_from (io.get_secret t.meta.namespace) t.spec.initiators [] [] ""

-- The loop over the claims of the LUNs: their volumes, or what stops at the first that is unusable.
pub data Volumes : Type 0 where
  all_usable : List Volume → Volumes
  blocked : Reason → String → Volumes

unfoldable pub volumes_of : Reader → String → List Lun → Volumes
volumes_of c namespace [] = all_usable []
volumes_of c namespace (lun ∷ luns) =
    let rest = volumes_of c namespace luns in
    elim (claim_volume c namespace lun.claim_name) [
      | unusable r m ↦ blocked r m
      | usable v ↦ elim rest [ all_usable vs ↦ all_usable (v ∷ vs) | blocked r m ↦ blocked r m ]
    ]

-- What the loop over the volumes finds: the devices, the node of the first volume, and whether
-- any volume is replicated; or the message of the volume that cannot be placed.
pub data Located : Type 0 where
  located : String → Bool → List LunStatus → Located
  unplaced : String → Located

abbrev pub more_than_one : ℕ → Bool
more_than_one n = ltb 1 n

-- One round; `target.Spec.LUNs[i]` runs along with the volumes.
unfoldable pub locate_rest : String → (String → Bool) → List Lun → List Volume → Located
locate_rest prefer avoid luns [] = located "" false []
locate_rest prefer avoid [] (v ∷ vs) = located "" false []
locate_rest prefer avoid (lun ∷ luns) (v ∷ vs) =
    let rest = locate_rest prefer avoid luns vs in
    elim (resolve_placement v prefer avoid) [
      | no_replica n msg ↦ unplaced msg
      | placed node device n ↦ elim rest [
        | unplaced msg ↦ unplaced msg
        | located _ replicated ls ↦
            located node (more_than_one n || replicated)
              (record { id = lun.id; device = device } ∷ ls)
      ]
    ]

pub data Pass : Type 0 where
  report : Target → Condition → Outcome → Pass
  stop : String → Pass

unfoldable pub not_available : Target → Reason → String → Condition
not_available t r m = record {
  kind = available;
  status = condition_false;
  reason = r;
  message = m;
  observed_generation = t.meta.generation;
}

unfoldable pub moved_to : Target → String → Condition
moved_to t node = record {
  kind = host_ready;
  status = condition_false;
  reason = waiting_for_agent;
  message = "moved to " <> node;
  observed_generation = t.meta.generation;
}

-- The IQN and the Secret versions, which every status write carries.
unfoldable pub with_iqn : Target → List SecretVersion → Target
with_iqn t vs = record t {
  status = record t.status { iqn = iqn_prefix <> t.meta.name; chap_secret_versions = vs };
}

module _ (lib : MetaLib) where
  open lib use {
    set_status_condition, is_status_condition_true, contains_finalizer, add_finalizer,
    remove_finalizer,
  }

  unfoldable pub with_placement : Target → String → List LunStatus → Target
  with_placement t node luns = record t {
    status = record t.status {
      conditions =
          if has_moved t.status.active_node node
          then set_status_condition (moved_to t node) t.status.conditions
          else t.status.conditions;
      active_node = node;
      luns = luns;
    };
  }

  -- The innermost `switch`: a broken Secret is reported, and the placement stands.
  unfoldable pub availability : Target → String → Condition
  unfolding not_available
  availability t secret_problem =
      if not (secret_problem == "")
      then not_available t invalid_spec secret_problem
      else if is_status_condition_true host_ready t.status.conditions
      then record (not_available t ready "") { status = condition_true }
      else not_available t waiting_for_agent "waiting for the node agent to export the target"

  unfoldable pub place : Target → String → Located → Pass
  place t secret_problem (unplaced msg) = report t (not_available t waiting_for_volume msg) done
  place t secret_problem (located node replicated luns) =
      if replicated && t.spec.vip == ""
      then report t (not_available t invalid_spec "vip is required when a LUN is replicated") done
      else (let t' = with_placement t node luns in report t' (availability t' secret_problem) done)

  unfoldable pub place_with : Target → Replies → String → Volumes → Pass
  place_with t io secret_problem (blocked r m) =
      report t (not_available t r m)
        (if waits r then requeue_after volume_settle_interval else done)
  place_with t io secret_problem (all_usable vs) = elim (unready_nodes io.list_nodes) [
    | unready_failed e ↦ stop e
    | down avoid ↦ place t secret_problem (locate_rest t.status.active_node avoid t.spec.luns vs)
  ]

  unfoldable pub pass : Target → Replies → Pass
  pass t io = elim (chap_secrets io t) [
    | secrets_failed e ↦ stop e
    | versions vs problem ↦
        place_with (with_iqn t vs) io problem (volumes_of io.reader t.meta.namespace t.spec.luns)
  ]

  unfoldable pub with_condition : Target → Condition → Target
  with_condition t c = record t {
    status = record t.status { conditions = set_status_condition c t.status.conditions };
  }

  unfoldable pub finish : Replies → Pass → List Write × Outcome
  finish io (stop e) = ([], failed e)
  finish io (report t c res) = (
    update_target_status (with_condition t c) ∷ [],
    elim io.update_status [
      | written ↦ res
      | conflict ↦ done
      | already_exists ↦ failed (write_error already_exists)
      | write_not_found ↦ failed (write_error write_not_found)
      | write_failed e ↦ failed e
    ],
  )

  unfoldable pub after : Write → List Write × Outcome → List Write × Outcome
  after w (ws, r) = (w ∷ ws, r)

  unfoldable pub finalized : Target → Target
  finalized t = record t {
    meta = record t.meta { finalizers = add_finalizer teardown_finalizer t.meta.finalizers };
  }

  unfoldable pub reconcile_new : Target → Replies → WriteReply → List Write × Outcome
  reconcile_new t io written = after (update_target t) (finish io (pass t io))
  reconcile_new t io conflict = (update_target t ∷ [], done)
  reconcile_new t io already_exists = (update_target t ∷ [], failed (write_error already_exists))
  reconcile_new t io write_not_found = (update_target t ∷ [], failed (write_error write_not_found))
  reconcile_new t io (write_failed e) = (update_target t ∷ [], failed e)

  unfoldable pub reconcile_live : Target → Replies → List Write × Outcome
  reconcile_live t io =
      if contains_finalizer teardown_finalizer t.meta.finalizers
      then finish io (pass t io)
      else reconcile_new (finalized t) io io.update

  unfoldable pub released : Target → Target
  released t = record t {
    meta = record t.meta { finalizers = remove_finalizer teardown_finalizer t.meta.finalizers };
  }

  unfoldable pub release : Target → Replies → List Write × Outcome
  release t io = (
    update_target (released t) ∷ [],
    elim io.update [
      | written ↦ done
      | conflict ↦ done
      | already_exists ↦ failed (write_error already_exists)
      | write_not_found ↦ done
      | write_failed e ↦ failed e
    ],
  )

  -- `reconcileDelete`.
  unfoldable pub reconcile_delete : Target → Replies → List Write × Outcome
  reconcile_delete t io =
      if not (contains_finalizer teardown_finalizer t.meta.finalizers)
      then ([], done)
      else if t.status.active_node == "" || is_removed t.status.state
      then release t io
      else elim (node_gone_or_unready (io.get_node t.status.active_node)) [
        | gone_failed e ↦ ([], failed e)
        | gone true ↦ release t io
        | gone false ↦ ([], requeue_after volume_settle_interval)
      ]

  -- `TargetReconciler.Reconcile`.
  unfoldable pub reconcile : Replies → List Write × Outcome
  reconcile io = elim io.get_target [
    | get_not_found ↦ ([], done)
    | get_failed e ↦ ([], failed e)
    | found t ↦ if t.meta.deleting then reconcile_delete t io else reconcile_live t io
  ]
