-- ===== src/ShareAgent/Pass.antt =====
-- internal/agent/share_reconciler.go: a pass of the share agent.
pub mod Ready
pub mod Removed
use stornas.Base.{
  String, Bool, true, false, not, ◌||◌, Option, none, some, List, [], ◌∷◌, ◌==◌, if◌then◌else◌,
}
use stornas.Kube.{
  Condition, condition_true, condition_false, ready, host_error, host_ready, GetReply, found,
  get_not_found, get_failed, ListReply, items, list_failed, WriteReply, written, Outcome, done,
  failed, MetaLib,
}
use stornas.Share.{Share, ExportState, exported, export_failed, removed, is_removed}
use stornas.Host.{Log, Runner, unless_failed}
use stornas.PoolAgent.{ignore_not_found}
use stornas.ShareAgent.{ShareManager, is_present, remove_share, ensure_share, apply_samba}

-- What a pass reads, and how the API server answers its write.
pub record Reads : Type 0 where
  pub get_share : GetReply Share
  pub list_shares : ListReply Share
  pub update_status : WriteReply

pub record Reaction : Type 0 where
  pub log : Log
  pub writes : List Share
  pub outcome : Outcome

-- The share that reports the teardown.
abbrev pub with_removed : Share → Share
with_removed s = record s { status = record s.status { state = removed } }

abbrev pub host_condition : Share → Option String → Condition
host_condition s none = record {
  kind = host_ready;
  status = condition_true;
  reason = ready;
  message = "";
  observed_generation = s.meta.generation;
}
host_condition s (some e) = record {
  kind = host_ready;
  status = condition_false;
  reason = host_error;
  message = e;
  observed_generation = s.meta.generation;
}

abbrev pub state_of : Option String → ExportState
state_of none = exported
state_of (some e) = export_failed

-- The result of a pass whose status update was answered.
abbrev pub after_update : WriteReply → Option String → Outcome
after_update written none = done
after_update written (some e) = failed e
after_update reply e = ignore_not_found reply

module _ (run : Runner) (m : ShareManager) where
  -- `applySamba`.
  unfoldable pub apply_listed : ListReply Share → Log → Log × Option String
  apply_listed (list_failed e) log = (log, some e)
  apply_listed (items shares) log = apply_samba run m shares log

  unfoldable pub tear_down : String → String → ListReply Share → Log → Log
  tear_down ns name shares log = (apply_listed shares (remove_share run m ns name log)).0

  unfoldable pub tear_down_if : String → String → ListReply Share → Log × Bool → Log
  tear_down_if ns name shares (log, false) = log
  tear_down_if ns name shares (log, true) = tear_down ns name shares log

  unfoldable pub tear_down_present : String → String → ListReply Share → Log → Log
  tear_down_present ns name shares log = tear_down_if ns name shares (is_present run m ns name log)

  -- The branch for a share that is being deleted.
  unfoldable pub reconcile_deleting : Share → Reads → Log → Reaction
  reconcile_deleting s reads log =
      let log' = tear_down_present s.meta.namespace s.meta.name reads.list_shares log in
      if not (s.status.node == m.node) || is_removed s.status.state
      then record { log = log'; writes = []; outcome = done }
      else record {
        log = log';
        writes = with_removed s ∷ [];
        outcome = ignore_not_found reads.update_status;
      }

  -- The mount and the export, and then the samba include.
  unfoldable pub serve : Share → ListReply Share → Log → Log × Option String
  serve s shares log = unless_failed (ensure_share run m s log) (apply_listed shares)

  unfoldable pub reconcile_elsewhere : Share → Reads → Log → Reaction
  reconcile_elsewhere s reads log = record {
    log = tear_down_present s.meta.namespace s.meta.name reads.list_shares log;
    writes = [];
    outcome = done;
  }

  -- The branch for a share whose object is gone.
  unfoldable pub reconcile_gone : String → String → Reads → Log → Reaction
  reconcile_gone ns name reads log = record {
    log = tear_down ns name reads.list_shares log;
    writes = [];
    outcome = done;
  }

module _ (lib : MetaLib) (run : Runner) (m : ShareManager) where
  open lib use {set_status_condition}

  unfoldable pub with_host_status : Share → Option String → Share
  with_host_status s e = record s {
    status = record s.status {
      state = state_of e;
      conditions = set_status_condition (host_condition s e) s.status.conditions;
    };
  }

  unfoldable pub report : Share → WriteReply → Log × Option String → Reaction
  report s reply (log, e) = record {
    log = log;
    writes = with_host_status s e ∷ [];
    outcome = after_update reply e;
  }

  unfoldable pub reconcile_here : Share → Reads → Log → Reaction
  reconcile_here s reads log = report s reads.update_status (serve run m s reads.list_shares log)

  unfoldable pub reconcile_live : Share → Reads → Log → Reaction
  reconcile_live s reads log =
      if not (s.status.node == m.node) || s.status.device == ""
      then reconcile_elsewhere run m s reads log
      else reconcile_here s reads log

  unfoldable pub reconcile_found : String → String → GetReply Share → Reads → Log → Reaction
  reconcile_found ns name (get_failed e) reads log = record {
    log = log;
    writes = [];
    outcome = failed e;
  }
  reconcile_found ns name get_not_found reads log = reconcile_gone run m ns name reads log
  reconcile_found ns name (found s) reads log =
      if s.meta.deleting then reconcile_deleting run m s reads log else reconcile_live s reads log

  -- `ShareAgentReconciler.Reconcile`.
  unfoldable pub reconcile : String → String → Reads → Log → Reaction
  reconcile ns name reads log = reconcile_found ns name reads.get_share reads log
