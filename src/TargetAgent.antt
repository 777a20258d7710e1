-- ===== src/TargetAgent.antt =====
-- internal/agent/target_reconciler.go: a pass of the target agent.
pub mod Live
pub mod Cache
mod Examples
use stornas.Base.{
  String, Bool, true, false, not, ◌&&◌, Option, none, some, List, [], ◌∷◌, ◌==◌, if◌then◌else◌,
  ◌<>◌, decimal,
}
use stornas.Kube.{
  Condition, condition_true, condition_false, ready, host_error, host_ready, GetReply, found,
  get_not_found, get_failed, WriteReply, written, Outcome, done, failed, MetaLib,
}
use stornas.Chap.{Secret, ChapCred, chap_credentials}
use stornas.Target.{Target, Initiator, LunStatus}
use stornas.Share.{ExportState, exported, export_failed, removed, is_removed}
use stornas.Host.{Log, Runner}
use stornas.PoolAgent.{ignore_not_found}
use stornas.Vip.{IpJson}
use stornas.Lio.{Credentials, ensure_target, remove_target, teardown_target}

-- What a pass reads, and how the API server answers its write.
pub record Reads : Type 0 where
  pub get_target : GetReply Target
  pub get_secret : String → String → GetReply Secret
  pub update_status : WriteReply

-- `applied`, by namespace and name; "" where the map has no key.
abbrev pub Applied : Type 0
Applied = String → String → String

abbrev pub remember : String → String → String → Applied → Applied
remember ns name key m n k = if n == ns && k == name then key else m n k

-- What the agent keeps between passes, and the host's log.
pub record State : Type 0 where
  pub applied : Applied
  pub log : Log

pub record Reaction : Type 0 where
  pub state : State
  pub writes : List Target
  pub outcome : Outcome

-- The key of the input, and the credentials; or the error of a read.
pub data Resolved : Type 0 where
  resolved : String → Credentials → Resolved
  resolve_failed : String → Resolved

abbrev pub put_credential : String → Option ChapCred → Credentials → Credentials
put_credential iqn none chap = chap
put_credential iqn (some cred) chap = λ k. if k == iqn then some cred else chap k

-- One Secret, by the reply to its read.
unfoldable pub note_secret : Initiator → GetReply Secret → String → Credentials → Resolved
note_secret ini (get_failed e) key chap = resolve_failed e
note_secret ini get_not_found key chap =
    resolved (key <> "|" <> ini.chap_secret_ref <> ":absent") chap
note_secret ini (found s) key chap =
    resolved (key <> "|" <> ini.chap_secret_ref <> ":" <> s.resource_version)
      (put_credential ini.iqn (chap_credentials s) chap)

unfoldable pub resolve_from :
    (String → GetReply Secret) → List Initiator → String → Credentials → Resolved
resolve_from get [] key chap = resolved key chap
resolve_from get (ini ∷ inis) key chap = elim (ini.chap_secret_ref == "") [
  | true ↦ resolve_from get inis key chap
  | false ↦ elim (note_secret ini (get ini.chap_secret_ref) key chap) [
    | resolve_failed e ↦ resolve_failed e
    | resolved key' chap' ↦ resolve_from get inis key' chap'
  ]
]

unfoldable pub add_luns : String → List LunStatus → String
add_luns key [] = key
add_luns key (l ∷ ls) = add_luns (key <> "|" <> decimal l.id <> ":" <> l.device) ls

unfoldable pub resolve : Target → (String → String → GetReply Secret) → Resolved
resolve t get =
    resolve_from (get t.meta.namespace) t.spec.initiators
      (add_luns ("g" <> decimal t.meta.generation) t.status.luns) (λ k. none)

abbrev pub host_condition : Target → Option String → Condition
host_condition t none = record {
  kind = host_ready;
  status = condition_true;
  reason = ready;
  message = "";
  observed_generation = t.meta.generation;
}
host_condition t (some e) = record {
  kind = host_ready;
  status = condition_false;
  reason = host_error;
  message = e;
  observed_generation = t.meta.generation;
}

abbrev pub state_of : Option String → ExportState
state_of none = exported
state_of (some e) = export_failed

abbrev pub with_removed : Target → Target
with_removed t = record t { status = record t.status { state = removed } }

abbrev pub is_nil : List LunStatus → Bool
is_nil [] = true
is_nil (l ∷ ls) = false

module _ (json : IpJson) (run : Runner) (root node : String) where
  -- `delete(r.applied, ...)`.
  abbrev pub forget : Target → State → Applied
  forget t st = remember t.meta.namespace t.meta.name "" st.applied

  unfoldable pub tear_down : Target → State → State
  tear_down t st = record {
    applied = forget t st;
    log = teardown_target run json root t.meta.name t.spec.vip st.log;
  }

  -- The branch for a target whose object is gone.
  unfoldable pub reconcile_gone : String → String → State → Reaction
  reconcile_gone ns name st = record {
    state = record {
      applied = remember ns name "" st.applied;
      log = remove_target run json root name st.log;
    };
    writes = [];
    outcome = done;
  }

  -- The branch for a target that is being deleted.
  unfoldable pub reconcile_deleting : Target → WriteReply → State → Reaction
  reconcile_deleting t reply st =
      if t.status.active_node == node && not (is_removed t.status.state)
      then record {
        state = tear_down t st;
        writes = with_removed t ∷ [];
        outcome = ignore_not_found reply;
      }
      else record { state = tear_down t st; writes = []; outcome = done }

module _ (lib : MetaLib) (json : IpJson) (run : Runner) (root node : String) where
  open lib use {set_status_condition}

  unfoldable pub with_host_status : Target → Option String → Target
  with_host_status t e = record t {
    status = record t.status {
      state = state_of e;
      conditions = set_status_condition (host_condition t e) t.status.conditions;
    };
  }

  -- The end of an export whose status update was answered: the key is remembered if all went well.
  unfoldable pub conclude :
      Target → String → Applied → WriteReply → Log × Option String → State × Outcome
  conclude t key m written (log, none) =
      (record { applied = remember t.meta.namespace t.meta.name key m; log = log }, done)
  conclude t key m written (log, some e) = (record { applied = m; log = log }, failed e)
  conclude t key m reply (log, e) = (record { applied = m; log = log }, ignore_not_found reply)

  unfoldable pub report : Target → String → Applied → WriteReply → Log × Option String → Reaction
  report t key m reply (log, e) =
      let (st, outcome) = conclude t key m reply (log, e) in
      record { state = st; writes = with_host_status t e ∷ []; outcome = outcome }

  unfoldable pub export : Target → WriteReply → State → Resolved → Reaction
  export t reply st (resolve_failed e) = record { state = st; writes = []; outcome = failed e }
  export t reply st (resolved key chap) = elim (st.applied t.meta.namespace t.meta.name == key) [
    | true ↦ record { state = st; writes = []; outcome = done }
    | false ↦ report t key st.applied reply (ensure_target run json root t chap st.log)
  ]

  -- The branch for a target that is placed here.
  unfoldable pub reconcile_here : Target → Reads → State → Reaction
  reconcile_here t reads st =
      if is_nil t.status.luns
      then record { state = st; writes = []; outcome = done }
      else export t reads.update_status st (resolve t reads.get_secret)

  unfoldable pub reconcile_live : Target → Reads → State → Reaction
  reconcile_live t reads st =
      if t.status.active_node == node
      then reconcile_here t reads st
      else record { state = tear_down json run root node t st; writes = []; outcome = done }

  unfoldable pub reconcile_found : String → String → GetReply Target → Reads → State → Reaction
  reconcile_found ns name (get_failed e) reads st = record {
    state = st;
    writes = [];
    outcome = failed e;
  }
  reconcile_found ns name get_not_found reads st = reconcile_gone json run root node ns name st
  reconcile_found ns name (found t) reads st =
      if t.meta.deleting
      then reconcile_deleting json run root node t reads.update_status st
      else reconcile_live t reads st

  -- `TargetAgentReconciler.Reconcile`.
  unfoldable pub reconcile : String → String → Reads → State → Reaction
  reconcile ns name reads st = reconcile_found ns name reads.get_target reads st
