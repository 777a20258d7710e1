-- ===== src/Kube.antt =====
-- What the controllers take from Kubernetes: the object metadata and the conditions that they read
-- and write, the replies of the API server, and the helpers of apimachinery and controller-runtime,
-- which are parameters (`MetaLib`). Condition types and reasons are those of
-- operator/api/v1alpha1/conditions.go.
pub mod Concrete
use stornas.Base.{ℕ, String, ◌≡◌, ◌≢◌, Bool, true, false, Option, none, some, List, ◌<>◌}

-- The constants of conditions.go; `Available` is also the condition of an r-drbd Pool, and
-- `SplitBrain` one of an r-drbd Volume.
pub data ConditionType : Type 0 where
  available host_ready registered torn_down deregistered : ConditionType

pub ConditionType-discrete : Discrete ConditionType
ConditionType-discrete = hlevel

pub data ConditionStatus : Type 0 where
  condition_true condition_false condition_unknown : ConditionStatus

-- `no_reason` is the empty string, which the source leaves in a condition that it fills later.
pub data Reason : Type 0 where
  no_reason ready invalid_spec waiting_for_agent waiting_for_volume host_error : Reason
  not_configured waiting_for_pool backend_error unsupported host_not_ready : Reason

pub record Condition : Type 0 where
  pub kind : ConditionType
  pub status : ConditionStatus
  pub reason : Reason
  pub message : String
  pub observed_generation : ℕ

-- `metadata` of an object. `deleting` says that the deletion timestamp is set.
pub record ObjectMeta : Type 0 where
  pub name : String
  pub namespace : String
  pub generation : ℕ
  pub deleting : Bool
  pub finalizers : List String

-- A read of one object, and a write; `apierrors` tells the cases apart.
pub data GetReply {ℓ} (A : Type ℓ) : Type ℓ where
  found : A → GetReply A
  get_not_found : GetReply A
  get_failed : String → GetReply A

pub data ListReply {ℓ} (A : Type ℓ) : Type ℓ where
  items : List A → ListReply A
  list_failed : String → ListReply A

pub data WriteReply : Type 0 where
  written conflict already_exists write_not_found : WriteReply
  write_failed : String → WriteReply

-- What `Reconcile` returns: `ctrl.Result{RequeueAfter}` in seconds, or an error.
pub data Outcome : Type 0 where
  done : Outcome
  requeue_after : ℕ → Outcome
  failed : String → Outcome

-- The error that a failed write returns.
abbrev pub write_error : WriteReply → String
write_error written = ""
write_error conflict = "conflict"
write_error already_exists = "already exists"
write_error write_not_found = "not found"
write_error (write_failed e) = e

-- Whether the status that a condition lookup finds is True.
abbrev pub is_true : Option Condition → Bool
is_true none = false
is_true (some c) = elim c.status [
  | condition_true ↦ true
  | condition_false ↦ false
  | condition_unknown ↦ false
]

-- `meta.SetStatusCondition`, `meta.FindStatusCondition` and `meta.IsStatusConditionTrue` of
-- apimachinery, and the finalizer helpers of controller-runtime, with their documented behaviour.
pub record MetaLib : Type 0 where
  pub set_status_condition : Condition → List Condition → List Condition
  pub find_status_condition : ConditionType → List Condition → Option Condition
  pub is_status_condition_true : ConditionType → List Condition → Bool
  pub contains_finalizer : String → List String → Bool
  pub add_finalizer : String → List String → List String
  pub remove_finalizer : String → List String → List String
  pub find-set_self :
      (c : Condition) (cs : List Condition)
      → find_status_condition c.kind (set_status_condition c cs) ≡ some c
  pub find-set_ne :
      (t : ConditionType) (c : Condition) (cs : List Condition)
      → t ≢ c.kind
      → find_status_condition t (set_status_condition c cs) ≡ find_status_condition t cs
  pub is_true-find :
      (t : ConditionType) (cs : List Condition)
      → is_status_condition_true t cs ≡ is_true (find_status_condition t cs)
  pub contains-add :
      (f : String) (fs : List String) → contains_finalizer f (add_finalizer f fs) ≡ true
  pub contains-remove :
      (f : String) (fs : List String) → contains_finalizer f (remove_finalizer f fs) ≡ false

-- `VGName` and the constants of conditions.go.
abbrev pub default_tier : String
default_tier = "default"

abbrev pub local_class : String
local_class = "stornas-local"

abbrev pub replicated_class : String
replicated_class = "stornas-replicated"

abbrev pub thin_lv : String
thin_lv = "thin"

abbrev pub iqn_prefix : String
iqn_prefix = "iqn.2026-08.io.stornas:"

-- `volumeSettleInterval`, in seconds.
abbrev pub volume_settle_interval : ℕ
volume_settle_interval = 15

-- `teardownFinalizer` and `poolFinalizer`.
abbrev pub teardown_finalizer : String
teardown_finalizer = "storage.stornas.io/teardown"

abbrev pub pool_finalizer : String
pool_finalizer = "storage.stornas.io/deregister"

-- The name of the VG of a pool, and of the array below it.
abbrev pub vg_name_of : String → String
vg_name_of name = "stornas-" <> name

-- The conclusions of `set_status_condition` in the form that the proofs use.
module _ (lib : MetaLib) where
  open lib use {
    set_status_condition, is_status_condition_true, find-set_self, find-set_ne, is_true-find,
  }

  pub is_true-set_self :
      (c : Condition) (cs : List Condition)
      → is_status_condition_true c.kind (set_status_condition c cs) ≡ is_true (some c)
  is_true-set_self c cs = cc (is_true-find c.kind (set_status_condition c cs), find-set_self c cs)

  pub is_true-set_ne :
      (t : ConditionType) (c : Condition) (cs : List Condition)
      → t ≢ c.kind
      → is_status_condition_true t (set_status_condition c cs) ≡ is_status_condition_true t cs
  is_true-set_ne t c cs h =
      cc (is_true-find t (set_status_condition c cs), find-set_ne t c cs h, is_true-find t cs)
