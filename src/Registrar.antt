-- ===== src/Registrar.antt =====
-- operator/internal/rdrbd/registrar.go: a StoragePool as an r-drbd Pool.
pub mod Laws
use stornas.Base.{
  ℕ, String, Bool, false, not, ◌&&◌, Option, none, some, List, [], ◌∷◌, ◌==◌, if◌then◌else◌, ◌<>◌,
  join,
}
use stornas.Kube.{
  Condition, condition_true, condition_false, condition_unknown, MetaLib, available, GetReply,
  found, get_not_found, get_failed, WriteReply, written, conflict, already_exists, write_not_found,
  write_failed, write_error, default_tier, thin_lv,
}
use stornas.StoragePool.{StoragePool, vg_name}

pub record RdrbdPoolSpec : Type 0 where
  pub node : String
  pub tier : String
  pub vg : String
  pub thin_pool : String
  pub overcommit_percent : Option ℕ
  pub reserve_percent : Option ℕ

pub record RdrbdPool : Type 0 where
  pub name : String
  pub deleting : Bool
  pub spec : RdrbdPoolSpec
  pub volumes : List String
  pub conditions : List Condition

-- `PoolSpec`.
unfoldable pub pool_spec : StoragePool → RdrbdPoolSpec
pool_spec sp = record {
  node = sp.spec.node;
  tier = if sp.spec.tier == "" then default_tier else sp.spec.tier;
  vg = vg_name sp;
  thin_pool = thin_lv;
  overcommit_percent = none;
  reserve_percent = none;
}

-- `sameLocation`.
unfoldable pub same_location : RdrbdPoolSpec → RdrbdPoolSpec → Bool
same_location a b =
    a.node == b.node && a.tier == b.tier && a.vg == b.vg && a.thin_pool == b.thin_pool

-- What the registrar asks of the API server.
pub data Request : Type 0 where
  create_pool : RdrbdPool → Request
  delete_pool_object : RdrbdPool → Request

-- `EnsurePool`: ready, not ready and why, or an API failure.
pub data Ensured : Type 0 where
  pool_ready : Ensured
  not_ready : String → Ensured
  ensure_failed : String → Ensured

unfoldable pub new_pool : StoragePool → RdrbdPool
new_pool sp = record {
  name = sp.meta.name;
  deleting = false;
  spec = pool_spec sp;
  volumes = [];
  conditions = [];
}

-- An already existing Pool is no failure of the creation.
unfoldable pub created : StoragePool → WriteReply → Ensured
created sp written = not_ready "r-drbd pool created, waiting for the agent"
created sp already_exists = not_ready "r-drbd pool created, waiting for the agent"
created sp conflict =
    ensure_failed ("create r-drbd pool " <> sp.meta.name <> ": " <> write_error conflict)
created sp write_not_found =
    ensure_failed ("create r-drbd pool " <> sp.meta.name <> ": " <> write_error write_not_found)
created sp (write_failed e) = ensure_failed ("create r-drbd pool " <> sp.meta.name <> ": " <> e)

unfoldable pub mismatch : StoragePool → RdrbdPoolSpec → RdrbdPoolSpec → String
mismatch sp have want =
    "r-drbd pool " <> sp.meta.name <> " exists for " <> have.vg <> "/" <> have.thin_pool <> " on "
    <> have.node <> " in tier " <> have.tier <> ", not " <> want.vg <> "/" <> want.thin_pool
    <> " on " <> want.node <> " in tier " <> want.tier

-- The `switch` on the Available condition.
unfoldable pub readiness : Option Condition → Ensured
readiness none = not_ready "waiting for the r-drbd agent to report the pool"
readiness (some c) = elim c.status [
  | condition_true ↦ pool_ready
  | condition_false ↦ not_ready ("r-drbd pool not available: " <> c.message)
  | condition_unknown ↦ not_ready ("r-drbd pool not available: " <> c.message)
]

-- `DeletePool`: gone, not gone and why, or an API failure.
pub data Released : Type 0 where
  pool_gone : Released
  not_gone : String → Released
  delete_failed : String → Released

unfoldable pub after_delete : RdrbdPool → Released
after_delete pool = elim pool.volumes [
  | [] ↦ not_gone "waiting for r-drbd to release the pool"
  | v ∷ vs ↦ not_gone ("pool still backs volumes: " <> join ", " (v ∷ vs))
]

unfoldable pub deleted : StoragePool → RdrbdPool → WriteReply → Released
deleted sp pool written = after_delete pool
deleted sp pool write_not_found = after_delete pool
deleted sp pool conflict =
    delete_failed ("delete r-drbd pool " <> sp.meta.name <> ": " <> write_error conflict)
deleted sp pool already_exists =
    delete_failed ("delete r-drbd pool " <> sp.meta.name <> ": " <> write_error already_exists)
deleted sp pool (write_failed e) =
    delete_failed ("delete r-drbd pool " <> sp.meta.name <> ": " <> e)

-- The Pool is of this StoragePool: its node and its VG are.
unfoldable pub is_ours : StoragePool → RdrbdPool → Bool
is_ours sp pool = pool.spec.node == sp.spec.node && pool.spec.vg == vg_name sp

unfoldable pub delete_found : StoragePool → RdrbdPool → WriteReply → List Request × Released
delete_found sp pool reply =
    if not (is_ours sp pool)
    then ([], pool_gone)
    else if pool.deleting
    then ([], after_delete pool)
    else (delete_pool_object pool ∷ [], deleted sp pool reply)

-- `DeletePool`, with the replies to its read and to its delete.
unfoldable pub delete_pool : StoragePool → GetReply RdrbdPool → WriteReply → List Request × Released
delete_pool sp (found pool) reply = delete_found sp pool reply
delete_pool sp get_not_found reply = ([], pool_gone)
delete_pool sp (get_failed e) reply =
    ([], delete_failed ("get r-drbd pool " <> sp.meta.name <> ": " <> e))

module _ (lib : MetaLib) where
  unfoldable pub ensure_found : StoragePool → RdrbdPool → Ensured
  ensure_found sp pool =
      if not (same_location pool.spec (pool_spec sp))
      then not_ready (mismatch sp pool.spec (pool_spec sp))
      else if pool.deleting
      then not_ready ("r-drbd pool " <> sp.meta.name <> " is still being deleted")
      else readiness (lib.find_status_condition available pool.conditions)

  -- `EnsurePool`, with the replies to its read and to its creation.
  unfoldable pub ensure_pool :
      StoragePool → GetReply RdrbdPool → WriteReply → List Request × Ensured
  ensure_pool sp (found pool) reply = ([], ensure_found sp pool)
  ensure_pool sp get_not_found reply = (create_pool (new_pool sp) ∷ [], created sp reply)
  ensure_pool sp (get_failed e) reply =
      ([], ensure_failed ("get r-drbd pool " <> sp.meta.name <> ": " <> e))
