-- ===== src/TierClasses.antt =====
-- operator/internal/controller/tier_classes.go: the StorageClasses of the tiers in use.
pub mod Created
pub mod Writes
pub mod Exact
mod Examples
use stornas.Base.{
  String, Bool, false, not, ◌&&◌, ◌||◌, Option, none, some, List, [], ◌∷◌, ◌++◌, ◌==◌,
  if◌then◌else◌, ◌<>◌, contains,
}
use stornas.Kube.{
  GetReply, found, get_not_found, get_failed, ListReply, items, list_failed, WriteReply, written,
  conflict, already_exists, write_not_found, write_failed, default_tier, local_class,
  replicated_class,
}
use stornas.StoragePool.{StoragePool}

-- What a clone takes over unchanged; the optional fields are pointers in the source.
pub record ClassPolicy : Type 0 where
  pub provisioner : String
  pub reclaim_policy : Option String
  pub mount_options : List String
  pub allow_volume_expansion : Option Bool
  pub volume_binding_mode : Option String

-- `tier_label` is the value of the label `storage.stornas.io/tier`, if the class has it.
pub record StorageClass : Type 0 where
  pub name : String
  pub tier_label : Option String
  pub parameters : List (String × String)
  pub policy : ClassPolicy

pub record Replies : Type 0 where
  pub pools : ListReply StoragePool
  pub get_class : String → GetReply StorageClass
  pub create_class : String → WriteReply
  pub classes : ListReply StorageClass
  pub delete_class : String → WriteReply

pub data Write : Type 0 where
  creates deletes : StorageClass → Write

-- `TierClasses` of the API types.
unfoldable pub tier_classes : String → String × String
tier_classes tier =
    if tier == "" || tier == default_tier
    then (local_class, replicated_class)
    else (local_class <> "-" <> tier, replicated_class <> "-" <> tier)

-- The test of the first loop.
unfoldable pub is_cloned : String → Bool
is_cloned tier = not (tier == "") && not (tier == default_tier)

-- The set `tiers` is a list of its elements; the source goes through it in any order.
unfoldable pub note_tier : String → List String → List String
unfolding is_cloned
note_tier tier tiers =
    if is_cloned tier then (if contains tier tiers then tiers else tier ∷ tiers) else tiers

unfoldable pub tiers_of : List StoragePool → List String
unfolding note_tier
tiers_of [] = []
tiers_of (p ∷ ps) = note_tier p.spec.tier (tiers_of ps)

-- `params[ParamTier] = tier` in the map that is copied.
unfoldable pub set_param : String → String → List (String × String) → List (String × String)
set_param k v [] = (k, v) ∷ []
set_param k v ((j, w) ∷ m) = if j == k then (k, v) ∷ m else (j, w) ∷ set_param k v m

unfoldable pub clone : StorageClass → String → String → StorageClass
unfolding set_param
clone base name tier = record {
  name = name;
  tier_label = some tier;
  parameters = set_param "tier" tier base.parameters;
  policy = base.policy;
}

-- The writes of a part of the pass and its error; the next part runs unless there is one.
unfoldable pub followed_by :
    List Write × Option String → List Write × Option String → List Write × Option String
followed_by (ws, some e) next = (ws, some e)
followed_by (ws, none) (vs, o) = (ws ++ vs, o)

unfoldable pub create_error : String → WriteReply → Option String
create_error name written = none
create_error name already_exists = none
create_error name conflict = some ("create class " <> name <> ": conflict")
create_error name write_not_found = some ("create class " <> name <> ": not found")
create_error name (write_failed e) = some ("create class " <> name <> ": " <> e)

unfoldable pub create_clone :
    Replies → String → String → String → GetReply StorageClass → List Write × Option String
create_clone io from name tier get_not_found = ([], some ("base class " <> from <> ": not found"))
create_clone io from name tier (get_failed e) = ([], some ("base class " <> from <> ": " <> e))
create_clone io from name tier (found base) =
    (creates (clone base name tier) ∷ [], create_error name (io.create_class name))

-- `ensureClone`.
unfoldable pub ensure_clone : Replies → String → String → String → List Write × Option String
unfolding create_clone create_error
ensure_clone io from name tier = create_clone io from name tier (io.get_class from)

-- The body of the second loop.
unfoldable pub ensure_tier : Replies → String → List Write × Option String
unfolding followed_by tier_classes ensure_clone
ensure_tier io tier =
    let (local, replicated) = tier_classes tier in
    followed_by (ensure_clone io local_class local tier)
      (ensure_clone io replicated_class replicated tier)

unfoldable pub ensure_tiers : Replies → List String → List Write × Option String
unfolding followed_by ensure_tier
ensure_tiers io [] = ([], none)
ensure_tiers io (t ∷ ts) = followed_by (ensure_tier io t) (ensure_tiers io ts)

-- What `client.IgnoreNotFound` leaves.
unfoldable pub delete_error : WriteReply → Option String
delete_error written = none
delete_error write_not_found = none
delete_error conflict = some "conflict"
delete_error already_exists = some "already exists"
delete_error (write_failed e) = some e

-- A class without the label is not listed.
unfoldable pub is_unused : List String → StorageClass → Bool
is_unused tiers c = elim c.tier_label [ none ↦ false | some t ↦ not (contains t tiers) ]

-- The third loop.
unfoldable pub drop_outdated :
    Replies → List String → List StorageClass → List Write × Option String
unfolding followed_by delete_error is_unused
drop_outdated io tiers [] = ([], none)
drop_outdated io tiers (c ∷ cs) =
    let rest = drop_outdated io tiers cs in
    if is_unused tiers c
    then followed_by (deletes c ∷ [], delete_error (io.delete_class c.name)) rest
    else rest

unfoldable pub drop_listed :
    Replies → List String → ListReply StorageClass → List Write × Option String
unfolding drop_outdated
drop_listed io tiers (list_failed e) = ([], some e)
drop_listed io tiers (items cs) = drop_outdated io tiers cs

unfoldable pub reconcile_pools : Replies → ListReply StoragePool → List Write × Option String
unfolding followed_by tiers_of ensure_tiers drop_listed
reconcile_pools io (list_failed e) = ([], some e)
reconcile_pools io (items ps) =
    followed_by (ensure_tiers io (tiers_of ps)) (drop_listed io (tiers_of ps) io.classes)

-- `TierClasses.Reconcile`.
unfoldable pub reconcile : Replies → List Write × Option String
unfolding reconcile_pools
reconcile io = reconcile_pools io io.pools
