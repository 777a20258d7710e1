-- ===== src/ClaimBinder.antt =====
-- operator/internal/controller/claim_binder.go: the node for a claim that the host itself consumes.
pub mod Sorted
pub mod Choice
mod Examples
use stornas.Base.{
  ℕ, String, Bool, true, false, not, ◌&&◌, ◌||◌, Option, none, some, List, [], ◌∷◌, ◌==◌, ltb,
  nat_eq, if◌then◌else◌,
}
use Prim.Native.String.{compare}
use text.Mathlib.Text.{is_lt}
use stornas.Kube.{
  ListReply, items, list_failed, GetReply, found, get_not_found, get_failed, WriteReply, written,
  conflict, already_exists, write_not_found, write_failed, write_error, Outcome, done, failed,
  available, default_tier, MetaLib,
}
use stornas.Nodes.{Node, gone, gone_failed, node_gone_or_unready}
use stornas.Claim.{Pvc, driver_name}
use stornas.StoragePool.{StoragePool}

abbrev pub selected_node_annotation : String
selected_node_annotation = "volume.kubernetes.io/selected-node"

abbrev pub consumer_annotation : String
consumer_annotation = "storage.stornas.io/consumer"

abbrev pub consumer_host : String
consumer_host = "host"

abbrev pub pool_annotation : String
pool_annotation = "r-drbd.io/pool"

pub data BindingMode : Type 0 where
  immediate : BindingMode
  wait_for_first_consumer : BindingMode

pub record StorageClass : Type 0 where
  pub provisioner : String
  pub binding_mode : Option BindingMode
  pub tier_parameter : String

pub record Replies : Type 0 where
  pub get_pvc : GetReply Pvc
  pub get_class : String → GetReply StorageClass
  pub list_pools : ListReply StoragePool
  pub get_node : String → GetReply Node
  pub patch : WriteReply

-- `hostClaimPending`.
unfoldable pub host_claim_pending : Pvc → Bool
host_claim_pending pvc =
    not pvc.meta.deleting
    && pvc.volume_name == ""
    && pvc.annotation selected_node_annotation == ""
    && pvc.annotation consumer_annotation == consumer_host

abbrev pub is_wait : Option BindingMode → Bool
is_wait none = false
is_wait (some immediate) = false
is_wait (some wait_for_first_consumer) = true

-- `wffcClass`: a class of r-drbd that waits, none, or an error.
pub data ClassReply : Type 0 where
  class : StorageClass → ClassReply
  no_class : ClassReply
  class_failed : String → ClassReply

unfoldable pub class_of : GetReply StorageClass → ClassReply
class_of get_not_found = no_class
class_of (get_failed e) = class_failed e
class_of (found sc) =
    if not (sc.provisioner == driver_name) || not (is_wait sc.binding_mode)
    then no_class
    else class sc

unfoldable pub named_class : Replies → Option String → ClassReply
named_class io none = no_class
named_class io (some name) = if name == "" then no_class else class_of (io.get_class name)

unfoldable pub wffc_class : Replies → Pvc → ClassReply
wffc_class io pvc = named_class io pvc.storage_class_name

abbrev pub tier_or_default : String → String
tier_or_default t = if t == "" then default_tier else t

abbrev pub value_of : Option ℕ → ℕ
value_of none = 0
value_of (some f) = f

-- The entry of a node, with the free space of its best pool.
pub record Room : Type 0 where
  pub node : String
  pub free : ℕ

-- `free[node] = f` unless the map holds as much already.
unfoldable pub put_room : String → ℕ → List Room → List Room
put_room node f [] = record { node = node; free = f } ∷ []
put_room node f (r ∷ rs) =
    let rest = put_room node f rs in
    if r.node == node
    then (if ltb r.free f then record { node = node; free = f } ∷ rs else r ∷ rs)
    else r ∷ rest

-- The order of `sort.Slice`: most free space first, then by name.
unfoldable pub goes_first : Room → Room → Bool
goes_first a b = if nat_eq a.free b.free then is_lt (compare a.node b.node) else ltb b.free a.free

unfoldable pub insert_room : Room → List Room → List Room
insert_room r [] = r ∷ []
insert_room r (s ∷ ss) =
    let rest = insert_room r ss in if goes_first r s then r ∷ s ∷ ss else s ∷ rest

unfoldable pub sort_rooms : List Room → List Room
sort_rooms [] = []
sort_rooms (r ∷ rs) = insert_room r (sort_rooms rs)

-- The nodes that are up; any failed read stops the loop.
pub data Live : Type 0 where
  live : List Room → Live
  live_failed : String → Live

unfoldable pub live_rooms : (String → GetReply Node) → List Room → Live
live_rooms get [] = live []
live_rooms get (r ∷ rs) =
    let rest = live_rooms get rs in
    elim (node_gone_or_unready (get r.node)) [
      | gone_failed e ↦ live_failed e
      | gone down ↦ elim rest [
        | live_failed e ↦ live_failed e
        | live ls ↦ if down then live ls else live (r ∷ ls)
      ]
    ]

abbrev pub first_node : List Room → String
first_node [] = ""
first_node (r ∷ rs) = r.node

-- `pickNode`; "" is no node yet.
pub data Picked : Type 0 where
  picked : String → Picked
  pick_failed : String → Picked

unfoldable pub pick_live : Live → Picked
pick_live (live_failed e) = pick_failed e
pick_live (live rs) = picked (first_node (sort_rooms rs))

module _ (lib : MetaLib) where
  open lib use {is_status_condition_true}

  -- The loop of a pinned claim.
  unfoldable pub pinned_node : String → List StoragePool → String
  pinned_node name [] = ""
  pinned_node name (p ∷ ps) =
      let rest = pinned_node name ps in
      if p.meta.name == name && is_status_condition_true available p.status.conditions
      then p.spec.node
      else rest

  -- The pool is of the tier, and Available.
  unfoldable pub is_eligible : String → StoragePool → Bool
  is_eligible tier p =
      tier_or_default p.spec.tier == tier && is_status_condition_true available p.status.conditions

  -- The loop that fills the map.
  unfoldable pub rooms_of : String → List StoragePool → List Room → List Room
  rooms_of tier [] rs = rs
  rooms_of tier (p ∷ ps) rs =
      rooms_of tier ps
        (if is_eligible tier p then put_room p.spec.node (value_of p.status.free) rs else rs)

  unfoldable pub pick_among : Replies → Pvc → StorageClass → List StoragePool → Picked
  pick_among io pvc sc pools =
      if not (pvc.annotation pool_annotation == "")
      then picked (pinned_node (pvc.annotation pool_annotation) pools)
      else pick_live
          (live_rooms io.get_node (rooms_of (tier_or_default sc.tier_parameter) pools []))

  unfoldable pub pick_node : Replies → Pvc → StorageClass → ListReply StoragePool → Picked
  pick_node io pvc sc (list_failed e) = pick_failed e
  pick_node io pvc sc (items pools) = pick_among io pvc sc pools

  -- The patch of the one annotation: the node that it sets, if any, and its outcome.
  unfoldable pub bind : Replies → Picked → Option String × Outcome
  bind io (pick_failed e) = (none, failed e)
  bind io (picked node) = if node == "" then (none, done) else (
    some node,
    elim io.patch [
      | written ↦ done
      | conflict ↦ failed (write_error conflict)
      | already_exists ↦ failed (write_error already_exists)
      | write_not_found ↦ failed (write_error write_not_found)
      | write_failed e ↦ failed e
    ],
  )

  unfoldable pub bind_class : Replies → Pvc → ClassReply → Option String × Outcome
  bind_class io pvc no_class = (none, done)
  bind_class io pvc (class_failed e) = (none, failed e)
  bind_class io pvc (class sc) = bind io (pick_node io pvc sc io.list_pools)

  unfoldable pub bind_claim : Replies → Pvc → Option String × Outcome
  bind_claim io pvc =
      if not (host_claim_pending pvc) then (none, done) else bind_class io pvc (wffc_class io pvc)

  -- `ClaimBinder.Reconcile`.
  unfoldable pub reconcile : Replies → Option String × Outcome
  reconcile io = elim io.get_pvc [
    | get_not_found ↦ (none, done)
    | get_failed e ↦ (none, failed e)
    | found pvc ↦ bind_claim io pvc
  ]
