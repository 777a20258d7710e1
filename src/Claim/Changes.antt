-- ===== src/Claim/Changes.antt =====
-- operator/internal/controller/claim.go: the updates of a Volume that the controllers look at. A map
-- from nodes is the list that it is made of, where the last entry of a node counts.
pub mod Maps
pub mod Placement
pub mod Examples
use stornas.Base.{
  ℕ, String, Bool, true, false, not, ◌&&◌, Option, none, some, List, [], ◌∷◌, ◌++◌, map, ◌==◌,
  nat_eq, if◌then◌else◌, all,
}
use stornas.Volume.{Role, diskful, diskless, tiebreaker, AssignedReplica, ReplicaStatus, Volume}

abbrev pub role_index : Role → ℕ
role_index diskful = 0
role_index diskless = 1
role_index tiebreaker = 2

abbrev pub same_bool : Bool → Bool → Bool
same_bool true b = b
same_bool false b = not b

abbrev pub assigned_of : Option (List AssignedReplica) → List AssignedReplica
assigned_of none = []
assigned_of (some rs) = rs

-- The map `roles` of a key, at a node.
unfoldable pub role_at : String → List AssignedReplica → Option Role
role_at n [] = none
role_at n (r ∷ rs) = elim (role_at n rs) [
  | some x ↦ some x
  | none ↦ if r.node == n then some r.role else none
]

-- The map `replicas` of a key, at a node.
unfoldable pub replica_at : String → List ReplicaStatus → Option ReplicaStatus
replica_at n [] = none
replica_at n (r ∷ rs) = elim (replica_at n rs) [
  | some x ↦ some x
  | none ↦ if r.node == n then some r else none
]

unfoldable pub same_role : Option Role → Option Role → Bool
same_role none none = true
same_role none (some b) = false
same_role (some a) none = false
same_role (some a) (some b) = nat_eq (role_index a) (role_index b)

-- The fields that the key keeps of a replica.
unfoldable pub same_replica : Option ReplicaStatus → Option ReplicaStatus → Bool
same_replica none none = true
same_replica none (some b) = false
same_replica (some a) none = false
same_replica (some a) (some b) =
    same_bool a.present b.present
    && same_bool a.in_use b.in_use
    && a.device_path == b.device_path
    && a.disk_state == b.disk_state

abbrev pub replica_nodes : Volume → List String
replica_nodes v = map ReplicaStatus.node v.replicas

abbrev pub assigned_nodes : Volume → List String
assigned_nodes v = map AssignedReplica.node (assigned_of v.assignment)

-- `reflect.DeepEqual` of the keys of two volumes: the maps agree at each node that one of them has.
unfoldable pub same_serving : Volume → Volume → Bool
same_serving old new =
    old.primary == new.primary
    && all
        (λ n.
          same_role (role_at n (assigned_of old.assignment))
            (role_at n (assigned_of new.assignment)))
        (assigned_nodes old ++ assigned_nodes new)
    && all (λ n. same_replica (replica_at n old.replicas) (replica_at n new.replicas))
        (replica_nodes old ++ replica_nodes new)

-- `volumeServingChanged`.
unfoldable pub volume_serving_changed : Volume → Volume → Bool
volume_serving_changed old new = not (same_serving old new)
