-- ===== src/Volume.antt =====
-- operator/api/rdrbd/v1alpha1/volume_types.go: the r-drbd Volume as the operator reads it.
use stornas.Base.{
  ℕ, String, Bool, true, false, ◌&&◌, Option, none, some, List, [], ◌∷◌, ◌==◌, if◌then◌else◌,
}

pub data Role : Type 0 where
  diskful diskless tiebreaker : Role

pub record AssignedReplica : Type 0 where
  pub node : String
  pub pool : String
  pub node_id : ℕ
  pub role : Role

pub record ReplicaStatus : Type 0 where
  pub node : String
  pub present : Bool
  pub disk_state : String
  pub sync_percent : Option ℕ
  pub in_use : Bool
  pub quorum : Option Bool
  pub device_path : String

-- `assignment` is the nil pointer or the list of `Spec.Assignment.Replicas`.
pub record Volume : Type 0 where
  pub name : String
  pub assignment : Option (List AssignedReplica)
  pub primary : String
  pub replicas : List ReplicaStatus

unfoldable pub is_diskful_role : Role → Bool
is_diskful_role diskful = true
is_diskful_role diskless = false
is_diskful_role tiebreaker = false

-- The loop of `Diskful` over the assignment.
unfoldable pub diskful_among : List AssignedReplica → String → Bool
unfolding is_diskful_role
diskful_among [] node = false
diskful_among (r ∷ rs) node =
    if r.node == node && is_diskful_role r.role then true else diskful_among rs node

-- `Volume.Diskful`.
unfoldable pub is_diskful : Volume → String → Bool
unfolding diskful_among
is_diskful v node = elim v.assignment [ none ↦ false | some rs ↦ diskful_among rs node ]
