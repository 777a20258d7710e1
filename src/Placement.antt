-- ===== src/Placement.antt =====
-- operator/internal/rdrbd/resolver.go: which node serves a volume, and from which device.
pub mod Best
use stornas.Base.{
  ℕ, ◌+◌, String, Bool, true, not, ◌&&◌, ◌||◌, Option, none, some, List, [], ◌∷◌, ◌==◌, ltb,
  if◌then◌else◌, ◌<>◌,
}
use stornas.Volume.{AssignedReplica, ReplicaStatus, Volume, is_diskful_role, is_diskful}

pub record Candidate : Type 0 where
  pub node : String
  pub device : String
  pub in_use : Bool
  pub up_to_date : Bool

-- The test of the first loop, with its `continue` turned round.
unfoldable pub is_candidate : Volume → ReplicaStatus → Bool
is_candidate v r = r.present && not (r.device_path == "") && is_diskful v r.node

unfoldable pub candidate_of : Volume → ReplicaStatus → Candidate
candidate_of v r = record {
  node = r.node;
  device = r.device_path;
  in_use = r.in_use || v.primary == r.node;
  up_to_date = r.disk_state == "UpToDate";
}

-- The first loop of `ResolvePlacement`.
unfoldable pub candidates : Volume → List ReplicaStatus → List Candidate
candidates v [] = []
candidates v (r ∷ rs) =
    if is_candidate v r then candidate_of v r ∷ candidates v rs else candidates v rs

unfoldable pub count_diskful : List AssignedReplica → ℕ
count_diskful [] = 0
count_diskful (a ∷ rest) =
    if is_diskful_role a.role then count_diskful rest + 1 else count_diskful rest

-- The second loop: the number of diskful copies.
unfoldable pub replica_count : Volume → ℕ
unfolding count_diskful
replica_count v = elim v.assignment [ none ↦ 0 | some rs ↦ count_diskful rs ]

unfoldable pub score : String → Candidate → ℕ
score prefer c =
    let s : ℕ = if c.up_to_date then 4 else 0 in
    if c.in_use then s + 2 else if c.node == prefer then s + 1 else s

-- Whether the third loop takes `c` in place of what it holds.
unfoldable pub beats : String → Candidate → Option Candidate → Bool
unfolding score
beats prefer c none = true
beats prefer c (some best) = ltb (score prefer best) (score prefer c)

-- The third loop; `none` is `pick == -1`.
unfoldable pub pick_from :
    String → (String → Bool) → Option Candidate → List Candidate → Option Candidate
pick_from prefer avoid best [] = best
pick_from prefer avoid best (c ∷ cs) =
    pick_from prefer avoid
      (if avoid c.node then best else if beats prefer c best then some c else best) cs

pub data Resolved : Type 0 where
  placed : String → String → ℕ → Resolved
  no_replica : ℕ → String → Resolved

unfoldable pub resolved_of : Volume → Option Candidate → Resolved
resolved_of v none =
    no_replica (replica_count v)
      ("volume " <> v.name <> " has no healthy diskful replica with a device")
resolved_of v (some c) = placed c.node c.device (replica_count v)

-- `ResolvePlacement`.
unfoldable pub resolve_placement : Volume → String → (String → Bool) → Resolved
unfolding resolved_of
resolve_placement v prefer avoid =
    resolved_of v (pick_from prefer avoid none (candidates v v.replicas))
