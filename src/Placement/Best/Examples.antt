-- ===== src/Placement/Best/Examples.antt =====
-- A volume with two diskful replicas and a tiebreaker, whose primary is down.
use stornas.Base.{ℕ, String, ◌≡◌, refl, ◌↔◌, Bool, true, ◌==◌, In}
use stornas.Volume.{ReplicaStatus, is_diskful}
use stornas.Placement.{
  resolve_placement, placed, no_replica, candidates, candidate_of, is_candidate, pick_from, beats,
  replica_count,
}
use stornas.Placement.Best.{CanServe, IsPreferred, resolve-IsPreferred, resolve_fails_iff}
use stornas.Samples.{replicated_volume}

abbrev without_a : String → Bool
without_a n = n == "a"

abbrev all_down : String → Bool
all_down n = true

moves_off_dead_primary :
    resolve_placement replicated_volume "a" without_a ≡ placed "b" "/dev/drbd1000" 2
unfolding resolve_placement candidates candidate_of is_candidate is_diskful pick_from beats
    replica_count
moves_off_dead_primary = refl

resolve-IsPreferred_example :
    (r : ReplicaStatus) × In r replicated_volume.replicas
    × (r.node ≡ "b")
    × (r.device_path ≡ "/dev/drbd1000")
    × IsPreferred replicated_volume "a" without_a r
resolve-IsPreferred_example =
    resolve-IsPreferred replicated_volume "a" without_a "b" "/dev/drbd1000" 2 moves_off_dead_primary

resolve_fails_iff_example :
    ((n : ℕ) × (msg : String) × (resolve_placement replicated_volume "a" all_down
        ≡ no_replica n msg))
    ↔ ((r : ReplicaStatus)
        → In r replicated_volume.replicas
        → ¬ (CanServe replicated_volume all_down r))
resolve_fails_iff_example = resolve_fails_iff replicated_volume "a" all_down
