-- ===== src/Claim/Changes/Examples.antt =====
-- A replica of a Volume that resyncs: the update is dropped and moves nothing.
use stornas.Base.{◌≡◌, refl, false, some, List, [], ◌∷◌, ◌==◌}
use stornas.Volume.{ReplicaStatus, Volume}
use stornas.Placement.{resolve_placement}
use stornas.Claim.Changes.{
  volume_serving_changed, same_serving, same_role, role_at, same_replica, replica_at,
}
use stornas.Claim.Changes.Maps.{Distinct}
use stornas.Claim.Changes.Placement.{place_of, dropped_update_keeps_placement}
use stornas.Samples.{replicated_volume}

abbrev resync : List ReplicaStatus → List ReplicaStatus
resync [] = []
resync (r ∷ rs) = record r { sync_percent = some 40 } ∷ resync rs

abbrev resyncing : Volume
resyncing = record replicated_volume { replicas = resync replicated_volume.replicas }

resync_is_dropped : volume_serving_changed replicated_volume resyncing ≡ false
unfolding volume_serving_changed same_serving same_role role_at same_replica replica_at
resync_is_dropped = refl

three-Distinct : Distinct ("a" ∷ "b" ∷ "c" ∷ [])
three-Distinct = (refl, (refl, (refl, tt)))

dropped_update_keeps_placement_example :
    place_of (resolve_placement replicated_volume "b" (λ n. n == "c"))
    ≡ place_of (resolve_placement resyncing "b" (λ n. n == "c"))
dropped_update_keeps_placement_example =
    dropped_update_keeps_placement replicated_volume resyncing "b" (λ n. n == "c") three-Distinct
      three-Distinct three-Distinct three-Distinct refl resync_is_dropped
