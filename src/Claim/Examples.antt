-- ===== src/Claim/Examples.antt =====
-- A claim that is bound to an r-drbd volume.
use stornas.Base.{◌≡◌, ◌↔◌}
use stornas.Claim.{Backs, usable, claim_volume}
use stornas.Claim.Serving.{claim_volume_iff}
use stornas.Samples.{replicated_volume, cluster_reader}

claim_volume_iff_example :
    (claim_volume cluster_reader "nas" "data" ≡ usable replicated_volume)
    ↔ Backs cluster_reader "nas" "data" replicated_volume
claim_volume_iff_example = claim_volume_iff cluster_reader "nas" "data" replicated_volume
