-- ===== src/Watches/Examples.antt =====
-- A volume whose claim two LUNs of one target expose.
use stornas.Base.{String, ◌≡◌, refl, ◌↔◌, none, some, [], ◌∷◌, ◌==◌, if◌then◌else◌, In}
use stornas.Kube.{ListReply, items, list_failed, found}
use stornas.Claim.{Reader, volume_claim}
use stornas.Target.{Target}
use stornas.Watches.{volume_targets, targets_of_claim, all_targets}
use stornas.Watches.Wakes.{Concerns, volume_targets_iff}
use stornas.Samples.{cluster_reader, exported_db}

watch_runs : Unit {0}
unfolding volume_targets targets_of_claim all_targets volume_claim
watch_runs = tt

abbrev bound_reader : Reader
bound_reader = record cluster_reader {
  get_pv = λ n.
      found (record { csi = none; claim_ref = some (record { namespace = "nas"; name = "data" }) });
}

abbrev targets_in : String → ListReply Target
targets_in ns =
    if ns == "nas"
    then items (exported_db "/dev/drbd1000" ∷ [])
    else list_failed "no such namespace"

wakes_db : volume_targets bound_reader targets_in "pvc-7" ≡ ("nas", "db") ∷ []
unfolding watch_runs
wakes_db = refl

volume_targets_iff_example : In ("nas", "db") (volume_targets bound_reader targets_in "pvc-7") ↔ (
    (t : Target) × Concerns bound_reader targets_in "pvc-7" t
    × (◌≡◌ {A = String × String} ("nas", "db") (t.meta.namespace, t.meta.name)))
volume_targets_iff_example = volume_targets_iff bound_reader targets_in "pvc-7" ("nas", "db")
