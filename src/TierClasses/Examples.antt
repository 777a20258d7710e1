-- ===== src/TierClasses/Examples.antt =====
-- A pool of the tier `ssd` beside the classes of a tier that has lost its last pool.
use stornas.Base.{String, ◌≡◌, refl, true, none, some, List, [], ◌∷◌, ◌==◌, if◌then◌else◌}
use stornas.Kube.{found, items, written, already_exists, local_class, replicated_class}
use stornas.StoragePool.{StoragePool}
use stornas.TierClasses.{
  StorageClass, Replies, creates, deletes, tier_classes, is_cloned, note_tier, tiers_of, set_param,
  clone, followed_by, create_clone, create_error, ensure_clone, ensure_tier, ensure_tiers,
  delete_error, is_unused, drop_outdated, drop_listed, reconcile_pools, reconcile,
}
use stornas.TierClasses.Exact.{IsExact, reconcile-IsExact}
use stornas.Samples.{tank}

pass_runs : Unit {0}
unfolding tier_classes is_cloned note_tier tiers_of set_param clone followed_by create_clone
    create_error ensure_clone ensure_tier ensure_tiers delete_error is_unused drop_outdated
    drop_listed reconcile_pools reconcile
pass_runs = tt

abbrev shipped : String → StorageClass
shipped name = record {
  name = name;
  tier_label = none;
  parameters = ("tier", "default") ∷ ("fs", "xfs") ∷ [];
  policy = record {
    provisioner = "r-drbd.io";
    reclaim_policy = some "Delete";
    mount_options = [];
    allow_volume_expansion = some true;
    volume_binding_mode = some "WaitForFirstConsumer";
  };
}

abbrev labelled : String → String → StorageClass
labelled name tier = record (shipped name) { tier_label = some tier }

abbrev cluster : Replies
cluster = record {
  pools = items (tank ∷ tank ∷ []);
  get_class = λ n. found (shipped n);
  create_class = λ n. if n == "stornas-local-ssd" then already_exists else written;
  classes = items (labelled "stornas-local-ssd" "ssd" ∷ labelled "stornas-local-hdd" "hdd" ∷ []);
  delete_class = λ n. written;
}

writes_once :
    (reconcile cluster).0
    ≡ creates (clone (shipped local_class) "stornas-local-ssd" "ssd")
      ∷ creates (clone (shipped replicated_class) "stornas-replicated-ssd" "ssd")
      ∷ deletes (labelled "stornas-local-hdd" "hdd")
      ∷ []
unfolding pass_runs
writes_once = refl

ends_well : (reconcile cluster).1 ≡ none
unfolding pass_runs
ends_well = refl

reconcile-IsExact_example :
    (ps : List StoragePool) × (cs : List StorageClass) × (cluster.pools ≡ items ps)
    × (cluster.classes ≡ items cs)
    × IsExact cluster ps cs (reconcile cluster).0
reconcile-IsExact_example = reconcile-IsExact cluster ends_well
