-- ===== src/Samples.antt =====
-- Test data that the examples share: a three-node cluster whose node `a` is down, and a replicated
-- volume with its claim.
use stornas.Chap.{Secret}
use stornas.Share.{exported}
use stornas.Target.{Target}
use stornas.Base.{String, Bool, true, false, none, some, List, [], ◌∷◌, ◌==◌, if◌then◌else◌}
use stornas.StoragePool.{StoragePool}
use stornas.Registrar.{RdrbdPool}
use stornas.Kube.{
  available, host_ready, ObjectMeta, found, get_not_found, ListReply, items, condition_true,
  condition_false, Condition, ConditionType, ConditionStatus, ready,
}
use stornas.Nodes.{Node, unready_nodes, down_among, node_ready, node_gone_or_unready}
use stornas.Volume.{Volume, ReplicaStatus, AssignedReplica, diskful, tiebreaker, is_diskful}
use stornas.Claim.{
  Reader, Pvc, driver_name, claim_volume, volume_of_pv, volume_of_csi, volume_of_handle,
}
use stornas.Placement.{
  resolve_placement, candidates, candidate_of, is_candidate, pick_from, beats, replica_count,
}

abbrev pub meta_of : String → Bool → List String → ObjectMeta
meta_of name deleting finalizers = record {
  name = name;
  namespace = "nas";
  generation = 1;
  deleting = deleting;
  finalizers = finalizers;
}

abbrev pub condition_of : ConditionType → ConditionStatus → Condition
condition_of kind status = record {
  kind = kind;
  status = status;
  reason = ready;
  message = "";
  observed_generation = 1;
}

abbrev pub replica : String → String → Bool → ReplicaStatus
replica node state in_use = record {
  node = node;
  present = true;
  disk_state = state;
  sync_percent = none;
  in_use = in_use;
  quorum = none;
  device_path = "/dev/drbd1000";
}

abbrev pub assigned : List AssignedReplica
assigned =
    record { node = "a"; pool = "p"; node_id = 0; role = diskful }
    ∷ record { node = "b"; pool = "p"; node_id = 1; role = diskful }
    ∷ record { node = "c"; pool = ""; node_id = 2; role = tiebreaker }
    ∷ []

-- A replicated volume that is open at `a`.
abbrev pub replicated_volume : Volume
replicated_volume = record {
  name = "pvc-7";
  assignment = some assigned;
  primary = "a";
  replicas =
      replica "a" "UpToDate" true
      ∷ replica "b" "UpToDate" false
      ∷ replica "c" "Diskless" false
      ∷ [];
}

abbrev pub node_of : String → ConditionStatus → Node
node_of name status = record {
  name = name;
  conditions = record { kind = "Ready"; status = status } ∷ [];
}

abbrev pub nodes_a_down : ListReply Node
nodes_a_down =
    items
      (node_of "a" condition_false ∷ node_of "b" condition_true ∷ node_of "c" condition_true ∷ [])

abbrev pub nodes_up : ListReply Node
nodes_up =
    items
      (node_of "a" condition_true ∷ node_of "b" condition_true ∷ node_of "c" condition_true ∷ [])

abbrev pub data_claim : Pvc
data_claim = record {
  meta = meta_of "data" false [];
  annotation = λ k. "";
  volume_name = "pvc-7";
  storage_class_name = none;
}

-- The claim `data` is bound to the volume; no other claim exists.
abbrev pub cluster_reader : Reader
cluster_reader = record {
  get_pvc = λ ns n. if n == "data" then found data_claim else get_not_found;
  get_pv = λ n. found (record {
    csi = some (record { driver = driver_name; volume_handle = n });
    claim_ref = none;
  });
  get_volume = λ n. found replicated_volume;
}

-- A mirrored pool at node `a`, and the r-drbd Pool that it is registered as.
abbrev pub tank : StoragePool
tank = record {
  meta = meta_of "tank" false [];
  spec = record {
    node = "a";
    devices = "/dev/disk/by-id/x" ∷ "/dev/disk/by-id/y" ∷ [];
    tier = "ssd";
    raid = "raid1";
    thin = none;
  };
  status = record {
    conditions = condition_of host_ready condition_true ∷ [];
    vg = "stornas-tank";
    capacity = none;
    free = none;
    health = "Online";
    devices = [];
    rebuild_percent = none;
  };
}

abbrev pub tank_pool : RdrbdPool
tank_pool = record {
  name = "tank";
  deleting = false;
  spec = record {
    node = "a";
    tier = "ssd";
    vg = "stornas-tank";
    thin_pool = "thin";
    overcommit_percent = none;
    reserve_percent = none;
  };
  volumes = [];
  conditions = condition_of available condition_true ∷ [];
}

-- Opens what a test of a reconciler computes through outside its own module.
unfoldable pub cluster_runs : Unit {0}
unfolding resolve_placement candidates candidate_of is_candidate is_diskful pick_from beats
    replica_count claim_volume volume_of_pv volume_of_csi volume_of_handle unready_nodes down_among
    node_ready node_gone_or_unready
cluster_runs = tt

-- A target that is exported at "a", and the Secret of its first initiator; that of the second is absent.
abbrev pub exported_db : String → Target
exported_db device = record {
  meta = meta_of "db" false [];
  spec = record {
    vip = "";
    luns = record { id = 0; claim_name = "data" } ∷ [];
    initiators =
        record { iqn = "iqn.x"; chap_secret_ref = "chap" }
        ∷ record { iqn = "iqn.y"; chap_secret_ref = "lost" }
        ∷ [];
  };
  status = record {
    conditions = [];
    iqn = "iqn.2026-08.io.stornas:db";
    active_node = "a";
    luns = record { id = 0; device = device } ∷ [];
    chap_secret_versions = [];
    sessions = 0;
    state = exported;
  };
}

abbrev pub chap_secret : Secret
chap_secret = record {
  resource_version = "12";
  value = λ k. if k == "username" then "u" else if k == "password" then "pw" else "";
}
