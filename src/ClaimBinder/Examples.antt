-- ===== src/ClaimBinder/Examples.antt =====
-- A claim of the tier `ssd`, with a pool on each of two nodes.
use stornas.Base.{ℕ, String, ◌≡◌, refl, false, some, List, [], ◌∷◌, ◌==◌, if◌then◌else◌, ne_of_test}
use stornas.Kube.{available, condition_true, found, get_not_found, GetReply, items, written}
use stornas.Kube.Concrete.{concrete}
use stornas.Nodes.{Node, node_gone_or_unready, node_ready, ready_from}
use stornas.Claim.{Pvc, driver_name}
use stornas.StoragePool.{StoragePool}
use stornas.ClaimBinder.{
  Replies, StorageClass, wait_for_first_consumer, consumer_annotation, consumer_host, put_room,
  goes_first, insert_room, sort_rooms, live_rooms, picked, pick_live, is_eligible, rooms_of,
  pick_among, reconcile, bind_claim, bind_class, bind, pick_node, wffc_class, named_class, class_of,
  host_claim_pending,
}
use stornas.ClaimBinder.Choice.{IsRoomiest, pick_among-IsRoomiest}
use stornas.Samples.{tank, meta_of, condition_of, node_of}

pick_runs : Unit {0}
unfolding pick_among pick_live sort_rooms insert_room goes_first put_room live_rooms rooms_of
    is_eligible node_gone_or_unready node_ready ready_from reconcile bind_claim bind_class bind
    pick_node wffc_class named_class class_of host_claim_pending
pick_runs = tt

abbrev pool_on : String → String → ℕ → StoragePool
pool_on name node free = record tank {
  meta = meta_of name false [];
  spec = record tank.spec { node = node };
  status = record tank.status {
    conditions = condition_of available condition_true ∷ [];
    free = some free;
  };
}

abbrev pools : List StoragePool
pools = pool_on "small" "a" 100 ∷ pool_on "big" "b" 300 ∷ pool_on "other" "a" 200 ∷ []

abbrev ssd : StorageClass
ssd = record {
  provisioner = driver_name;
  binding_mode = some wait_for_first_consumer;
  tier_parameter = "ssd";
}

abbrev waiting : Pvc
waiting = record {
  meta = meta_of "data" false [];
  annotation = λ k. if k == consumer_annotation then consumer_host else "";
  volume_name = "";
  storage_class_name = some "stornas-local-ssd";
}

abbrev up : String → GetReply Node
up name = found (node_of name condition_true)

abbrev replies : Replies
replies = record {
  get_pvc = found waiting;
  get_class = λ name. found ssd;
  list_pools = items pools;
  get_node = up;
  patch = written;
}

picks : pick_among concrete replies waiting ssd pools ≡ picked "b"
unfolding pick_runs
picks = refl

-- The whole pass sets that node, and the loss of the node moves the choice.
binds :
    ((reconcile concrete replies).0 ≡ some "b")
    × ((reconcile concrete
          (record replies { get_node = λ n. if n == "b" then get_not_found else up n })).0
        ≡ some "a")
unfolding pick_runs
binds = (refl, refl)

pick_among-IsRoomiest_example : IsRoomiest concrete "ssd" up pools "b"
pick_among-IsRoomiest_example =
    pick_among-IsRoomiest concrete replies waiting ssd pools "b" refl picks (ne_of_test "b" "" refl)
