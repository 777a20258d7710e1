-- ===== src/Share/Examples.antt =====
-- A share that fails over from `a` to `b`, one that is served, and one that is torn down.
use stornas.Base.{
  ◌≡◌, refl, ◌∙◌, Bool, true, false, none, List, [], ◌∷◌, if◌then◌else◌, test_of_eq, In, here,
}
use stornas.Kube.{
  condition_true, available, host_ready, found, get_not_found, written, teardown_finalizer, is_true,
}
use stornas.Kube.Concrete.{concrete}
use stornas.Share.{
  Share, Replies, Write, update_share, update_share_status, exported, reconcile, reconcile_found,
  reconcile_live, finish, pass, place_with, place, with_placement, availability, with_condition,
  not_available, reset_host_ready, moved_to, has_moved,
}
use stornas.Share.Honest.{IsServed, available_IsServed}
use stornas.Share.Moves.{moved_is_unavailable}
use stornas.Samples.{meta_of, condition_of, nodes_a_down, nodes_up, cluster_reader, cluster_runs}

reconcile_runs : Unit {0}
unfolding reconcile reconcile_found reconcile_live finish pass place_with place with_placement
    availability with_condition not_available reset_host_ready moved_to has_moved
reconcile_runs = tt

-- Exported at `a`, whose agent has confirmed.
abbrev share_at_a : Share
share_at_a = record {
  meta = meta_of "media" false (teardown_finalizer ∷ []);
  spec = record { claim_name = "data"; nfs = none; smb = none };
  status = record {
    conditions = condition_of host_ready condition_true ∷ [];
    node = "a";
    device = "/dev/drbd1000";
    state = exported;
  };
}

abbrev world : Share → Bool → Replies
world s a_is_down = record {
  get_share = found s;
  reader = cluster_reader;
  list_nodes = if a_is_down then nodes_a_down else nodes_up;
  get_node = λ n. get_not_found;
  update = written;
  update_status = written;
}

-- The status that a pass writes.
abbrev status_in : List Write → Share → Share
status_in [] s = s
status_in (update_share w ∷ ws) s = status_in ws s
status_in (update_share_status w ∷ ws) s = w

abbrev failed_over : Share
failed_over = status_in (reconcile concrete (world share_at_a true)).0 share_at_a

abbrev served : Share
served = status_in (reconcile concrete (world share_at_a false)).0 share_at_a

writes_failover :
    In (update_share_status failed_over) (reconcile concrete (world share_at_a true)).0
unfolding cluster_runs reconcile_runs
writes_failover = here refl

writes_served : In (update_share_status served) (reconcile concrete (world share_at_a false)).0
unfolding cluster_runs reconcile_runs
writes_served = here refl

served_available :
    is_true (concrete.find_status_condition available served.status.conditions) ≡ true
unfolding cluster_runs reconcile_runs
served_available = refl

moves_to_b : failed_over.status.node ≡ "b"
unfolding cluster_runs reconcile_runs
moves_to_b = refl

available_IsServed_example : IsServed concrete (world share_at_a false) share_at_a served
available_IsServed_example =
    available_IsServed concrete (world share_at_a false) share_at_a served refl writes_served
      served_available

moved_is_unavailable_example :
    (is_true (concrete.find_status_condition available failed_over.status.conditions) ≡ false)
    × (is_true (concrete.find_status_condition host_ready failed_over.status.conditions) ≡ false)
moved_is_unavailable_example =
    moved_is_unavailable concrete (world share_at_a true) share_at_a failed_over refl
      writes_failover (λ e. cc (test_of_eq "a" "" e))
      (λ e. cc (test_of_eq "a" "b" (e ∙ moves_to_b)))
