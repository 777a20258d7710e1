-- ===== src/Target/Examples.antt =====
-- A target with one replicated LUN and a VIP.
use stornas.Base.{false, List, [], ◌∷◌, ◌==◌, if◌then◌else◌}
use stornas.Kube.{condition_true, host_ready, found, get_not_found, written, teardown_finalizer}
use stornas.Kube.Concrete.{concrete}
use stornas.Share.{exported, has_moved}
use stornas.Target.{
  Target, Replies, Write, update_target, update_target_status, reconcile_live, finish, pass,
  chap_secrets, chap_secrets_from, check_secret, with_iqn, place_with, place, volumes_of,
  locate_rest, with_placement, availability, with_condition, not_available,
}
use stornas.Chap.{chap_credentials, Secret}
use stornas.Samples.{meta_of, condition_of, nodes_up, cluster_reader, cluster_runs}

pass_runs : Unit {0}
unfolding reconcile_live finish pass chap_secrets chap_secrets_from check_secret with_iqn place_with
    place volumes_of locate_rest with_placement availability with_condition not_available
    chap_credentials has_moved cluster_runs
pass_runs = tt

abbrev secret : Secret
secret = record { resource_version = "12"; value = λ k. if k == "username" then "u" else "pw" }

abbrev db : Target
db = record {
  meta = meta_of "db" false (teardown_finalizer ∷ []);
  spec = record {
    vip = "10.0.0.9/24";
    luns = record { id = 0; claim_name = "data" } ∷ [];
    initiators =
        record { iqn = "iqn.x"; chap_secret_ref = "s" }
        ∷ record { iqn = "iqn.y"; chap_secret_ref = "s" }
        ∷ [];
  };
  status = record {
    conditions = condition_of host_ready condition_true ∷ [];
    iqn = "";
    active_node = "a";
    luns = [];
    chap_secret_versions = [];
    sessions = 0;
    state = exported;
  };
}

abbrev world : Replies
world = record {
  get_target = found db;
  get_secret = λ ns n. found secret;
  reader = cluster_reader;
  list_nodes = nodes_up;
  get_node = λ n. get_not_found;
  update = written;
  update_status = written;
}

-- The status that a pass writes.
abbrev status_in : List Write → Target → Target
status_in [] t = t
status_in (update_target w ∷ ws) t = status_in ws t
status_in (update_target_status w ∷ ws) t = w

abbrev reported : Target
reported = status_in (reconcile_live concrete db world).0 db
