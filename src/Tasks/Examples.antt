-- ===== src/Tasks/Examples.antt =====
-- A feed with one operation and one merge, and the branch of a proposal.
use stornas.Base.{◌≤◌, ◌≡◌, refl, true, List, [], ◌∷◌, ◌<>◌, ne_of_test, length, take}
use stornas.EventBus.{new_bus, publish, bump, wake_all}
use stornas.Tasks.{
  Op, Merge, new_feed, ops_cap, cut_ring, record_op, put_merge, prune, record_merge, insert_merge,
  sorted_merges, cut_slash, merge_author,
}
use stornas.Tasks.Ring.{Event, does_op, merges_at, run_events, history, ops-history}
use stornas.Tasks.Author.{merge_author-branch}

feed_runs : Unit {0}
unfolding cut_ring record_op put_merge prune record_merge insert_merge sorted_merges cut_slash
    merge_author publish bump wake_all
feed_runs = tt

abbrev restart : Op
restart = record {
  verb = "restart";
  namespace = "vms";
  name = "web";
  by = "bob";
  succeeded = true;
  at = 5;
}

abbrev merge : Merge
merge = record { repo_url = "r"; number = 7; url = "u"; title = "t"; by = "eve"; at = 6 }

abbrev events : List Event
events = merges_at 8 merge ∷ does_op restart ∷ []

ops-history_example :
    ((run_events events (new_feed new_bus)).ops ≡ take ops_cap (history events))
    × (length (run_events events (new_feed new_bus)).ops ≤ ops_cap)
ops-history_example = ops-history new_bus events

-- A merge that is over an hour old is dropped.
drops_old : (record_merge 3600000000007 merge (new_feed new_bus)).merges ≡ []
unfolding feed_runs
drops_old = refl

keeps_new : sorted_merges (record_merge 3600000000006 merge (new_feed new_bus)).merges ≡ merge ∷ []
unfolding feed_runs
keeps_new = refl

merge_author-branch_example :
    merge_author (("dotvirt" <> "/") <> ("bob" <> ("/" <> "resize"))) "dotvirt" "bot" ≡ "bob"
merge_author-branch_example =
    merge_author-branch "dotvirt" "bob" "resize" "bot" (ne_of_test _ _ refl) (ne_of_test _ _ refl)
      (refl, (refl, (refl, tt)))
