-- ===== src/TargetAgent/Examples.antt =====
-- A target that is exported with what its Secrets hold, and one whose device changes and back.
use stornas.Base.{
  String, ◌≡◌, refl, ◌≢◌, none, some, List, [], ◌∷◌, ◌==◌, if◌then◌else◌, ◌<>◌, ne_of_test, here,
}
use stornas.Kube.{found, get_not_found, written, done, failed}
use stornas.Kube.Concrete.{concrete}
use stornas.Chap.{chap_credentials}
use stornas.Target.{Target}
use stornas.Host.{Runner, ran, run_failed}
use stornas.Vip.{IpJson}
use stornas.Lio.{Credentials}
use stornas.Lio.Examples.{lio_runs}
use stornas.TargetAgent.{
  Reads, State, note_secret, resolve_from, add_luns, resolve, tear_down, with_host_status, conclude,
  report, export, reconcile_here, reconcile_live, reconcile_found, reconcile,
}
use stornas.TargetAgent.Live.{IsExported, host_ready-IsExported}
use stornas.TargetAgent.Cache.{key_outlives_failure}
use stornas.Samples.{exported_db, chap_secret}

agent_runs : Unit {0}
unfolding lio_runs note_secret resolve_from add_luns resolve tear_down with_host_status conclude
    report export reconcile_here reconcile_live reconcile_found reconcile chap_credentials
agent_runs = tt

abbrev no_ip : IpJson
no_ip = record { links = λ s. none; routes = λ s. none }

abbrev reads_of : Target → Reads
reads_of t = record {
  get_target = found t;
  get_secret = λ ns name. if name == "chap" then found chap_secret else get_not_found;
  update_status = written;
}

-- A host where all succeeds, and one where targetcli fails.
abbrev host : Runner
host log c = ran ""

abbrev broken_host : Runner
broken_host log c = run_failed "" "exit 1"

abbrev fresh : State
fresh = record { applied = λ ns name. ""; log = [] }

abbrev old : Target
old = exported_db "/dev/drbd1000"

abbrev new : Target
new = exported_db "/dev/drbd1001"

abbrev first_or : Target → List Target → Target
first_or t [] = t
first_or t (w ∷ ws) = w

abbrev reported : Target
reported =
    first_or old (reconcile concrete no_ip host "" "a" "nas" "db" (reads_of old) fresh).writes

host_ready-IsExported_example :
    (old.status.active_node ≡ "a")
    × (old.status.luns ≢ [])
    × IsExported concrete no_ip host "" "a" old
        (reads_of old).get_secret
        fresh.log
        (reconcile concrete no_ip host "" "a" "nas" "db" (reads_of old) fresh).state.log
unfolding agent_runs
host_ready-IsExported_example =
    host_ready-IsExported concrete no_ip host "" "a" "nas" "db" old reported (reads_of old) fresh
      refl refl (here refl) refl

abbrev key_of : String → String
key_of device = "g1|0:" <> device <> "|chap:12|lost:absent"

abbrev credentials : Credentials
credentials k = if k == "iqn.x" then some (record { user = "u"; password = "pw" }) else none

abbrev applied_old : State
applied_old = record {
  applied = λ ns name. if name == "db" then key_of "/dev/drbd1000" else "";
  log = [];
}

key_outlives_failure_example :
    let r = reconcile concrete no_ip broken_host "" "a" "nas" "db" (reads_of new) applied_old in
    (r.outcome ≡ failed "exit 1")
    × (reconcile concrete no_ip broken_host "" "a" "nas" "db" (reads_of old) r.state
        ≡ record { state = r.state; writes = []; outcome = done })
unfolding agent_runs
key_outlives_failure_example =
    key_outlives_failure concrete no_ip broken_host "" "a" "nas" "db" (key_of "/dev/drbd1000")
      (key_of "/dev/drbd1001") "exit 1" old new credentials credentials (reads_of old)
      (reads_of new) applied_old
      (record {
        was_read = refl;
        is_live = refl;
        is_placed = refl;
        has_luns = refl;
        has_key = refl;
      })
      (record {
        was_read = refl;
        is_live = refl;
        is_placed = refl;
        has_luns = refl;
        has_key = refl;
      })
      (refl, refl) refl (ne_of_test _ _ refl) refl refl
