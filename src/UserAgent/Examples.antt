-- ===== src/UserAgent/Examples.antt =====
-- A user whose access is given, taken and, after a failed pass, not given again.
use stornas.Base.{String, ◌≡◌, refl, true, false, [], ◌∷◌, map, ◌==◌, if◌then◌else◌}
use stornas.Kube.{found, get_not_found, done, failed}
use stornas.Chap.{Secret, local_user_password}
use stornas.LocalUser.{LocalUser}
use stornas.Host.{Command, Runner, ran, run_failed, unless_failed}
use stornas.UserAgent.{
  smbpasswd_remove, smbstatus, Decoded, decoded, undecoded, State, reconcile, reconcile_wanted,
  reconcile_gone, outcome_of, wanted, want_secret, want_of, apply, applied_or_error,
  remove_smb_user, remove_entry, end_smb_sessions, smb_session_pids, pids_of, pids_of_decoded,
  pids_from, sort_texts, insert_text, end_sessions, shut_down, after_shutdown, check_left,
  left_over, ensure_smb_user, with_account, set_password,
}
use stornas.UserAgent.Revocation.{Revoked, remove_smb_user-Revoked}
use stornas.UserAgent.Passes.{Secrets, Settled, reconcile-Settled, removed_and_not_restored}
use stornas.Samples.{meta_of}

agent_runs : Unit {0}
unfolding reconcile reconcile_wanted reconcile_gone outcome_of wanted want_secret want_of apply
    applied_or_error remove_smb_user remove_entry end_smb_sessions smb_session_pids pids_of
    pids_of_decoded pids_from sort_texts insert_text end_sessions shut_down after_shutdown
    check_left left_over ensure_smb_user with_account set_password local_user_password unless_failed
agent_runs = tt

abbrev secret : Secret
secret = record { resource_version = "41"; value = λ k. if k == "password" then "pw" else "" }

abbrev bob : LocalUser
bob = record {
  meta = meta_of "bob" false [];
  spec = record { role = "viewer"; smb = true; password_secret_ref = "bob-password" };
  status = record { conditions = []; password_secret_version = "" };
}

abbrev secrets : Secrets
secrets ns name = if name == "bob-password" then found secret else get_not_found

-- Bob has two sessions, of processes 9 and 7, and the session of another user is of process 8.
abbrev sessions : String → Decoded
sessions out =
    if out == "{}"
    then decoded (
        record { username = "bob"; pid = "9" }
        ∷ record { username = "eve"; pid = "8" }
        ∷ record { username = "bob"; pid = "7" }
        ∷ [])
    else undecoded "no JSON"

-- A host where all commands succeed, and one where `smbstatus` fails.
abbrev host : Runner
host log c = if c.name == "smbstatus" then ran "{}" else ran ""

abbrev host_without_status : Runner
host_without_status log c = if c.name == "smbstatus" then run_failed "" "exit 1" else ran ""

abbrev fresh : State
fresh = record { applied = λ k. ""; log = [] }

abbrev applied_41 : State
applied_41 = record { applied = λ k. if k == "bob" then "41" else ""; log = [] }

remove_smb_user-Revoked_example :
    Revoked sessions host "bob" [] (remove_smb_user sessions host "bob" []).0
unfolding agent_runs
remove_smb_user-Revoked_example = remove_smb_user-Revoked sessions host "bob" [] refl

-- The processes are ended in order of their numbers.
ends_both :
    map Command.args (remove_smb_user sessions host "bob" []).0
    ≡ ("9" ∷ "shutdown" ∷ [])
      ∷ ("7" ∷ "shutdown" ∷ [])
      ∷ ("--processes" ∷ "--user" ∷ "bob" ∷ "--json" ∷ [])
      ∷ ("-x" ∷ "bob" ∷ [])
      ∷ []
unfolding agent_runs
ends_both = refl

reconcile-Settled_example :
    Settled sessions host bob secrets fresh
      (reconcile sessions host "bob" (found bob) secrets fresh).0
unfolding agent_runs
reconcile-Settled_example =
    reconcile-Settled sessions host bob secrets fresh "bob" (λ s h e. cc) refl

removed_and_not_restored_example :
    let off = record bob { spec = record bob.spec { smb = false } } in
    let st' = record applied_41 { log = smbstatus "bob" ∷ smbpasswd_remove "bob" ∷ [] } in
    (reconcile sessions host_without_status "bob" (found off) secrets applied_41
      ≡ (st', failed "exit 1"))
    × (reconcile sessions host_without_status "bob" (found bob) secrets st' ≡ (st', done))
unfolding agent_runs
removed_and_not_restored_example =
    removed_and_not_restored sessions host_without_status bob secrets applied_41 secret "" "exit 1"
      refl refl (cc) refl (cc) refl refl
