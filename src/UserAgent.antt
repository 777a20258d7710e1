-- ===== src/UserAgent.antt =====
-- internal/agent/user_reconciler.go, and the SMB users of internal/agent/share.go: the samba passdb
-- of a node follows the LocalUsers and their Secrets.
pub mod Revocation
pub mod Passes
mod Examples
use stornas.Base.{
  String, Bool, true, false, not, ◌||◌, Option, none, some, List, [], ◌∷◌, ◌==◌, if◌then◌else◌,
  ◌<>◌, contains, join,
}
use Prim.Native.String.{compare}
use text.Mathlib.Text.{is_lt}
use stornas.Kube.{GetReply, found, get_not_found, get_failed, Outcome, done, failed}
use stornas.Chap.{Secret, read_secret, local_user_password}
use stornas.LocalUser.{LocalUser}
use stornas.Host.{
  command, command_with, Command, Reply, ran, run_failed, Log, Runner, unless, try, test, succeeds,
  unless_failed,
}
use stornas.Strings.{has_text}

abbrev pub id_of : String → Command
id_of user = command "id" ("-u" ∷ user ∷ [])

abbrev pub useradd : String → Command
useradd user = command "useradd" ("--no-create-home" ∷ "--shell" ∷ "/sbin/nologin" ∷ user ∷ [])

abbrev pub newline : String
newline = "\n"

abbrev pub smbpasswd_add : String → String → Command
smbpasswd_add user password =
    command_with (password <> newline <> password <> newline) "smbpasswd" ("-s" ∷ "-a" ∷ user ∷ [])

abbrev pub smbpasswd_remove : String → Command
smbpasswd_remove user = command "smbpasswd" ("-x" ∷ user ∷ [])

abbrev pub smbstatus : String → Command
smbstatus user = command "smbstatus" ("--processes" ∷ "--user" ∷ user ∷ "--json" ∷ [])

abbrev pub shutdown : String → Command
shutdown pid = command "smbcontrol" (pid ∷ "shutdown" ∷ [])

-- A session of the JSON of `smbstatus`, and what `json.Unmarshal` makes of the output.
pub record SmbSession : Type 0 where
  pub username : String
  pub pid : String

pub data Decoded : Type 0 where
  decoded : List SmbSession → Decoded
  undecoded : String → Decoded

-- `sort.Strings`.
unfoldable pub insert_text : String → List String → List String
insert_text s [] = s ∷ []
insert_text s (t ∷ ts) =
    let rest = insert_text s ts in if is_lt (compare t s) then t ∷ rest else s ∷ t ∷ ts

unfoldable pub sort_texts : List String → List String
sort_texts [] = []
sort_texts (s ∷ ss) = insert_text s (sort_texts ss)

-- The loop over the sessions: those of this user, each process once.
unfoldable pub pids_from : String → List String → List SmbSession → List String
pids_from user seen [] = []
pids_from user seen (s ∷ ss) = elim (not (s.username == user) || contains s.pid seen) [
  | true ↦ pids_from user seen ss
  | false ↦ s.pid ∷ pids_from user (s.pid ∷ seen) ss
]

-- `smbSessionPIDs`.
pub data Pids : Type 0 where
  pids : List String → Pids
  pids_failed : String → Pids

unfoldable pub pids_of_decoded : String → Decoded → Pids
pids_of_decoded user (decoded ss) = pids (sort_texts (pids_from user [] ss))
pids_of_decoded user (undecoded e) = pids_failed ("smbstatus: " <> e)

unfoldable pub pids_of : (String → Decoded) → String → Reply → Pids
pids_of decode user (run_failed out e) = pids_failed e
pids_of decode user (ran out) = pids_of_decoded user (decode out)

unfoldable pub left_over : String → Pids → Option String
left_over user (pids_failed e) = some e
left_over user (pids []) = none
left_over user (pids (p ∷ ps)) =
    some ("smb sessions of " <> user <> " still served by smbd " <> join " " (p ∷ ps))

module _ (decode : String → Decoded) (run : Runner) where
  -- `EnsureSMBUser`.
  unfoldable pub set_password : String → String → Log → Log × Option String
  set_password user password log = try run (smbpasswd_add user password) log

  unfoldable pub with_account : String → Log × Bool → Log × Option String
  with_account user (log, true) = (log, none)
  with_account user (log, false) = try run (useradd user) log

  unfoldable pub ensure_smb_user : String → String → Log → Log × Option String
  ensure_smb_user user password log =
      unless_failed (with_account user (test run (id_of user) log)) (set_password user password)

  unfoldable pub smb_session_pids : String → Log → Log × Pids
  smb_session_pids user log = (smbstatus user ∷ log, pids_of decode user (run log (smbstatus user)))

  -- The loop that ends the processes; true if one of the commands failed.
  unfoldable pub shut_down : List String → Log → Log × Bool
  shut_down [] log = (log, false)
  shut_down (p ∷ ps) log =
      let (log', rest) = shut_down ps (shutdown p ∷ log) in
      (log', not (succeeds (run log (shutdown p))) || rest)

  unfoldable pub check_left : String → Log × Pids → Log × Option String
  check_left user (log, left) = (log, left_over user left)

  unfoldable pub after_shutdown : String → Log × Bool → Log × Option String
  after_shutdown user (log, false) = (log, none)
  after_shutdown user (log, true) = check_left user (smb_session_pids user log)

  unfoldable pub end_sessions : String → Log × Pids → Log × Option String
  end_sessions user (log, pids_failed e) = (log, some e)
  end_sessions user (log, pids ps) = after_shutdown user (shut_down ps log)

  -- `endSMBSessions`.
  unfoldable pub end_smb_sessions : String → Log → Log × Option String
  end_smb_sessions user log = end_sessions user (smb_session_pids user log)

  -- The entry goes; one that is absent has gone already.
  unfoldable pub remove_entry : String → Log → Log × Option String
  remove_entry user log = (
    smbpasswd_remove user ∷ log,
    unless (λ (out e : String). has_text (e <> out) "find") (run log (smbpasswd_remove user)),
  )

  -- `RemoveSMBUser`.
  unfoldable pub remove_smb_user : String → Log → Log × Option String
  remove_smb_user user log = unless_failed (remove_entry user log) (end_smb_sessions user)

-- `applied`: "" where the map has no key.
abbrev pub Applied : Type 0
Applied = String → String

abbrev pub forget : String → Applied → Applied
forget user m k = if k == user then "" else m k

abbrev pub remember : String → String → Applied → Applied
remember user key m k = if k == user then key else m k

abbrev pub revoked : String
revoked = "revoked"

-- What the agent keeps between passes, and the host's log.
pub record State : Type 0 where
  pub applied : Applied
  pub log : Log

-- The key that the passdb shall reflect, and the password; or the error of the read.
pub data Wanted : Type 0 where
  wants : String → String → Wanted
  want_failed : String → Wanted

unfoldable pub want_of : Secret → Option String → Wanted
want_of s none = wants revoked ""
want_of s (some pw) = wants s.resource_version pw

unfoldable pub want_secret : GetReply Secret → Wanted
want_secret (get_failed e) = want_failed e
want_secret get_not_found =
    want_of (read_secret get_not_found) (local_user_password (read_secret get_not_found))
want_secret (found s) = want_of s (local_user_password s)

unfoldable pub wanted : LocalUser → (String → String → GetReply Secret) → Wanted
wanted u get =
    if u.spec.smb
    then want_secret (get u.meta.namespace u.spec.password_secret_ref)
    else wants revoked ""

module _ (decode : String → Decoded) (run : Runner) where
  -- The command sequence for a key that is not applied yet.
  unfoldable pub apply : String → String → String → Log → Log × Option String
  apply user key password log =
      if key == revoked
      then remove_smb_user decode run user log
      else ensure_smb_user decode run user password log

  unfoldable pub applied_or_error :
      String → String → Applied → Log × Option String → State × Outcome
  applied_or_error user key m (log, some e) = (record { applied = m; log = log }, failed e)
  applied_or_error user key m (log, none) =
      (record { applied = remember user key m; log = log }, done)

  unfoldable pub reconcile_wanted : String → Wanted → State → State × Outcome
  reconcile_wanted user (want_failed e) st = (st, failed e)
  reconcile_wanted user (wants key password) st = elim (st.applied user == key) [
    | true ↦ (st, done)
    | false ↦ applied_or_error user key st.applied (apply user key password st.log)
  ]

  unfoldable pub outcome_of : Option String → Outcome
  outcome_of none = done
  outcome_of (some e) = failed e

  -- The LocalUser is gone.
  unfoldable pub reconcile_gone : String → State → State × Outcome
  reconcile_gone user st =
      let (log, e) = remove_smb_user decode run user st.log in
      (record { applied = forget user st.applied; log = log }, outcome_of e)

  -- `UserAgentReconciler.Reconcile` for a name.
  unfoldable pub reconcile :
      String → GetReply LocalUser → (String → String → GetReply Secret) → State → State × Outcome
  reconcile name (get_failed e) get st = (st, failed e)
  reconcile name get_not_found get st = reconcile_gone name st
  reconcile name (found u) get st = reconcile_wanted u.meta.name (wanted u get) st
