-- ===== src/UserAgent/Passes.antt =====
-- What the passes of the user agent (internal/agent/user_reconciler.go) leave in the passdb.
use stornas.Base.{
  String, ◌≡◌, refl, sym, ◌∙◌, ◌≢◌, ◌⊎◌, inl, inr, Bool, true, false, Option, none, some, ◌∷◌,
  arith, ◌==◌, eq_refl, ◌<>◌, Bool-cases, Option-cases, eq_of_test, test_of_eq, ne_of_test,
  test_of_ne,
}
use stornas.Kube.{GetReply, found, get_not_found, get_failed, done, failed}
use stornas.Chap.{Secret, local_user_password}
use stornas.LocalUser.{LocalUser}
use stornas.Host.{Log, Runner, Reply, ran, run_failed, unless, succeeds, unless_failed}
use stornas.Host.Growth.{split_none, succeeds-error_of}
use stornas.Strings.{has_text}
use stornas.UserAgent.{
  smbpasswd_add, smbpasswd_remove, smbstatus, Decoded, Applied, remember, revoked, State, Wanted,
  wants, want_failed, want_of, want_secret, wanted, apply, applied_or_error, reconcile_wanted,
  reconcile_gone, outcome_of, reconcile, remove_smb_user, ensure_smb_user, set_password,
  with_account, remove_entry, end_smb_sessions, smb_session_pids, end_sessions, pids_of,
}
use stornas.UserAgent.Revocation.{Revoked, remove_smb_user-Revoked}

-- The reads of Secrets, by namespace and name.
abbrev pub Secrets : Type 0
Secrets = String → String → GetReply Secret

abbrev pub secret_of : LocalUser → Secrets → GetReply Secret
secret_of u get = get u.meta.namespace u.spec.password_secret_ref

-- The user may log in, with this password of this version of its Secret.
pub data Granted (u : LocalUser) (get : Secrets) (key password : String) : Type 0 where
  granted :
      (s : Secret)
      → u.spec.smb ≡ true
      → secret_of u get ≡ found s
      → s.value "password" ≢ ""
      → password ≡ s.value "password"
      → key ≡ s.resource_version
      → Granted u get key password

-- It may not: SMB is off, or the Secret is absent, or it has no password.
pub data Withdrawn (u : LocalUser) (get : Secrets) : Type 0 where
  smb_off : u.spec.smb ≡ false → Withdrawn u get
  secret_absent : secret_of u get ≡ get_not_found → Withdrawn u get
  password_empty :
      (s : Secret) → secret_of u get ≡ found s → s.value "password" ≡ "" → Withdrawn u get

-- What the agent wants, read off the spec and the Secret.
want_secret-Wants :
    (u : LocalUser) (get : Secrets) (r : GetReply Secret) (key password : String)
    → u.spec.smb ≡ true
    → secret_of u get ≡ r
    → want_secret r ≡ wants key password
    → Granted u get key password ⊎ (Withdrawn u get × (key ≡ revoked))
unfolding want_secret want_of local_user_password
want_secret-Wants u get (get_failed e) key password b r h = absurd (cc)
want_secret-Wants u get get_not_found key password b r h = inr (secret_absent r, cc)
want_secret-Wants u get (found s) key password b r h =
    elim (Bool-cases (s.value "password" == "")) [
      | inl e ↦ inr (password_empty s r (eq_of_test _ _ e), ground arith)
      | inr e ↦ inl (granted s b r (ne_of_test _ _ e) (ground arith) (ground arith))
    ]

pub wanted_ways :
    (u : LocalUser) (get : Secrets) (key password : String)
    → wanted u get ≡ wants key password
    → Granted u get key password ⊎ (Withdrawn u get × (key ≡ revoked))
unfolding wanted
wanted_ways u get key password h = elim (Bool-cases u.spec.smb) [
  | inl e ↦ want_secret-Wants u get (secret_of u get) key password e refl (rw e at h)
  | inr e ↦ inr (smb_off e, ground arith)
]

unless-none : (p : String → String → Bool) (r : Reply) → succeeds r ≡ true → unless p r ≡ none
unless-none p (ran out) h = refl
unless-none p (run_failed out e) h = absurd (cc)

module _ (decode : String → Decoded) (run : Runner) where
  -- The password of the user was the last thing written, and that succeeded.
  pub data Provisioned (user password : String) : Log → Type 0 where
    provisioned :
        (log : Log)
        → succeeds (run log (smbpasswd_add user password)) ≡ true
        → Provisioned user password (smbpasswd_add user password ∷ log)

  -- What a pass for a LocalUser leaves, from one state to another.
  pub data Settled (u : LocalUser) (get : Secrets) (st st' : State) : Type 0 where
    known :
        (key password : String)
        → wanted u get ≡ wants key password
        → st.applied u.meta.name ≡ key
        → st' ≡ st
        → Settled u get st st'
    put_in :
        (key password : String)
        → Granted u get key password
        → Provisioned u.meta.name password st'.log
        → st'.applied u.meta.name ≡ key
        → Settled u get st st'
    taken_out :
        Withdrawn u get
        → Revoked decode run u.meta.name st.log st'.log
        → st'.applied u.meta.name ≡ revoked
        → Settled u get st st'

  remember_self : (user key : String) (m : Applied) → remember user key m user ≡ key
  remember_self user key m = ground (arith, eq_refl user)

  ensure_smb_user-Provisioned :
      (user password : String) (log : Log)
      → (ensure_smb_user decode run user password log).1 ≡ none
      → Provisioned user password (ensure_smb_user decode run user password log).0
  unfolding ensure_smb_user set_password
  ensure_smb_user-Provisioned user password log h =
      let (_, e) =
        split_none (with_account decode run user ((_ ∷ log), _))
          (set_password decode run user password) h in
      rw e (provisioned _ (succeeds-error_of _ (rw e at h)))

  -- What a pass that applies a key leaves.
  applied_lem :
      (user key : String) (m : Applied) (r : Log × Option String)
      → (applied_or_error decode run user key m r).1 ≡ done
      → (r.1 ≡ none)
        × ((applied_or_error decode run user key m r).0
            ≡ record { applied = remember user key m; log = r.0 })
  unfolding applied_or_error
  applied_lem user key m (log, none) h = (refl, refl)
  applied_lem user key m (log, some e) h = absurd (cc)

  -- The key is remembered only after the commands that it needs.
  settled_out :
      (u : LocalUser) (get : Secrets) (st : State)
      → Withdrawn u get
      → let user = u.meta.name in
        let r =
          applied_or_error decode run user revoked st.applied
            (remove_smb_user decode run user st.log) in
        r.1 ≡ done → Settled u get st r.0
  settled_out u get st w h =
      let user = u.meta.name in
      let (ok, e) =
        applied_lem user revoked st.applied (remove_smb_user decode run user st.log) h in
      rw e (
        taken_out w (remove_smb_user-Revoked decode run user st.log ok)
          (remember_self user revoked st.applied))

  settled_in :
      (u : LocalUser) (get : Secrets) (st : State) (key password : String)
      → Granted u get key password
      → let user = u.meta.name in
        let r =
          applied_or_error decode run user key st.applied
            (ensure_smb_user decode run user password st.log) in
        r.1 ≡ done → Settled u get st r.0
  settled_in u get st key password g h =
      let user = u.meta.name in
      let (ok, e) =
        applied_lem user key st.applied (ensure_smb_user decode run user password st.log) h in
      rw e (
        put_in key password g (ensure_smb_user-Provisioned user password st.log ok)
          (remember_self user key st.applied))

  settled_new :
      (u : LocalUser) (get : Secrets) (st : State) (key password : String)
      → (Granted u get key password × (key ≢ revoked)) ⊎ (Withdrawn u get × (key ≡ revoked))
      → let user = u.meta.name in
        let r =
          applied_or_error decode run user key st.applied
            (apply decode run user key password st.log) in
        r.1 ≡ done → Settled u get st r.0
  unfolding apply
  settled_new u get st key password (inr (w, e)) h =
      rw (e, apply) (settled_out u get st w (rw (e, apply) at h))
  settled_new u get st key password (inl (g, n)) h =
      rw (test_of_ne key revoked n)
        (settled_in u get st key password g (rw (test_of_ne key revoked n) at h))

  -- Versions of Secrets are numbers, so none is the word for a user without access.
  key_ways :
      (u : LocalUser) (get : Secrets) (key password : String)
      → ((s : Secret) → secret_of u get ≡ found s → s.resource_version ≢ revoked)
      → Granted u get key password ⊎ (Withdrawn u get × (key ≡ revoked))
      → (Granted u get key password × (key ≢ revoked)) ⊎ (Withdrawn u get × (key ≡ revoked))
  key_ways u get key password v (inr w) = inr w
  key_ways u get key password v (inl (granted s b r n p k)) =
      inl (granted s b r n p k, λ e. v s r (sym k ∙ e))

  settled_wanted :
      (u : LocalUser) (get : Secrets) (st : State) (w : Wanted)
      → wanted u get ≡ w
      → ((s : Secret) → secret_of u get ≡ found s → s.resource_version ≢ revoked)
      → (reconcile_wanted decode run u.meta.name w st).1 ≡ done
      → Settled u get st (reconcile_wanted decode run u.meta.name w st).0
  unfolding reconcile_wanted
  settled_wanted u get st (want_failed e) q v h = absurd (cc)
  settled_wanted u get st (wants key password) q v h =
      elim (Bool-cases (st.applied u.meta.name == key)) [
        | inl e ↦ rw (e, reconcile_wanted) (known key password q (eq_of_test _ _ e) refl)
        | inr e ↦
            rw (e, reconcile_wanted)
              (settled_new u get st key password
                (key_ways u get key password v (wanted_ways u get key password q))
                (rw (e, reconcile_wanted) at h))
      ]

  -- When a pass for a LocalUser ends without an error, one of three things holds. What the spec and
  -- the Secret ask for had been applied before, and nothing changed. Or SMB is on and the Secret has
  -- a password: that password was the last thing written to the passdb, and successfully, and the
  -- Secret's version is remembered. Or SMB is off, or the Secret is absent or has no password: the
  -- user's entry is gone, its sessions have ended, and that is remembered. It is assumed, as the
  -- source notes, that the version of no Secret is the text "revoked".
  pub reconcile-Settled :
      (u : LocalUser) (get : Secrets) (st : State) (name : String)
      → ((s : Secret) → secret_of u get ≡ found s → s.resource_version ≢ revoked)
      → (reconcile decode run name (found u) get st).1 ≡ done
      → Settled u get st (reconcile decode run name (found u) get st).0
  unfolding reconcile
  reconcile-Settled u get st name v h = settled_wanted u get st (wanted u get) refl v h

  -- After a LocalUser is deleted, a pass without an error has removed its entry and ended its
  -- sessions, and nothing is remembered of it.
  pub reconcile_deleted :
      (name : String) (get : Secrets) (st : State)
      → (reconcile decode run name get_not_found get st).1 ≡ done
      → let st' = (reconcile decode run name get_not_found get st).0 in
        (st'.applied name ≡ "") × Revoked decode run name st.log st'.log
  unfolding reconcile reconcile_gone outcome_of
  reconcile_deleted name get st h = (
    ground (arith, eq_refl name),
    remove_smb_user-Revoked decode run name st.log
        (elim (Option-cases (remove_smb_user decode run name st.log).1) [
          | inl e ↦ e
          | inr (a, e) ↦ absurd (cc (rw (e, outcome_of) at h))
        ]),
  )

  -- The entry is removed, and then the sessions cannot be listed.
  remove_smb_user_half :
      (user out e : String) (log : Log)
      → succeeds (run log (smbpasswd_remove user)) ≡ true
      → run (smbpasswd_remove user ∷ log) (smbstatus user) ≡ run_failed out e
      → remove_smb_user decode run user log ≡ (smbstatus user ∷ smbpasswd_remove user ∷ log, some e)
  unfolding remove_smb_user remove_entry unless_failed end_smb_sessions smb_session_pids
      end_sessions pids_of
  remove_smb_user_half user out e log h k =
      rw (unless-none (λ (o x : String). has_text (x <> o) "find") _ h, unless_failed)
        (rw (k, end_sessions) refl)

  -- A pass whose key is applied does nothing.
  reconcile_known :
      (u : LocalUser) (get : Secrets) (st : State) (name key password : String)
      → wanted u get ≡ wants key password
      → st.applied u.meta.name ≡ key
      → reconcile decode run name (found u) get st ≡ (st, done)
  unfolding reconcile reconcile_wanted
  reconcile_known u get st name key password w a =
      rw (w, reconcile_wanted) (rw (test_of_eq _ _ a) refl)

  wanted_on :
      (u : LocalUser) (get : Secrets) (s : Secret)
      → u.spec.smb ≡ true
      → secret_of u get ≡ found s
      → s.value "password" ≢ ""
      → wanted u get ≡ wants s.resource_version (s.value "password")
  unfolding wanted want_secret want_of local_user_password
  wanted_on u get s b r n = rw b (rw (r, want_secret) (rw (test_of_ne _ _ n) refl))

  -- A user whose password is applied is switched off; its entry is removed, and then the listing of
  -- its sessions fails, so that the pass does. When the user is switched on again, with the same
  -- Secret, the next pass ends without an error and runs no command: the removal stays the last
  -- change of the passdb.
  pub removed_and_not_restored :
      (u : LocalUser) (get : Secrets) (st : State) (s : Secret) (out e : String)
      → u.spec.smb ≡ true
      → secret_of u get ≡ found s
      → s.value "password" ≢ ""
      → st.applied u.meta.name ≡ s.resource_version
      → s.resource_version ≢ revoked
      → succeeds (run st.log (smbpasswd_remove u.meta.name)) ≡ true
      → run (smbpasswd_remove u.meta.name ∷ st.log) (smbstatus u.meta.name) ≡ run_failed out e
      → let off = record u { spec = record u.spec { smb = false } } in
        let name = u.meta.name in
        let st' = record st { log = smbstatus name ∷ smbpasswd_remove name ∷ st.log } in
        (reconcile decode run name (found off) get st ≡ (st', failed e))
        × (reconcile decode run name (found u) get st' ≡ (st', done))
  unfolding reconcile reconcile_wanted wanted apply applied_or_error
  removed_and_not_restored u get st s out e b r n a v h k = (
    rw (test_of_ne _ _ (λ q. v (sym a ∙ q)), reconcile_wanted)
        (rw (remove_smb_user_half u.meta.name out e st.log h k) refl),
    reconcile_known u get _ u.meta.name s.resource_version (s.value "password")
        (wanted_on u get s b r n) a,
  )
