-- ===== src/UserAgent/Revocation.antt =====
-- What a successful `RemoveSMBUser` of internal/agent/share.go leaves of a user's access.
use stornas.Base.{
  String, ◌≡◌, refl, sym, ap, ◌≢◌, ◌⊎◌, inl, inr, Bool, true, false, not, ◌||◌, none, List, [], ◌∷◌,
  arith, ◌==◌, eq_iff, ◌<>◌, Bool-cases, eq_of_test, In, here, there, contains, not-In_nil, subst,
}
use Prim.Native.String.{compare}
use text.Mathlib.Text.{is_lt}
use stornas.Host.{Reply, ran, run_failed, Log, Runner, unless, succeeds}
use stornas.Host.Growth.{Before, now, later, Before-trans, Ran, split_none}
use stornas.Strings.{has_text}
use stornas.UserAgent.{
  smbpasswd_remove, smbstatus, shutdown, SmbSession, Decoded, decoded, undecoded, insert_text,
  sort_texts, pids_from, Pids, pids, pids_failed, pids_of_decoded, pids_of, left_over,
  smb_session_pids, shut_down, check_left, after_shutdown, end_sessions, end_smb_sessions,
  remove_entry, remove_smb_user,
}

-- Sorting loses nothing.
insert_text-head : (s : String) (ts : List String) → In s (insert_text s ts)
unfolding insert_text
insert_text-head s [] = here refl
insert_text-head s (t ∷ ts) = elim (Bool-cases (is_lt (compare t s))) [
  | inl e ↦ rw e (there (insert_text-head s ts))
  | inr e ↦ rw e (here refl)
]

insert_text-tail : (x s : String) (ts : List String) → In x ts → In x (insert_text s ts)
unfolding insert_text
insert_text-tail x s [] i = elim i [ ]
insert_text-tail x s (t ∷ ts) i = elim (Bool-cases (is_lt (compare t s))) [
  | inl e ↦ rw e (elim i [ here p ↦ here p | there j ↦ there (insert_text-tail x s ts j) ])
  | inr e ↦ rw e (there i)
]

sort_texts-In : (x : String) (ts : List String) → In x ts → In x (sort_texts ts)
unfolding sort_texts
sort_texts-In x [] i = elim i [ ]
sort_texts-In x (t ∷ ts) (here e) =
    subst (λ y. In y (insert_text t (sort_texts ts))) (sym e) (insert_text-head t (sort_texts ts))
sort_texts-In x (t ∷ ts) (there i) = insert_text-tail x t (sort_texts ts) (sort_texts-In x ts i)

contains-cons :
    (x p : String) (seen : List String)
    → contains x (p ∷ seen) ≡ true
    → (x ≡ p) ⊎ (contains x seen ≡ true)
contains-cons x p seen h = elim (Bool-cases (p == x)) [
  | inl e ↦ inl (sym (eq_of_test p x e))
  | inr e ↦ inr (rw e at h)
]

-- The session at the head is another user's, or of a process that was seen.
passed_over :
    (user : String) (s t : SmbSession) (seen : List String) (ss : List SmbSession)
    → s.username ≡ user
    → In s (t ∷ ss)
    → (not (t.username == user) || contains t.pid seen) ≡ true
    → (In s ss → In s.pid (pids_from user seen ss) ⊎ (contains s.pid seen ≡ true))
    → In s.pid (pids_from user seen ss) ⊎ (contains s.pid seen ≡ true)
passed_over user s t seen ss u (there i) h rest = rest i
passed_over user s t seen ss u (here e) h rest =
    ground (arith, eq_iff t.username user, ap SmbSession.username e)

-- The process of the session at the head is listed.
kept :
    (user : String) (s t : SmbSession) (seen : List String) (ss : List SmbSession)
    → In s (t ∷ ss)
    → (In s ss
        → In s.pid (pids_from user (t.pid ∷ seen) ss) ⊎ (contains s.pid (t.pid ∷ seen) ≡ true))
    → In s.pid (t.pid ∷ pids_from user (t.pid ∷ seen) ss) ⊎ (contains s.pid seen ≡ true)
kept user s t seen ss (here e) rest = inl (here (ap SmbSession.pid e))
kept user s t seen ss (there i) rest = elim (rest i) [
  | inl j ↦ inl (there j)
  | inr h ↦ elim (contains-cons s.pid t.pid seen h) [ inl e ↦ inl (here e) | inr k ↦ inr k ]
]

-- No session of the user is passed over, whatever was seen before.
pids_from-In :
    (user : String) (s : SmbSession) (seen : List String) (ss : List SmbSession)
    → s.username ≡ user
    → In s ss
    → In s.pid (pids_from user seen ss) ⊎ (contains s.pid seen ≡ true)
unfolding pids_from
pids_from-In user s seen [] u i = elim i [ ]
pids_from-In user s seen (t ∷ ss) u i =
    elim (Bool-cases (not (t.username == user) || contains t.pid seen)) [
      | inl e ↦
          rw (e, pids_from) (passed_over user s t seen ss u i e (pids_from-In user s seen ss u))
      | inr e ↦
          rw (e, pids_from) (kept user s t seen ss i (pids_from-In user s (t.pid ∷ seen) ss u))
    ]

-- So a listing without processes has no session of the user.
Listed_pids-In :
    (user : String) (s : SmbSession) (ss : List SmbSession)
    → s.username ≡ user
    → In s ss
    → In s.pid (sort_texts (pids_from user [] ss))
Listed_pids-In user s ss u i = elim (pids_from-In user s [] ss u i) [
  | inl j ↦ sort_texts-In s.pid (pids_from user [] ss) j
  | inr e ↦ cc
]

module _ (decode : String → Decoded) (run : Runner) where
  -- `smbstatus`, run after a log, listed these sessions.
  pub data Listed (user : String) (log : Log) (ss : List SmbSession) : Type 0 where
    listed :
        (out : String)
        → run log (smbstatus user) ≡ ran out
        → decode out ≡ decoded ss
        → Listed user log ss

  -- The process of a session was told to shut down, and that succeeded.
  abbrev pub ShutDown : Log → SmbSession → Type 0
  ShutDown final s = Ran (shutdown s.pid) final (λ l. succeeds (run l (shutdown s.pid)) ≡ true)

  abbrev pub Closed : String → Log → List SmbSession → Type 0
  Closed user final ss = (s : SmbSession) → In s ss → s.username ≡ user → ShutDown final s

  abbrev pub NoSession : String → Log → Type 0
  NoSession user log =
      (ss : List SmbSession) × Listed user log ss × ((s : SmbSession) → In s ss → s.username ≢ user)

  -- The entry is gone, and then each session that was listed after it was closed, or a later listing
  -- had none of the user.
  pub record Revoked (user : String) (log final : Log) : Type 0 where
    pub entry_gone :
        unless (λ (out e : String). has_text (e <> out) "find") (run log (smbpasswd_remove user))
        ≡ none
    pub sessions : List SmbSession
    pub were_listed : Listed user (smbpasswd_remove user ∷ log) sessions
    pub ended : Closed user final sessions ⊎ Ran (smbstatus user) final (NoSession user)

  -- What a listing that was read says.
  read_decoded :
      (user : String) (log : Log) (out : String) (d : Decoded) (ps : List String)
      → run log (smbstatus user) ≡ ran out
      → decode out ≡ d
      → pids_of_decoded user d ≡ pids ps
      → (ss : List SmbSession) × Listed user log ss × (sort_texts (pids_from user [] ss) ≡ ps)
  unfolding pids_of_decoded
  read_decoded user log out (decoded ss) ps r e h = (ss, listed out r e, (cc))
  read_decoded user log out (undecoded m) ps r e h = absurd (cc)

  read_reply :
      (user : String) (log : Log) (r : Reply) (ps : List String)
      → run log (smbstatus user) ≡ r
      → pids_of decode user r ≡ pids ps
      → (ss : List SmbSession) × Listed user log ss × (sort_texts (pids_from user [] ss) ≡ ps)
  unfolding pids_of
  read_reply user log (ran out) ps r h = read_decoded user log out (decode out) ps r refl h
  read_reply user log (run_failed out e) ps r h = absurd (cc)

  shut_down-Before : (ps : List String) (log : Log) → Before log (shut_down decode run ps log).0
  unfolding shut_down
  shut_down-Before [] log = now
  shut_down-Before (p ∷ ps) log =
      Before-trans log (shutdown p ∷ log) _ (later now) (shut_down-Before ps (shutdown p ∷ log))

  -- No command failed: each process was told to shut down.
  shut_down-Ran :
      (ps : List String) (p : String) (log : Log)
      → (shut_down decode run ps log).1 ≡ false
      → In p ps
      → Ran (shutdown p) (shut_down decode run ps log).0 (λ l. succeeds (run l (shutdown p)) ≡ true)
  unfolding shut_down
  shut_down-Ran [] p log h i = elim i [ ]
  shut_down-Ran (q ∷ ps) p log h (here e) = record {
    before = log;
    is_before = rw e (shut_down-Before ps (shutdown q ∷ log));
    found = rw e (ground arith);
  }
  shut_down-Ran (q ∷ ps) p log h (there i) = shut_down-Ran ps p (shutdown q ∷ log) (ground arith) i

  -- Nothing is left over: the second listing has no session of the user.
  nothing_left :
      (user : String) (log : Log) (ps : Pids)
      → pids_of decode user (run log (smbstatus user)) ≡ ps
      → left_over user ps ≡ none
      → NoSession user log
  unfolding left_over
  nothing_left user log (pids_failed e) p h = absurd (cc)
  nothing_left user log (pids (x ∷ xs)) p h = absurd (cc)
  nothing_left user log (pids []) p h =
      let (ss, l, e) = read_reply user log (run log (smbstatus user)) [] refl p in
      (ss, l, λ s i u. not-In_nil s.pid _ e (Listed_pids-In user s ss u i))

  after_shutdown-Closed :
      (user : String) (l1 : Log) (ss : List SmbSession) (ps : List String)
      → sort_texts (pids_from user [] ss) ≡ ps
      → (b : Bool) → (shut_down decode run ps l1).1 ≡ b
      → (after_shutdown decode run user ((shut_down decode run ps l1).0, b)).1 ≡ none
      → let final = (after_shutdown decode run user ((shut_down decode run ps l1).0, b)).0 in
        Closed user final ss ⊎ Ran (smbstatus user) final (NoSession user)
  unfolding after_shutdown check_left smb_session_pids
  after_shutdown-Closed user l1 ss ps e false f h =
      inl (λ s i u. shut_down-Ran ps s.pid l1 f (subst (In s.pid) e (Listed_pids-In user s ss u i)))
  after_shutdown-Closed user l1 ss ps e true f h = inr (record {
    before = (shut_down decode run ps l1).0;
    is_before = now;
    found = nothing_left user _ _ refl h;
  })

  end_sessions-Closed :
      (user : String) (log : Log) (ps : Pids)
      → pids_of decode user (run log (smbstatus user)) ≡ ps
      → (end_sessions decode run user (smbstatus user ∷ log, ps)).1 ≡ none
      → let final = (end_sessions decode run user (smbstatus user ∷ log, ps)).0 in
        (ss : List SmbSession) × Listed user log ss
        × (Closed user final ss ⊎ Ran (smbstatus user) final (NoSession user))
  unfolding end_sessions
  end_sessions-Closed user log (pids_failed e) p h = absurd (cc)
  end_sessions-Closed user log (pids ps) p h =
      let (ss, l, e) = read_reply user log (run log (smbstatus user)) ps refl p in
      (ss, l, after_shutdown-Closed user (smbstatus user ∷ log) ss ps e _ refl h)

  -- A `RemoveSMBUser` that returns no error has removed the entry from the passdb, or found it absent,
  -- and has then ended every session of the user: the sessions were listed after the removal, and
  -- either the process of each that is the user's was told to shut down and the command succeeded,
  -- or a later listing showed no session of the user.
  pub remove_smb_user-Revoked :
      (user : String) (log : Log)
      → (remove_smb_user decode run user log).1 ≡ none
      → Revoked user log (remove_smb_user decode run user log).0
  unfolding remove_smb_user remove_entry end_smb_sessions smb_session_pids
  remove_smb_user-Revoked user log h =
      let (gone, rest) =
        split_none (remove_entry decode run user log) (end_smb_sessions decode run user) h in
      let (ss, l, e) =
        end_sessions-Closed user (smbpasswd_remove user ∷ log) _ refl (rw rest at h) in
      record { entry_gone = gone; sessions = ss; were_listed = l; ended = rw rest e }
