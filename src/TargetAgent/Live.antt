-- ===== src/TargetAgent/Live.antt =====
-- What HostReady stands for, as internal/agent/target_reconciler.go writes it.
use stornas.Base.{
  String, ◌≡◌, refl, sym, ◌∙◌, ◌≢◌, inl, inr, true, false, Option, none, some, List, [], ◌∷◌, ◌==◌,
  Bool-cases, eq_of_test, In, here, there, In-single, subst,
}
use stornas.Kube.{
  host_ready, GetReply, found, get_not_found, get_failed, WriteReply, written, conflict,
  already_exists, write_not_found, write_failed, MetaLib, is_true-set_self,
}
use stornas.Chap.{Secret, ChapCred, chap_credentials}
use stornas.Target.{Target, Initiator, LunStatus}
use stornas.Host.{Log, Runner}
use stornas.Vip.{IpJson}
use stornas.Lio.{Credentials, ensure_target}
use stornas.Lio.Closed.{IsClosed, ensure_target-IsClosed}
use stornas.TargetAgent.{
  Reads, State, Resolved, resolved, resolve_failed, put_credential, note_secret, resolve_from,
  resolve, host_condition, is_nil, with_host_status, report, export, reconcile_here, reconcile_live,
  reconcile_found, reconcile, conclude, Applied,
}

abbrev pub SecretReader : Type 0
SecretReader = String → String → GetReply Secret

-- The credential is that of a Secret that the spec names for this initiator and that was just read.
pub record IsLive (t : Target) (get : SecretReader) (iqn : String) (cred : ChapCred) : Type 0 where
  pub initiator : Initiator
  pub secret : Secret
  pub in_spec : In initiator t.spec.initiators
  pub has_iqn : initiator.iqn ≡ iqn
  pub was_read : get t.meta.namespace initiator.chap_secret_ref ≡ found secret
  pub holds : chap_credentials secret ≡ some cred

abbrev pub AreLive : Target → SecretReader → Credentials → Type 0
AreLive t get chap = (iqn : String) (cred : ChapCred) → chap iqn ≡ some cred → IsLive t get iqn cred

module _ (t : Target) (get : SecretReader) where
  put_credential-AreLive :
      (ini : Initiator) (s : Secret) (c : Option ChapCred) (chap : Credentials)
      → In ini t.spec.initiators
      → get t.meta.namespace ini.chap_secret_ref ≡ found s
      → chap_credentials s ≡ c
      → AreLive t get chap
      → AreLive t get (put_credential ini.iqn c chap)
  put_credential-AreLive ini s none chap i g e v iqn cred h = v iqn cred h
  put_credential-AreLive ini s (some c) chap i g e v iqn cred h =
      elim (Bool-cases (iqn == ini.iqn)) [
        | inl q ↦ record {
          initiator = ini;
          secret = s;
          in_spec = i;
          has_iqn = sym (eq_of_test _ _ q);
          was_read = g;
          holds = e ∙ (rw q at h);
        }
        | inr q ↦ v iqn cred (rw q at h)
      ]

  note_secret-AreLive :
      (ini : Initiator) (r : GetReply Secret) (key key' : String) (chap chap' : Credentials)
      → In ini t.spec.initiators
      → get t.meta.namespace ini.chap_secret_ref ≡ r
      → AreLive t get chap
      → note_secret ini r key chap ≡ resolved key' chap'
      → AreLive t get chap'
  unfolding note_secret
  note_secret-AreLive ini (get_failed e) key key' chap chap' i g v h = absurd (cc)
  note_secret-AreLive ini get_not_found key key' chap chap' i g v h = subst (AreLive t get) (cc) v
  note_secret-AreLive ini (found s) key key' chap chap' i g v h =
      subst (AreLive t get) (cc) (put_credential-AreLive ini s (chap_credentials s) chap i g refl v)

  resolve_from-AreLive :
      (inis : List Initiator) (key key' : String) (chap chap' : Credentials)
      → ((i : Initiator) → In i inis → In i t.spec.initiators)
      → AreLive t get chap
      → resolve_from (get t.meta.namespace) inis key chap ≡ resolved key' chap'
      → AreLive t get chap'
  unfolding resolve_from
  resolve_from-AreLive [] key key' chap chap' s v h = subst (AreLive t get) (cc) v
  resolve_from-AreLive (ini ∷ inis) key key' chap chap' s v h =
      elim (Bool-cases (ini.chap_secret_ref == "")) [
        | inl e ↦
            resolve_from-AreLive inis key key' chap chap' (λ i m. s i (there m)) v
              (rw (e, resolve_from) at h)
        | inr e ↦
            after (note_secret ini (get t.meta.namespace ini.chap_secret_ref) key chap) refl
              (rw (e, resolve_from) at h)
              (λ k c. resolve_from-AreLive inis k key' c chap' (λ i m. s i (there m)))
      ]
    where
      after :
          (r : Resolved)
          → note_secret ini (get t.meta.namespace ini.chap_secret_ref) key chap ≡ r
          → (elim r [
            | resolve_failed e ↦ resolve_failed e
            | resolved k c ↦ resolve_from (get t.meta.namespace) inis k c
          ])
            ≡ resolved key' chap'
          → ((k : String) (c : Credentials)
              → AreLive t get c
              → resolve_from (get t.meta.namespace) inis k c ≡ resolved key' chap'
              → AreLive t get chap')
          → AreLive t get chap'
      after (resolve_failed e') e h' ih = absurd (cc)
      after (resolved k c) e h' ih =
          ih k c
            (note_secret-AreLive ini (get t.meta.namespace ini.chap_secret_ref) key k chap c
              (s ini (here refl)) refl v e)
            h'

  resolve-AreLive :
      (key : String) (chap : Credentials) → resolve t get ≡ resolved key chap → AreLive t get chap
  unfolding resolve
  resolve-AreLive key chap h =
      resolve_from-AreLive t.spec.initiators _ key (λ k. none) chap (λ i m. m)
        (λ iqn cred e. absurd (cc)) h

module _ (lib : MetaLib) (json : IpJson) (run : Runner) (root node : String) where
  open lib use {is_status_condition_true}

  host_ready-none :
      (t : Target) (e : Option String)
      → is_status_condition_true host_ready
          (with_host_status lib json run root node t e).status.conditions
        ≡ true
      → e ≡ none
  unfolding with_host_status
  host_ready-none t none h = refl
  host_ready-none t (some e) h =
      absurd (cc (h, is_true-set_self lib (host_condition t (some e)) t.status.conditions))

  -- What HostReady stands for: since a log the target was closed to the IQNs that may not enter, where
  -- the credentials were read in this pass.
  pub record IsExported (t : Target) (get : SecretReader) (log final : Log) : Type 0 where
    pub chap : Credentials
    pub are_live : AreLive t get chap
    pub is_closed : IsClosed run t chap log final

  report-IsExported :
      (t w : Target) (get : SecretReader) (key : String) (chap : Credentials) (st : State)
      (reply : WriteReply) (log : Log) (r : Log × Option String)
      → AreLive t get chap
      → (r.1 ≡ none → IsClosed run t chap log r.0)
      → In w (report lib json run root node t key st.applied reply r).writes
      → is_status_condition_true host_ready w.status.conditions ≡ true
      → IsExported t get log r.0
  unfolding report
  report-IsExported t w get key chap st reply log (l, e) v c i h = record {
    chap = chap;
    are_live = v;
    is_closed = c (host_ready-none t e (rw (In-single w _ _ refl i) at h));
  }

  conclude_log :
      (t : Target) (key : String) (m : Applied) (reply : WriteReply) (r : Log × Option String)
      → (report lib json run root node t key m reply r).state.log ≡ r.0
  unfolding report conclude
  conclude_log t key m written (l, none) = refl
  conclude_log t key m written (l, some e) = refl
  conclude_log t key m conflict (l, e) = refl
  conclude_log t key m already_exists (l, e) = refl
  conclude_log t key m write_not_found (l, e) = refl
  conclude_log t key m (write_failed x) (l, e) = refl

  export-IsExported :
      (t w : Target) (get : SecretReader) (st : State) (reply : WriteReply) (r : Resolved)
      → resolve t get ≡ r
      → In w (export lib json run root node t reply st r).writes
      → is_status_condition_true host_ready w.status.conditions ≡ true
      → IsExported t get st.log (export lib json run root node t reply st r).state.log
  unfolding export
  export-IsExported t w get st reply (resolve_failed e) q i h = elim i [ ]
  export-IsExported t w get st reply (resolved key chap) q i h =
      elim (Bool-cases (st.applied t.meta.namespace t.meta.name == key)) [
        | inl e ↦ absurd (nothing e i)
        | inr e ↦
            rw (e, export)
              (rw (conclude_log t key st.applied reply (ensure_target run json root t chap st.log))
                (report-IsExported t w get key chap st reply st.log
                  (ensure_target run json root t chap st.log) (resolve-AreLive t get key chap q)
                  (ensure_target-IsClosed run t chap json root st.log) (rw (e, export) at i) h))
      ]
    where
      nothing :
          (st.applied t.meta.namespace t.meta.name == key) ≡ true
          → ¬ (In w (export lib json run root node t reply st (resolved key chap)).writes)
      nothing e j = elim (rw (e, export) at j) [ ]

  pub reconcile-live :
      (ns name : String) (t : Target) (reads : Reads) (st : State)
      → reads.get_target ≡ found t
      → t.meta.deleting ≡ false
      → reconcile lib json run root node ns name reads st
        ≡ reconcile_live lib json run root node t reads st
  unfolding reconcile reconcile_found
  reconcile-live ns name t reads st g d = simp (g, d)

  is_nil_ne : (l : List LunStatus) → is_nil l ≡ false → l ≢ []
  is_nil_ne [] h e = cc
  is_nil_ne (x ∷ xs) h e = cc

  reconcile_here-IsExported :
      (t w : Target) (reads : Reads) (st : State)
      → In w (reconcile_here lib json run root node t reads st).writes
      → is_status_condition_true host_ready w.status.conditions ≡ true
      → (t.status.luns ≢ [])
        × IsExported t reads.get_secret st.log
            (reconcile_here lib json run root node t reads st).state.log
  unfolding reconcile_here
  reconcile_here-IsExported t w reads st i h = elim (Bool-cases (is_nil t.status.luns)) [
    | inl e ↦ absurd (elim (rw (e, reconcile_here) at i) [ ])
    | inr e ↦
        rw (e, reconcile_here)
          (
            is_nil_ne t.status.luns e,
            export-IsExported t w reads.get_secret st reads.update_status _ refl
                (rw (e, reconcile_here) at i) h,
          )
  ]

  reconcile_live-IsExported :
      (t w : Target) (reads : Reads) (st : State)
      → In w (reconcile_live lib json run root node t reads st).writes
      → is_status_condition_true host_ready w.status.conditions ≡ true
      → (t.status.active_node ≡ node)
        × (t.status.luns ≢ [])
        × IsExported t reads.get_secret st.log
            (reconcile_live lib json run root node t reads st).state.log
  unfolding reconcile_live
  reconcile_live-IsExported t w reads st i h = elim (Bool-cases (t.status.active_node == node)) [
    | inl e ↦
        let (n, x) = reconcile_here-IsExported t w reads st (rw (e, reconcile_live) at i) h in
        rw (e, reconcile_live) (eq_of_test _ _ e, n, x)
    | inr e ↦ absurd (elim (rw (e, reconcile_live) at i) [ ])
  ]

  -- When a pass for a target that is not being deleted writes a status with HostReady True, the target
  -- is placed on this node and has LUNs, and in this very pass, each with success: CHAP was asked for if
  -- an initiator of its spec wants it, and generated ACLs were switched off; and the host listed the
  -- ACLs of the target, of which each whose name begins with "iqn." and is not of an initiator of the
  -- spec that may enter was deleted, or was absent. The credentials that let an initiator in were those
  -- of the Secrets that the spec names, read in this pass.
  pub host_ready-IsExported :
      (ns name : String) (t w : Target) (reads : Reads) (st : State)
      → reads.get_target ≡ found t
      → t.meta.deleting ≡ false
      → In w (reconcile lib json run root node ns name reads st).writes
      → is_status_condition_true host_ready w.status.conditions ≡ true
      → (t.status.active_node ≡ node)
        × (t.status.luns ≢ [])
        × IsExported t reads.get_secret st.log
            (reconcile lib json run root node ns name reads st).state.log
  host_ready-IsExported ns name t w reads st g d i h =
      let e = reconcile-live ns name t reads st g d in
      rw e (reconcile_live-IsExported t w reads st (rw e at i) h)
