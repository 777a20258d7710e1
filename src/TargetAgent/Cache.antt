-- ===== src/TargetAgent/Cache.antt =====
-- The cache `applied` of internal/agent/target_reconciler.go, across a pass that fails.
use stornas.Base.{
  String, ◌≡◌, refl, sym, ◌∙◌, ◌≢◌, false, Option, none, some, [], ◌∷◌, test_of_eq, test_of_ne,
}
use stornas.Kube.{found, written, done, failed, MetaLib}
use stornas.Target.{Target}
use stornas.Host.{Log, Runner}
use stornas.Vip.{IpJson}
use stornas.Lio.{Credentials, ensure_target}
use stornas.TargetAgent.{
  Reads, State, resolved, resolve, is_nil, with_host_status, report, conclude, export,
  reconcile_here, reconcile_live, reconcile,
}
use stornas.TargetAgent.Live.{reconcile-live}

module _ (lib : MetaLib) (json : IpJson) (run : Runner) (root node : String) where
  -- A target that is exported here: not being deleted, placed on this node, with LUNs.
  pub record IsHere (reads : Reads) (t : Target) (key : String) (chap : Credentials) : Type 0 where
    pub was_read : reads.get_target ≡ found t
    pub is_live : t.meta.deleting ≡ false
    pub is_placed : t.status.active_node ≡ node
    pub has_luns : is_nil t.status.luns ≡ false
    pub has_key : resolve t reads.get_secret ≡ resolved key chap

  reconcile-export :
      (ns name key : String) (t : Target) (chap : Credentials) (reads : Reads) (st : State)
      → IsHere reads t key chap
      → reconcile lib json run root node ns name reads st
        ≡ export lib json run root node t reads.update_status st (resolved key chap)
  unfolding reconcile_live reconcile_here
  reconcile-export ns name key t chap reads st h =
      reconcile-live lib json run root node ns name t reads st h.was_read h.is_live
      ∙ simp (test_of_eq _ _ h.is_placed, h.has_luns, h.has_key)

  known_pass :
      (ns name key : String) (t : Target) (chap : Credentials) (reads : Reads) (st : State)
      → IsHere reads t key chap
      → st.applied t.meta.namespace t.meta.name ≡ key
      → reconcile lib json run root node ns name reads st
        ≡ record { state = st; writes = []; outcome = done }
  unfolding export
  known_pass ns name key t chap reads st h a =
      reconcile-export ns name key t chap reads st h ∙ (rw (test_of_eq _ _ a, export) refl)

  report_failed :
      (t : Target) (key e : String) (st : State) (r : Log × Option String)
      → r.1 ≡ some e
      → report lib json run root node t key st.applied written r ≡ record {
        state = record st { log = r.0 };
        writes = with_host_status lib json run root node t (some e) ∷ [];
        outcome = failed e;
      }
  unfolding report conclude
  report_failed t key e st (l, none) h = absurd (cc)
  report_failed t key e st (l, some x) h = rw (some_inj h) refl
    where
      some_inj : some x ≡ some e → x ≡ e
      some_inj q = cc

  failed_pass :
      (ns name key e : String) (t : Target) (chap : Credentials) (reads : Reads) (st : State)
      → IsHere reads t key chap
      → st.applied t.meta.namespace t.meta.name ≢ key
      → reads.update_status ≡ written
      → (ensure_target run json root t chap st.log).1 ≡ some e
      → reconcile lib json run root node ns name reads st ≡ record {
        state = record st { log = (ensure_target run json root t chap st.log).0 };
        writes = with_host_status lib json run root node t (some e) ∷ [];
        outcome = failed e;
      }
  unfolding export
  failed_pass ns name key e t chap reads st h n w f =
      reconcile-export ns name key t chap reads st h
      ∙ (rw (test_of_ne _ _ n, w, export)
          (report_failed t key e st (ensure_target run json root t chap st.log) f))

  -- The input of a target changes from one that is remembered to another, whose export fails after any
  -- number of commands, and then to one of the first key again. The pass that fails returns the error
  -- and keeps the first key; so the last pass ends without an error, runs no command and writes no
  -- status, whatever the failed one has done to the host.
  pub key_outlives_failure :
      (ns name key key' e : String) (t t' : Target) (chap chap' : Credentials)
      (reads reads' : Reads) (st : State)
      → IsHere reads t key chap
      → IsHere reads' t' key' chap'
      → (t.meta.namespace ≡ t'.meta.namespace) × (t.meta.name ≡ t'.meta.name)
      → st.applied t.meta.namespace t.meta.name ≡ key
      → key ≢ key'
      → reads'.update_status ≡ written
      → (ensure_target run json root t' chap' st.log).1 ≡ some e
      → let r = reconcile lib json run root node ns name reads' st in
        (r.outcome ≡ failed e)
        × (reconcile lib json run root node ns name reads r.state
            ≡ record { state = r.state; writes = []; outcome = done })
  key_outlives_failure ns name key key' e t t' chap chap' reads reads' st h h' same a n w f =
      let p =
        failed_pass ns name key' e t' chap' reads' st h' (λ q. n (sym a ∙ (rw (same.0, same.1) q)))
          w f in
      rw p (refl, known_pass ns name key t chap reads _ h a)
