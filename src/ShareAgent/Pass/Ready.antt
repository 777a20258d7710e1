-- ===== src/ShareAgent/Pass/Ready.antt =====
-- What the statuses that the share agent writes (internal/agent/share_reconciler.go) stand for.
use stornas.Base.{
  String, ◌≡◌, refl, ap, ◌≢◌, inl, inr, true, false, not, ◌||◌, Option, none, some, List, ◌∷◌,
  arith, ◌==◌, eq_iff, ◌<>◌, Bool-cases, ne_of_test, In, In-single,
}
use stornas.Kube.{host_ready, found, ListReply, items, list_failed, MetaLib, is_true-set_self}
use stornas.Share.{Share}
use stornas.Host.{Command, Log, Runner, try, succeeds, write_file}
use stornas.Host.Growth.{split_none, succeeds-error_of}
use stornas.ShareAgent.{
  ShareManager, ensure_share, apply_samba, samba_shares, samba_text, sort_shares, reload_samba,
}
use stornas.ShareAgent.Served.{Serves, ensure_share-Serves}
use stornas.ShareAgent.Pass.{
  Reads, host_condition, apply_listed, serve, reconcile_elsewhere, with_host_status, report,
  reconcile_here, reconcile_live, reconcile_found, reconcile,
}

module _ (run : Runner) (m : ShareManager) where
  -- The share is served, and after that the samba include was written from the shares of the cluster
  -- and samba has reloaded it.
  pub record IsReady (s : Share) (list : ListReply Share) (log final : Log) : Type 0 where
    pub shares : List Share
    pub were_listed : list ≡ items shares
    pub served_at : Log
    pub serves : Serves run m s log served_at
    pub include : Command
    pub is_include :
        include ≡ write_file (m.root <> samba_shares) (samba_text m.node (sort_shares shares))
    pub written : succeeds (run served_at include) ≡ true
    pub reloaded : succeeds (run (include ∷ served_at) reload_samba) ≡ true
    pub is_final : final ≡ reload_samba ∷ include ∷ served_at

  apply_samba-IsReady :
      (s : Share) (shares : List Share) (log l : Log)
      → Serves run m s log l
      → (apply_samba run m shares l).1 ≡ none
      → IsReady s (items shares) log (apply_samba run m shares l).0
  unfolding apply_samba
  apply_samba-IsReady s shares log l v h =
      let c = write_file (m.root <> samba_shares) (samba_text m.node (sort_shares shares)) in
      let (h1, e1) = split_none (try run c l) (try run reload_samba) h in
      record {
        shares = shares;
        were_listed = refl;
        served_at = l;
        serves = v;
        include = c;
        is_include = refl;
        written = succeeds-error_of _ h1;
        reloaded = succeeds-error_of _ (rw e1 at h);
        is_final = ap (λ (r : Log × Option String). r.0) e1;
      }

  apply_listed-IsReady :
      (s : Share) (list : ListReply Share) (log l : Log)
      → Serves run m s log l
      → (apply_listed run m list l).1 ≡ none
      → IsReady s list log (apply_listed run m list l).0
  unfolding apply_listed
  apply_listed-IsReady s (list_failed e) log l v h = absurd (cc)
  apply_listed-IsReady s (items shares) log l v h = apply_samba-IsReady s shares log l v h

  serve-IsReady :
      (s : Share) (list : ListReply Share) (log : Log)
      → (serve run m s list log).1 ≡ none
      → IsReady s list log (serve run m s list log).0
  unfolding serve
  serve-IsReady s list log h =
      let (h1, e1) = split_none (ensure_share run m s log) (apply_listed run m list) h in
      rw e1 (apply_listed-IsReady s list log _ (ensure_share-Serves run m s log h1) (rw e1 at h))

module _ (lib : MetaLib) (run : Runner) (m : ShareManager) where
  open lib use {is_status_condition_true}

  -- HostReady is True just where no error is reported.
  host_ready-none :
      (s : Share) (e : Option String)
      → is_status_condition_true host_ready (with_host_status lib run m s e).status.conditions
        ≡ true
      → e ≡ none
  unfolding with_host_status
  host_ready-none s none h = refl
  host_ready-none s (some e) h =
      absurd (cc (h, is_true-set_self lib (host_condition s (some e)) s.status.conditions))

  report-IsReady :
      (s w : Share) (reads : Reads) (log : Log) (r : Log × Option String)
      → (r.1 ≡ none → IsReady run m s reads.list_shares log r.0)
      → In w (report lib run m s reads.update_status r).writes
      → is_status_condition_true host_ready w.status.conditions ≡ true
      → IsReady run m s reads.list_shares log (report lib run m s reads.update_status r).log
  unfolding report
  report-IsReady s w reads log (l, e) v i h =
      v (host_ready-none s e (rw (In-single w (with_host_status lib run m s e) _ refl i) at h))

  nothing_written :
      (s w : Share) (reads : Reads) (log : Log)
      → ¬ (In w (reconcile_elsewhere run m s reads log).writes)
  unfolding reconcile_elsewhere
  nothing_written s w reads log i = elim i [ ]

  reconcile_live-IsReady :
      (s w : Share) (reads : Reads) (log : Log)
      → In w (reconcile_live lib run m s reads log).writes
      → is_status_condition_true host_ready w.status.conditions ≡ true
      → (s.status.node ≡ m.node)
        × (s.status.device ≢ "")
        × IsReady run m s reads.list_shares log (reconcile_live lib run m s reads log).log
  unfolding reconcile_live reconcile_here
  reconcile_live-IsReady s w reads log i h =
      elim (Bool-cases (not (s.status.node == m.node) || s.status.device == "")) [
        | inl e ↦ absurd (nothing_written s w reads log (rw (e, reconcile_live) at i))
        | inr e ↦
            rw (e, reconcile_live)
              (
                ground (arith, eq_iff s.status.node m.node),
                ne_of_test _ _ (ground arith),
                report-IsReady s w reads log (serve run m s reads.list_shares log)
                    (serve-IsReady run m s reads.list_shares log) (rw (e, reconcile_live) at i) h,
              )
      ]

  reconcile-live :
      (ns name : String) (s : Share) (reads : Reads) (log : Log)
      → reads.get_share ≡ found s
      → s.meta.deleting ≡ false
      → reconcile lib run m ns name reads log ≡ reconcile_live lib run m s reads log
  unfolding reconcile reconcile_found
  reconcile-live ns name s reads log g d = simp (g, d)

  -- When a pass for a share that is not being deleted writes a status with HostReady True, the share
  -- is placed on this node and has a device, and in this very pass the device was mounted, the
  -- exports were set and flushed, and the samba include was written from the listed shares and
  -- reloaded, each with success.
  pub host_ready-IsReady :
      (ns name : String) (s w : Share) (reads : Reads) (log : Log)
      → reads.get_share ≡ found s
      → s.meta.deleting ≡ false
      → In w (reconcile lib run m ns name reads log).writes
      → is_status_condition_true host_ready w.status.conditions ≡ true
      → (s.status.node ≡ m.node)
        × (s.status.device ≢ "")
        × IsReady run m s reads.list_shares log (reconcile lib run m ns name reads log).log
  host_ready-IsReady ns name s w reads log g d i h =
      let e = reconcile-live ns name s reads log g d in
      rw e (reconcile_live-IsReady s w reads log (rw e at i) h)
