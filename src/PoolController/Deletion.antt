-- ===== src/PoolController/Deletion.antt =====
-- The deletion of a StoragePool: the clearance to wipe comes after r-drbd let the pool go, and the
-- finalizer goes after the clearance and the wipe.
use stornas.Base.{
  String, ◌≡◌, refl, ap, ◌≢◌, ◌↔◌, ◌⊎◌, inl, inr, true, false, List, [], ◌∷◌, arith, Bool-cases, In,
  here, there, In-append, In-append_right, not-In_nil, In-single, subst,
}
use stornas.Kube.{
  Condition, condition_true, condition_false, deregistered, torn_down, ready, waiting_for_pool,
  MetaLib, is_true-set_self, pool_finalizer, get_not_found, found,
}
use stornas.Nodes.{Gone, gone, gone_failed, node_gone_or_unready}
use stornas.StoragePool.{StoragePool, with_conditions, with_finalizers}
use stornas.Registrar.{
  Request, RdrbdPool, Released, pool_gone, not_gone, delete_failed, delete_pool,
}
use stornas.Registrar.Laws.{IsOurs, delete_pool-gone_iff}
use stornas.PoolController.{
  Replies, Write, request, update_pool, update_pool_status, warn, requests_of, condition,
  set_condition, release, confirm, clear, after_delete, before, reconcile_delete,
}

Gone-cases : (g : Gone) → (g ≡ gone true) ⊎ (g ≢ gone true)
Gone-cases (gone true) = inl refl
Gone-cases (gone false) = inr (λ e. cc)
Gone-cases (gone_failed x) = inr (λ e. cc)

-- The host of the pool needs no more attention: its agent confirmed the wipe, or its node is gone
-- or not ready.
pub data HostDone (lib : MetaLib) (io : Replies) (p : StoragePool) : Type 0 where
  wiped : lib.is_status_condition_true torn_down p.status.conditions ≡ true → HostDone lib io p
  node_gone : node_gone_or_unready (io.get_node p.spec.node) ≡ gone true → HostDone lib io p

-- The registrar's requests are no writes of the pool.
not-In_requests_pool :
    (rs : List Request) (p : StoragePool) → ¬ (In (update_pool p) (requests_of rs))
not-In_requests_pool [] p i = elim i [ ]
not-In_requests_pool (r ∷ rs) p (here e) = cc
not-In_requests_pool (r ∷ rs) p (there i) = not-In_requests_pool rs p i

pub not-In_requests_status :
    (rs : List Request) (p : StoragePool) → ¬ (In (update_pool_status p) (requests_of rs))
not-In_requests_status [] p i = elim i [ ]
not-In_requests_status (r ∷ rs) p (here e) = cc
not-In_requests_status (r ∷ rs) p (there i) = not-In_requests_status rs p i

abbrev conditions_of : Write → List Condition
conditions_of (request r) = []
conditions_of (update_pool p) = []
conditions_of (update_pool_status p) = p.status.conditions
conditions_of (warn m) = []

module _ (lib : MetaLib) where
  open lib use {is_status_condition_true, contains_finalizer, remove_finalizer}

  -- The pool that the release writes.
  abbrev pub without_finalizer : StoragePool → StoragePool
  without_finalizer p = with_finalizers p (remove_finalizer pool_finalizer p.meta.finalizers)

  In-release :
      (io : Replies) (p : StoragePool) (w : Write)
      → In w (release lib p io).0
      → w ≡ update_pool (without_finalizer p)
  unfolding release
  In-release io p w (here e) = e
  In-release io p w (there i) = elim i [ ]

  confirm_ways :
      (io : Replies) (p : StoragePool)
      → ((confirm lib p io).0 ≡ [])
        ⊎ (HostDone lib io p × ((confirm lib p io).0 ≡ (release lib p io).0))
  unfolding confirm
  confirm_ways io p = elim (Bool-cases (is_status_condition_true torn_down p.status.conditions)) [
    | inl t ↦ inr (wiped t, ground arith)
    | inr t ↦ elim (Gone-cases (node_gone_or_unready (io.get_node p.spec.node))) [
      | inl g ↦ inr (node_gone g, ground arith)
      | inr g ↦ inl (ground arith)
    ]
  ]

  -- What a pass over a deleting pool may write beside the registrar's requests.
  data Deletes (io : Replies) (p : StoragePool) : Write → Type 0 where
    holds :
        (msg : String) {w : Write}
        → w
          ≡ update_pool_status
              (set_condition lib p (condition p deregistered condition_false waiting_for_pool msg))
        → Deletes io p w
    clears :
        {w : Write}
        → (delete_pool p io.get_rdrbd io.delete_rdrbd).1 ≡ pool_gone
        → w
          ≡ update_pool_status
              (set_condition lib p (condition p deregistered condition_true ready ""))
        → Deletes io p w
    releases :
        {w : Write}
        → (delete_pool p io.get_rdrbd io.delete_rdrbd).1 ≡ pool_gone
        → is_status_condition_true deregistered p.status.conditions ≡ true
        → HostDone lib io p
        → w ≡ update_pool (without_finalizer p)
        → Deletes io p w

  confirm-Deletes :
      (io : Replies) (p : StoragePool) (w : Write)
      → (delete_pool p io.get_rdrbd io.delete_rdrbd).1 ≡ pool_gone
      → is_status_condition_true deregistered p.status.conditions ≡ true
      → In w (confirm lib p io).0
      → Deletes io p w
  confirm-Deletes io p w g d i = elim (confirm_ways io p) [
    | inl e ↦ absurd (not-In_nil w _ e i)
    | inr (h, e) ↦ releases g d h (In-release io p w (subst (In w) e i))
  ]

  clear-Deletes :
      (io : Replies) (p : StoragePool) (w : Write)
      → (delete_pool p io.get_rdrbd io.delete_rdrbd).1 ≡ pool_gone
      → In w (clear lib p io).0
      → Deletes io p w
  unfolding clear
  clear-Deletes io p w g i =
      elim (Bool-cases (is_status_condition_true deregistered p.status.conditions)) [
        | inl d ↦ confirm-Deletes io p w g d (rw d at i)
        | inr d ↦ clears g (In-single w _ _ refl (rw d at i))
      ]

  after_delete-Deletes :
      (io : Replies) (p : StoragePool) (r : Released) (w : Write)
      → (delete_pool p io.get_rdrbd io.delete_rdrbd).1 ≡ r
      → In w (after_delete lib p io r).0
      → Deletes io p w
  unfolding after_delete
  after_delete-Deletes io p (delete_failed e) w h i = elim i [ ]
  after_delete-Deletes io p (not_gone msg) w h i = holds msg (In-single w _ _ refl i)
  after_delete-Deletes io p pool_gone w h i = clear-Deletes io p w h i

  delete-Deletes :
      (io : Replies) (p : StoragePool) (w : Write)
      → In w (reconcile_delete lib p io).0
      → (contains_finalizer pool_finalizer p.meta.finalizers ≡ true)
        × (In w (requests_of (delete_pool p io.get_rdrbd io.delete_rdrbd).0) ⊎ Deletes io p w)
  unfolding reconcile_delete before
  delete-Deletes io p w i =
      elim (Bool-cases (contains_finalizer pool_finalizer p.meta.finalizers)) [
        | inr c ↦ elim (rw c at i) [ ]
        | inl c ↦ (
          c,
          elim (In-append w (requests_of (delete_pool p io.get_rdrbd io.delete_rdrbd).0)
              (after_delete lib p io (delete_pool p io.get_rdrbd io.delete_rdrbd).1).0
              (rw c at i)) [ inl j ↦ inl j | inr j ↦ inr (after_delete-Deletes io p _ w refl j) ],
        )
      ]

  -- r-drbd's Pool of the StoragePool's name is absent, or is not at its node and VG.
  abbrev pub RdrbdGone : Replies → StoragePool → Type 0
  RdrbdGone io p =
      (io.get_rdrbd ≡ get_not_found)
      ⊎ ((q : RdrbdPool) × (io.get_rdrbd ≡ found q) × (¬ (IsOurs p q)))

  -- What lets the finalizer of a deleting pool go.
  pub record Releases (io : Replies) (p w : StoragePool) : Type 0 where
    pub guarded : contains_finalizer pool_finalizer p.meta.finalizers ≡ true
    pub rdrbd_gone : RdrbdGone io p
    pub cleared : is_status_condition_true deregistered p.status.conditions ≡ true
    pub host_done : HostDone lib io p
    pub writes : w ≡ without_finalizer p

  Deletes-update :
      (io : Replies) (p w : StoragePool)
      → contains_finalizer pool_finalizer p.meta.finalizers ≡ true
      → Deletes io p (update_pool w)
      → Releases io p w
  Deletes-update io p w c (holds msg e) = absurd (cc)
  Deletes-update io p w c (clears g e) = absurd (cc)
  Deletes-update io p w c (releases g d h e) = record {
    guarded = c;
    rdrbd_gone = (delete_pool-gone_iff p io.get_rdrbd io.delete_rdrbd).0 g;
    cleared = d;
    host_done = h;
    writes = cc;
  }

  confirm-release :
      (io : Replies) (p : StoragePool)
      → HostDone lib io p
      → (confirm lib p io).0 ≡ (release lib p io).0
  unfolding confirm
  confirm-release io p (wiped t) = ground arith
  confirm-release io p (node_gone g) = ground arith

  cleared_release :
      (io : Replies) (p w : StoragePool)
      → Releases io p w
      → In (update_pool w) (after_delete lib p io pool_gone).0
  unfolding after_delete clear release
  cleared_release io p w r =
      rw (r.cleared, confirm-release io p r.host_done) (here (ap update_pool r.writes))

  released :
      (io : Replies) (p w : StoragePool)
      → Releases io p w
      → In (update_pool w) (reconcile_delete lib p io).0
  unfolding reconcile_delete before
  released io p w r = rw r.guarded (
      In-append_right (update_pool w) (requests_of (delete_pool p io.get_rdrbd io.delete_rdrbd).0)
        (after_delete lib p io (delete_pool p io.get_rdrbd io.delete_rdrbd).1).0
        (rw ((delete_pool-gone_iff p io.get_rdrbd io.delete_rdrbd).1 r.rdrbd_gone)
          (cleared_release io p w r)))

  -- A pass over a deleting pool writes the pool itself exactly when the pool has the finalizer,
  -- r-drbd's Pool of its name is absent or is at another node or VG, the clearance to wipe was given
  -- in an earlier pass, and either the agent confirmed the wipe or its node is gone or not ready; what
  -- it writes is the pool without the finalizer.
  pub reconcile_delete-Releases_iff :
      (io : Replies) (p w : StoragePool)
      → In (update_pool w) (reconcile_delete lib p io).0 ↔ Releases io p w
  reconcile_delete-Releases_iff io p w = (
    λ i.
        let (c, o) = delete-Deletes io p (update_pool w) i in
        elim o [ inl j ↦ absurd (not-In_requests_pool _ w j) | inr d ↦ Deletes-update io p w c d ],
    released io p w,
  )

  cleared-pool_gone :
      (io : Replies) (p w : StoragePool)
      → is_status_condition_true deregistered w.status.conditions ≡ true
      → Deletes io p (update_pool_status w)
      → (delete_pool p io.get_rdrbd io.delete_rdrbd).1 ≡ pool_gone
  unfolding set_condition with_conditions condition
  cleared-pool_gone io p w t (holds msg e) =
      let d = condition p deregistered condition_false waiting_for_pool msg in
      absurd
        (cc (t, is_true-set_self lib d p.status.conditions, ap (λ (x : Write). conditions_of x) e))
  cleared-pool_gone io p w t (clears g e) = g
  cleared-pool_gone io p w t (releases g d h e) = absurd (cc)

  -- A pass over a deleting pool writes a status in which Deregistered, the agent's clearance to
  -- wipe, is true only when r-drbd's Pool of its name is absent or is at another node or VG.
  pub clearance_needs-RdrbdGone :
      (io : Replies) (p w : StoragePool)
      → In (update_pool_status w) (reconcile_delete lib p io).0
      → is_status_condition_true deregistered w.status.conditions ≡ true
      → RdrbdGone io p
  clearance_needs-RdrbdGone io p w i t =
      let (c, o) = delete-Deletes io p (update_pool_status w) i in
      elim o [
        | inl j ↦ absurd (not-In_requests_status _ w j)
        | inr d ↦
            (delete_pool-gone_iff p io.get_rdrbd io.delete_rdrbd).0 (cleared-pool_gone io p w t d)
      ]

  keeps :
      (io : Replies) (p w : StoragePool) (v : Write)
      → v ≡ update_pool_status w
      → Deletes io p v
      → (w.spec ≡ p.spec) × (w.meta ≡ p.meta)
  unfolding set_condition with_conditions
  keeps io p w v q (holds msg e) = (cc, cc)
  keeps io p w v q (clears g e) = (cc, cc)
  keeps io p w v q (releases g d h e) = absurd (cc)

  -- A status write of a deleting pool changes neither its spec nor its metadata.
  pub status_keeps :
      (io : Replies) (p w : StoragePool)
      → In (update_pool_status w) (reconcile_delete lib p io).0
      → (w.spec ≡ p.spec) × (w.meta ≡ p.meta)
  status_keeps io p w i =
      let (c, o) = delete-Deletes io p (update_pool_status w) i in
      elim o [
        | inl j ↦ absurd (not-In_requests_status _ w j)
        | inr d ↦ keeps io p w (update_pool_status w) refl d
      ]
