-- ===== src/Share/Moves.antt =====
-- A share that moves is not available, and every status is of a share with its finalizer.
use mathlib.Core.Path.{subst, subst₂}
use stornas.Base.{
  String, ◌≡◌, refl, sym, ap, ◌∙◌, ◌≢◌, ◌⊎◌, inl, inr, true, false, some, arith, eq_refl,
  test_of_ne, In,
}
use stornas.Kube.{
  ObjectMeta, Condition, available, host_ready, found, MetaLib, is_true, Outcome,
  teardown_finalizer,
}
use stornas.Nodes.{unready_nodes, Unready, down, unready_failed}
use stornas.Claim.{ClaimVolume, usable, unusable, claim_volume}
use stornas.Placement.{Resolved, placed, no_replica, resolve_placement}
use stornas.Share.{
  Share, Replies, update_share_status, Pass, report, stop, has_moved, with_placement, availability,
  not_available, place, place_with, pass, with_condition, finalized, reconcile,
}
use stornas.Share.Writes.{status-Reported}
use stornas.Share.Honest.{reset-host_ready, with_condition-host_ready, with_condition-available}

-- A share does not move to where it is.
has_moved_self : (node : String) → has_moved node node ≡ false
unfolding has_moved
has_moved_self node = ground (arith, eq_refl node)

has_moved_of_ne : (old node : String) → old ≢ "" → old ≢ node → has_moved old node ≡ true
unfolding has_moved
has_moved_of_ne old node p q = rw (test_of_ne old "" p, test_of_ne old node q)

module _ (lib : MetaLib) where
  open lib use {is_status_condition_true, contains_finalizer}

  -- What a report keeps and resets.
  record Keeps (b s : Share) (c : Condition) : Type 0 where
    meta : s.meta ≡ b.meta
    kind : c.kind ≡ available
    reset :
        has_moved b.status.node s.status.node ≡ true
        → is_status_condition_true host_ready s.status.conditions ≡ false
    follows : has_moved b.status.node s.status.node ≡ true → is_true (some c) ≡ false

  unmoved-Keeps : (b s : Share) (c : Condition) → s ≡ b → c.kind ≡ available → Keeps b s c
  unmoved-Keeps b s c e k = record {
    meta = ap (λ (x : Share). x.meta) e;
    kind = k;
    reset = λ m. absurd (stays m);
    follows = λ m. absurd (stays m);
  }
    where
      stays : has_moved b.status.node s.status.node ≡ true → ⊥
      stays m = cc (
        has_moved_self b.status.node,
        subst (λ (x : Share). has_moved b.status.node x.status.node ≡ true) e m,
      )

  -- Available of a share whose HostReady is false is false.
  availability_follows :
      (s : Share)
      → is_status_condition_true host_ready s.status.conditions ≡ false
      → is_true (some (availability lib s)) ≡ false
  unfolding availability not_available
  availability_follows s h = ground arith

  placed-reset :
      (b : Share) (node device : String)
      → has_moved b.status.node node ≡ true
      → is_status_condition_true host_ready (with_placement lib b node device).status.conditions
        ≡ false
  unfolding with_placement
  placed-reset b node device m = ground (arith, reset-host_ready lib b node)

  placed-Keeps :
      (b : Share) (node device : String)
      → Keeps b
          (with_placement lib b node device)
          (availability lib (with_placement lib b node device))
  unfolding with_placement availability not_available
  placed-Keeps b node device = record {
    meta = refl;
    kind = ground arith;
    reset = λ m. placed-reset b node device m;
    follows =
        λ m. availability_follows (with_placement lib b node device) (placed-reset b node device m);
  }

  place-Keeps :
      (b : Share) (r : Resolved) (s : Share) (c : Condition) (o : Outcome)
      → place lib b r ≡ report s c o
      → Keeps b s c
  unfolding place not_available
  place-Keeps b (no_replica n msg) s c o h = unmoved-Keeps b s c (cc) (ground arith)
  place-Keeps b (placed node device n) s c o h =
      subst₂ (Keeps b) (cc) (cc) (placed-Keeps b node device)

  place_with-Keeps :
      (io : Replies) (b : Share) (v : ClaimVolume) (s : Share) (c : Condition) (o : Outcome)
      → place_with lib b io v ≡ report s c o
      → Keeps b s c
  unfolding place_with not_available
  place_with-Keeps io b (unusable r m) s c o h = unmoved-Keeps b s c (cc) (ground arith)
  place_with-Keeps io b (usable v) s c o h = listed (unready_nodes io.list_nodes) h
    where
      listed :
          (u : Unready)
          → elim u as (λ _. Pass) [
            | unready_failed e ↦ stop e
            | down avoid ↦ place lib b (resolve_placement v b.status.node avoid)
          ]
            ≡ report s c o
          → Keeps b s c
      listed (unready_failed e) h = absurd (cc)
      listed (down avoid) h = place-Keeps b (resolve_placement v b.status.node avoid) s c o h

  pass-Keeps :
      (io : Replies) (b s : Share) (c : Condition) (o : Outcome)
      → pass lib b io ≡ report s c o
      → Keeps b s c
  unfolding pass
  pass-Keeps io b s c o h =
      place_with-Keeps io b (claim_volume io.reader b.meta.namespace b.spec.claim_name) s c o h

  base_node : (b s : Share) → (b ≡ s) ⊎ (b ≡ finalized lib s) → b.status.node ≡ s.status.node
  unfolding finalized
  base_node b s (inl e) = ap (λ (x : Share). x.status.node) e
  base_node b s (inr e) = ap (λ (x : Share). x.status.node) e

  written_node :
      (w s : Share) (c : Condition) → w ≡ with_condition lib s c → w.status.node ≡ s.status.node
  unfolding with_condition
  written_node w s c e = ap (λ (x : Share). x.status.node) e

  written_meta : (w s : Share) (c : Condition) → w ≡ with_condition lib s c → w.meta ≡ s.meta
  unfolding with_condition
  written_meta w s c e = ap (λ (x : Share). x.meta) e

  -- If a pass moves a placed share to another node, then in the status that it writes neither
  -- Available nor HostReady is true.
  pub moved_is_unavailable :
      (io : Replies) (s w : Share)
      → io.get_share ≡ found s
      → In (update_share_status w) (reconcile lib io).0
      → s.status.node ≢ ""
      → s.status.node ≢ w.status.node
      → (is_status_condition_true available w.status.conditions ≡ false)
        × (is_status_condition_true host_ready w.status.conditions ≡ false)
  moved_is_unavailable io s w h i placed_before elsewhere =
      let r = status-Reported lib io s w h i in
      let k = pass-Keeps io r.base r.share r.condition r.outcome r.passes in
      let m =
        moved r.base r.share (base_node r.base s r.reads)
          (written_node w r.share r.condition r.writes) in
      (
        subst (λ (x : Share). is_status_condition_true available x.status.conditions ≡ false)
            (sym r.writes) (with_condition-available lib r.share r.condition k.kind ∙ k.follows m),
        subst (λ (x : Share). is_status_condition_true host_ready x.status.conditions ≡ false)
            (sym r.writes) (with_condition-host_ready lib r.share r.condition k.kind ∙ k.reset m),
      )
    where
      moved :
          (b t : Share)
          → b.status.node ≡ s.status.node
          → w.status.node ≡ t.status.node
          → has_moved b.status.node t.status.node ≡ true
      moved b t p q =
          has_moved_of_ne b.status.node t.status.node (λ e. placed_before (sym p ∙ e))
            (λ e. elsewhere (sym p ∙ e ∙ sym q))

  -- Every status that a pass writes is of a share that has the teardown finalizer.
  pub status_is_finalized :
      (io : Replies) (s w : Share)
      → io.get_share ≡ found s
      → In (update_share_status w) (reconcile lib io).0
      → contains_finalizer teardown_finalizer w.meta.finalizers ≡ true
  status_is_finalized io s w h i =
      let r = status-Reported lib io s w h i in
      let k = pass-Keeps io r.base r.share r.condition r.outcome r.passes in
      subst (λ (m : ObjectMeta). contains_finalizer teardown_finalizer m.finalizers ≡ true)
        (sym (written_meta w r.share r.condition r.writes ∙ k.meta)) r.guarded
