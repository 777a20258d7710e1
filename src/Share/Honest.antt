-- ===== src/Share/Honest.antt =====
-- What the status writes of the share controller say: Available is true only of a share that a
-- ready node serves, and a share that moves is not available.
use stornas.Base.{
  ℕ, String, ◌≡◌, refl, sym, ap, ◌∙◌, ◌⊎◌, inl, inr, Bool, true, false, some, arith, In,
}
use stornas.Kube.{
  Condition, available, host_ready, found, MetaLib, is_true, is_true-set_self, is_true-set_ne,
  Outcome,
}
use stornas.Nodes.{down, unready_nodes}
use stornas.Volume.{Volume, ReplicaStatus}
use stornas.Claim.{ClaimVolume, usable, unusable, claim_volume, Backs}
use stornas.Claim.Serving.{claim_volume_iff}
use stornas.Placement.{Resolved, placed, no_replica, resolve_placement}
use stornas.Placement.Best.{IsPreferred, resolve-IsPreferred}
use mathlib.Core.Path.{subst}
use stornas.Share.Writes.{status-Reported}
use stornas.Share.{
  Share, Replies, update_share_status, report, has_moved, reset_host_ready, moved_to,
  with_placement, availability, place, place_with, pass, with_condition, finalized, reconcile,
  not_available,
}

module _ (lib : MetaLib) where
  open lib use {
    is_status_condition_true, contains_finalizer, add_finalizer, contains-add, set_status_condition,
  }

  -- The share `w` that a pass over `s` writes is served: its claim is bound to a volume, its node
  -- and device are those of the replica that the placement rules prefer among the nodes that are
  -- not unready, the agent there has confirmed, and the node did not change in this pass.
  pub record IsServed (io : Replies) (s w : Share) : Type 0 where
    pub volume : Volume
    pub avoid : String → Bool
    pub replica : ReplicaStatus
    pub backed : Backs io.reader s.meta.namespace s.spec.claim_name volume
    pub readiness : unready_nodes io.list_nodes ≡ down avoid
    pub among : In replica volume.replicas
    pub at_node : replica.node ≡ w.status.node
    pub at_device : replica.device_path ≡ w.status.device
    pub preferred : IsPreferred volume s.status.node avoid replica
    pub confirmed : is_status_condition_true host_ready w.status.conditions ≡ true
    pub stayed : has_moved s.status.node w.status.node ≡ false

  -- The reset of a move leaves HostReady false.
  pub reset-host_ready :
      (s : Share) (node : String)
      → is_status_condition_true host_ready (reset_host_ready lib s node) ≡ false
  unfolding reset_host_ready moved_to
  reset-host_ready s node = is_true-set_self lib (moved_to s node) s.status.conditions

  -- Available leaves HostReady as it was.
  pub with_condition-host_ready :
      (s : Share) (c : Condition)
      → c.kind ≡ available
      → is_status_condition_true host_ready (with_condition lib s c).status.conditions
        ≡ is_status_condition_true host_ready s.status.conditions
  unfolding with_condition
  with_condition-host_ready s c e = is_true-set_ne lib host_ready c s.status.conditions (λ h. cc)

  pub with_condition-available :
      (s : Share) (c : Condition)
      → c.kind ≡ available
      → is_status_condition_true available (with_condition lib s c).status.conditions
        ≡ is_true (some c)
  unfolding with_condition
  with_condition-available s c e = cc (e, is_true-set_self lib c s.status.conditions)

  with_placement-stayed :
      (s : Share) (node device : String)
      → is_status_condition_true host_ready (with_placement lib s node device).status.conditions
        ≡ true
      → has_moved s.status.node node ≡ false
  unfolding with_placement
  with_placement-stayed s node device h = ground (arith, reset-host_ready s node)

  -- What a pass reports: a condition of type Available, and, where it is true, a placement whose
  -- agent has confirmed.
  place-report :
      (s : Share) (r : Resolved) (s' : Share) (c : Condition) (o : Outcome)
      → place lib s r ≡ report s' c o
      → (c.kind ≡ available)
        × (is_true (some c) ≡ true
            → (node : String) × (device : String) × (n : ℕ) × (r ≡ placed node device n)
              × (s' ≡ with_placement lib s node device)
              × (is_status_condition_true host_ready s'.status.conditions ≡ true))
  unfolding place availability not_available
  place-report s (no_replica n msg) s' c o h = (ground arith, λ t. ground arith)
  place-report s (placed node device n) s' c o h =
      (ground arith, λ t. (node, device, n, refl, ground arith, ground arith))

  placement_node :
      (s : Share) (node device : String) (s' : Share)
      → s' ≡ with_placement lib s node device
      → s'.status.node ≡ node
  unfolding with_placement
  placement_node s node device s' e = ap (λ (x : Share). x.status.node) e

  placement_device :
      (s : Share) (node device : String) (s' : Share)
      → s' ≡ with_placement lib s node device
      → s'.status.device ≡ device
  unfolding with_placement
  placement_device s node device s' e = ap (λ (x : Share). x.status.device) e

  nodes_listed :
      (io : Replies) (s : Share) (v : Volume) (s' : Share) (c : Condition) (o : Outcome)
      → place_with lib s io (usable v) ≡ report s' c o
      → (avoid : String → Bool) × (unready_nodes io.list_nodes ≡ down avoid)
        × (place lib s (resolve_placement v s.status.node avoid) ≡ report s' c o)
  unfolding place_with
  nodes_listed io s v s' c o h = ground arith

  -- A pass whose report is acceptable for `s`.
  pub record IsHonest (io : Replies) (s s' : Share) (c : Condition) : Type 0 where
    pub kind : c.kind ≡ available
    pub served : is_true (some c) ≡ true → IsServed io s (with_condition lib s' c)

  placed-IsServed :
      (io : Replies) (s : Share) (v : Volume) (avoid : String → Bool) (s' : Share) (c : Condition)
      (node device : String) (n : ℕ)
      → Backs io.reader s.meta.namespace s.spec.claim_name v
      → unready_nodes io.list_nodes ≡ down avoid
      → c.kind ≡ available
      → resolve_placement v s.status.node avoid ≡ placed node device n
      → s' ≡ with_placement lib s node device
      → is_status_condition_true host_ready s'.status.conditions ≡ true
      → IsServed io s (with_condition lib s' c)
  unfolding with_condition
  placed-IsServed io s v avoid s' c node device n b d k r e t =
      let (q, i, qn, qd, p) = resolve-IsPreferred v s.status.node avoid node device n r in
      record {
        volume = v;
        avoid = avoid;
        replica = q;
        backed = b;
        readiness = d;
        among = i;
        at_node = qn ∙ sym (placement_node s node device s' e);
        at_device = qd ∙ sym (placement_device s node device s' e);
        preferred = p;
        confirmed = with_condition-host_ready s' c k ∙ t;
        stayed =
            rw (placement_node s node device s' e)
              (with_placement-stayed s node device (rw e at t));
      }

  place_with-IsHonest :
      (io : Replies) (s : Share) (v : ClaimVolume) (s' : Share) (c : Condition) (o : Outcome)
      → claim_volume io.reader s.meta.namespace s.spec.claim_name ≡ v
      → place_with lib s io v ≡ report s' c o
      → IsHonest io s s' c
  unfolding place_with
  place_with-IsHonest io s (unusable r m) s' c o e h = record {
    kind = ground arith;
    served = λ t. ground arith;
  }
  place_with-IsHonest io s (usable v) s' c o e h =
      let (avoid, d, h') = nodes_listed io s v s' c o h in
      let (k, served) = place-report s (resolve_placement v s.status.node avoid) s' c o h' in
      record {
        kind = k;
        served = λ t.
            let (node, device, n, r, p, ready) = served t in
            placed-IsServed io s v avoid s' c node device n
              ((claim_volume_iff io.reader s.meta.namespace s.spec.claim_name v).0 e) d k r p ready;
      }

  pass-IsHonest :
      (io : Replies) (s s' : Share) (c : Condition) (o : Outcome)
      → pass lib s io ≡ report s' c o
      → IsHonest io s s' c
  unfolding pass
  pass-IsHonest io s s' c o h =
      place_with-IsHonest io s (claim_volume io.reader s.meta.namespace s.spec.claim_name) s' c o
        refl h

  -- The finalizer is nothing that a pass reads.
  IsServed-finalized :
      (io : Replies) (s w : Share) → IsServed io (finalized lib s) w → IsServed io s w
  unfolding finalized
  IsServed-finalized io s w q = record {
    volume = q.volume;
    avoid = q.avoid;
    replica = q.replica;
    backed = q.backed;
    readiness = q.readiness;
    among = q.among;
    at_node = q.at_node;
    at_device = q.at_device;
    preferred = q.preferred;
    confirmed = q.confirmed;
    stayed = q.stayed;
  }

  of_base :
      (io : Replies) (s base w : Share)
      → (base ≡ s) ⊎ (base ≡ finalized lib s)
      → IsServed io base w
      → IsServed io s w
  of_base io s base w (inl e) q = subst (λ (b : Share). IsServed io b w) e q
  of_base io s base w (inr e) q =
      IsServed-finalized io s w (subst (λ (b : Share). IsServed io b w) e q)

  -- If a pass of the share controller writes a status whose Available condition is true, then the
  -- claim is bound to a volume, the node and the device written are those of the replica of that
  -- volume that the placement rules prefer among the nodes not found unready, HostReady is true in
  -- the status written, and this pass did not move the share from another node.
  pub available_IsServed :
      (io : Replies) (s w : Share)
      → io.get_share ≡ found s
      → In (update_share_status w) (reconcile lib io).0
      → is_status_condition_true available w.status.conditions ≡ true
      → IsServed io s w
  available_IsServed io s w h i t =
      let r = status-Reported lib io s w h i in
      let q = pass-IsHonest io r.base r.share r.condition r.outcome r.passes in
      of_base io s r.base w r.reads (
        subst (IsServed io r.base) (sym r.writes) (
          q.served (
            sym (with_condition-available r.share r.condition q.kind)
            ∙ subst (λ (x : Share). is_status_condition_true available x.status.conditions ≡ true)
                r.writes t)))
