-- ===== src/PoolController/Available.antt =====
-- When a live StoragePool is reported available.
use stornas.Base.{
  ◌≤◌, ◌≡◌, refl, ap, ◌≢◌, ◌⊎◌, inl, inr, Bool, true, false, ◌&&◌, ◌||◌, Option, some, List, [],
  arith, ◌==◌, ltb, Bool-cases, length, In, here, there, In-append, not-In_nil, In-single, if-both,
  subst,
}
use stornas.Kube.{
  available, host_ready, MetaLib, is_true, is_true-set_self, WriteReply, written, conflict,
  pool_finalizer,
}
use stornas.StoragePool.{StoragePool, min_devices, with_conditions, with_finalizers, vg_name}
use stornas.Registrar.{Ensured, pool_ready, not_ready, ensure_failed, ensure_pool}
use stornas.Registrar.Laws.{IsRegistered, ensure_pool-IsRegistered}
use stornas.PoolController.{
  Replies, Write, update_pool_status, requests_of, condition, set_condition, registration, assess,
  is_thick, finish, before, warnings, reconcile_status, reconcile_new, reconcile_live, finalized,
}
use stornas.PoolController.Deletion.{not-In_requests_status}

-- What an available pool is: registered with r-drbd, confirmed by the agent, with enough devices
-- for its raid level, and not thick.
pub record IsSound (lib : MetaLib) (io : Replies) (p : StoragePool) : Type 0 where
  pub in_rdrbd : IsRegistered lib p io.get_rdrbd
  pub confirmed : lib.is_status_condition_true host_ready p.status.conditions ≡ true
  pub enough : min_devices p.spec.raid ≤ length p.spec.devices
  pub thin : p.spec.thin ≢ some false

thin_of : (t : Option Bool) → is_thick t ≡ false → t ≢ some false
thin_of t h e = ground arith

module _ (lib : MetaLib) where
  open lib use {is_status_condition_true}

  registration-ready :
      (p : StoragePool) (ws : List Write) (e : Ensured)
      → ((registration lib p ws e).condition.kind ≡ available)
        × (is_true (some (registration lib p ws e).condition) ≡ true → e ≡ pool_ready)
  unfolding registration condition
  registration-ready p ws pool_ready = (refl, λ h. refl)
  registration-ready p ws (not_ready msg) = (refl, λ h. absurd (cc))
  registration-ready p ws (ensure_failed e) = (refl, λ h. absurd (cc))

  -- The Available condition of the report, on every branch.
  assess_ready :
      (io : Replies) (p : StoragePool)
      → is_true (some (assess lib p io).condition) ≡ true
      → (ltb (length p.spec.devices) (min_devices p.spec.raid) ≡ false)
        × (is_thick p.spec.thin ≡ false)
        × (is_status_condition_true host_ready p.status.conditions ≡ true)
        × ((ensure_pool lib p io.get_rdrbd io.create_rdrbd).1 ≡ pool_ready)
  unfolding assess condition
  assess_ready io p h = ground (
    arith,
    registration-ready p (requests_of (ensure_pool lib p io.get_rdrbd io.create_rdrbd).0)
        (ensure_pool lib p io.get_rdrbd io.create_rdrbd).1,
  )

  assess_kind : (io : Replies) (p : StoragePool) → (assess lib p io).condition.kind ≡ available
  unfolding assess condition
  assess_kind io p = ground (
    arith,
    registration-ready p (requests_of (ensure_pool lib p io.get_rdrbd io.create_rdrbd).0)
        (ensure_pool lib p io.get_rdrbd io.create_rdrbd).1,
  )

  assess-IsSound :
      (io : Replies) (p : StoragePool)
      → is_true (some (assess lib p io).condition) ≡ true
      → IsSound lib io p
  assess-IsSound io p h =
      let (many, thin, confirmed, ready) = assess_ready io p h in
      record {
        in_rdrbd = (ensure_pool-IsRegistered lib p io.get_rdrbd io.create_rdrbd ready).1;
        confirmed = confirmed;
        enough = ground arith;
        thin = thin_of p.spec.thin thin;
      }

  -- The last write of a pass sets the condition that the report gives.
  finished :
      (io : Replies) (p w : StoragePool)
      → is_status_condition_true available w.status.conditions ≡ true
      → w ≡ set_condition lib (assess lib p io).pool (assess lib p io).condition
      → is_true (some (assess lib p io).condition) ≡ true
  unfolding set_condition with_conditions
  finished io p w t e = cc (
    t,
    is_true-set_self lib (assess lib p io).condition (assess lib p io).pool.status.conditions,
    assess_kind io p,
    ap (λ (x : StoragePool). x.status.conditions) e,
  )

  not-In_warnings : (p w : StoragePool) (r : Bool) → ¬ (In (update_pool_status w) (warnings p r))
  unfolding warnings
  not-In_warnings p w r i =
      if-both (λ (ws : List Write). ¬ (In (update_pool_status w) ws))
        (r && (p.status.health == "Degraded" || p.status.health == "Failed")) _ []
        (λ j. absurd (cc (In-single (update_pool_status w) _ _ refl j)))
        (λ j. not-In_nil _ _ refl j) i

  registration_requests :
      (p : StoragePool) (ws : List Write) (e : Ensured) → (registration lib p ws e).requests ≡ ws
  unfolding registration
  registration_requests p ws pool_ready = refl
  registration_requests p ws (not_ready msg) = refl
  registration_requests p ws (ensure_failed e) = refl

  assess_requests :
      (io : Replies) (p : StoragePool)
      → ((assess lib p io).requests ≡ [])
        ⊎ ((assess lib p io).requests
            ≡ requests_of (ensure_pool lib p io.get_rdrbd io.create_rdrbd).0)
  unfolding assess
  assess_requests io p = ground (
    arith,
    registration_requests p (requests_of (ensure_pool lib p io.get_rdrbd io.create_rdrbd).0)
        (ensure_pool lib p io.get_rdrbd io.create_rdrbd).1,
  )

  not-In_assess :
      (io : Replies) (p w : StoragePool) → ¬ (In (update_pool_status w) (assess lib p io).requests)
  not-In_assess io p w i = elim (assess_requests io p) [
    | inl e ↦ not-In_nil _ _ e i
    | inr e ↦ not-In_requests_status _ w (subst (In (update_pool_status w)) e i)
  ]

  status-IsSound :
      (io : Replies) (p w : StoragePool)
      → In (update_pool_status w) (reconcile_status lib p io).0
      → is_status_condition_true available w.status.conditions ≡ true
      → IsSound lib io p
  unfolding reconcile_status before finish
  status-IsSound io p w i t = elim (In-append _ (warnings p io.recorder) _ i) [
    | inl j ↦ absurd (not-In_warnings p w io.recorder j)
    | inr j ↦ elim (In-append _ (assess lib p io).requests _ j) [
      | inl k ↦ absurd (not-In_assess io p w k)
      | inr k ↦
          assess-IsSound io p (finished io p w t (cc (In-single (update_pool_status w) _ _ refl k)))
    ]
  ]

  -- The finalizer is nothing that soundness speaks of.
  IsSound-finalized :
      (io : Replies) (p : StoragePool) → IsSound lib io (finalized lib p) → IsSound lib io p
  unfolding finalized with_finalizers vg_name
  IsSound-finalized io p s = record {
    in_rdrbd = record {
      pool = s.in_rdrbd.pool;
      read = s.in_rdrbd.read;
      at_node = s.in_rdrbd.at_node;
      in_vg = s.in_rdrbd.in_vg;
      kept = s.in_rdrbd.kept;
      reported = s.in_rdrbd.reported;
    };
    confirmed = s.confirmed;
    enough = s.enough;
    thin = s.thin;
  }

  new-IsSound :
      (io : Replies) (p w : StoragePool) (r : WriteReply)
      → In (update_pool_status w) (reconcile_new lib p io r).0
      → is_status_condition_true available w.status.conditions ≡ true
      → IsSound lib io p
  unfolding reconcile_new before
  new-IsSound io p w written (here e) t = absurd (cc)
  new-IsSound io p w written (there i) t = status-IsSound io p w i t
  new-IsSound io p w conflict i t = absurd (cc (In-single _ _ _ refl i))
  new-IsSound io p w _ i t = absurd (cc (In-single _ _ _ refl i))

  -- If a pass over a live pool writes a status whose Available condition is true, then the r-drbd
  -- Pool of that name is at the pool's node and VG, is not being deleted and is reported available,
  -- the agent has confirmed the host (HostReady), the pool has the devices that its raid level
  -- needs, and it is not declared thick.
  pub available-IsSound :
      (io : Replies) (p w : StoragePool)
      → In (update_pool_status w) (reconcile_live lib p io).0
      → is_status_condition_true available w.status.conditions ≡ true
      → IsSound lib io p
  unfolding reconcile_live
  available-IsSound io p w i t =
      elim (Bool-cases (lib.contains_finalizer pool_finalizer p.meta.finalizers)) [
        | inl e ↦ status-IsSound io p w (rw e at i) t
        | inr e ↦
            IsSound-finalized io p (new-IsSound io (finalized lib p) w io.update (rw e at i) t)
      ]
