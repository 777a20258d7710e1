-- ===== src/Handshake/Progress.antt =====
-- The deletion of a StoragePool comes to its end: the passes of the operator
-- (operator/internal/controller/storagepool_controller.go) and of the agent (internal/agent/pool.go).
use stornas.Base.{String, ◌≡◌, refl, ◌∙◌, inl, inr, true, false, Option, none, some, [], ◌∷◌}
use stornas.Kube.{
  MetaLib, WriteReply, deregistered, torn_down, condition_true, ready, pool_finalizer,
  is_true-set_ne, is_true-set_self,
}
use stornas.Host.{Log, Runner}
use stornas.StoragePool.{StoragePool, with_conditions, vg_name}
use stornas.Registrar.{delete_pool, delete_found, is_ours, pool_gone}
use stornas.Registrar.Laws.{is_ours-IsOurs_iff}
use stornas.PoolController.{
  Replies, update_pool, update_pool_status, reconcile_delete, condition, set_condition, clear,
  confirm, release, after_delete, before,
}
use stornas.PoolController.Deletion.{RdrbdGone, without_finalizer}
use stornas.PoolAgent.{confirmed, reconcile_deleting, after_teardown, teardown_pool, wipe_raid}

module _ (lib : MetaLib) (run : Runner) where
  open lib use {is_status_condition_true, contains_finalizer}

  -- The pool with the operator's clearance.
  abbrev pub cleared : StoragePool → StoragePool
  cleared p = set_condition lib p (condition p deregistered condition_true ready "")

  -- The agent tears a pool down by its name and its spec.
  teardown-cleared :
      (p : StoragePool) (log : Log) → teardown_pool run (cleared p) log ≡ teardown_pool run p log
  unfolding set_condition with_conditions teardown_pool wipe_raid vg_name
  teardown-cleared p log = refl

  cleared_conditions :
      (p : StoragePool)
      → (is_status_condition_true deregistered (cleared p).status.conditions ≡ true)
        × (is_status_condition_true torn_down (cleared p).status.conditions
            ≡ is_status_condition_true torn_down p.status.conditions)
  unfolding set_condition with_conditions condition
  cleared_conditions p =
      let c = condition p deregistered condition_true ready "" in
      (
        is_true-set_self lib c p.status.conditions,
        is_true-set_ne lib torn_down c p.status.conditions (λ e. cc),
      )

  confirmed_conditions :
      (p : StoragePool)
      → (is_status_condition_true torn_down (confirmed lib run p).status.conditions ≡ true)
        × (is_status_condition_true deregistered (confirmed lib run p).status.conditions
            ≡ is_status_condition_true deregistered p.status.conditions)
  unfolding confirmed with_conditions condition
  confirmed_conditions p =
      let c = condition p torn_down condition_true ready "" in
      (
        is_true-set_self lib c p.status.conditions,
        is_true-set_ne lib deregistered c p.status.conditions (λ e. cc),
      )

  -- Where r-drbd has no Pool of this one, the registrar requests nothing.
  delete_pool_idle :
      (io : Replies) (p : StoragePool)
      → RdrbdGone lib io p
      → delete_pool p io.get_rdrbd io.delete_rdrbd ≡ ([], pool_gone)
  unfolding delete_pool delete_found
  delete_pool_idle io p (inl e) = rw e refl
  delete_pool_idle io p (inr (q, e, n)) =
      rw (e, delete_pool) (rw ((is_ours-IsOurs_iff p q).1 n) refl)

  operator_clears :
      (io : Replies) (p : StoragePool)
      → contains_finalizer pool_finalizer p.meta.finalizers ≡ true
      → RdrbdGone lib io p
      → is_status_condition_true deregistered p.status.conditions ≡ false
      → (reconcile_delete lib p io).0 ≡ update_pool_status (cleared p) ∷ []
  unfolding reconcile_delete before after_delete clear
  operator_clears io p c g d =
      rw c (rw (delete_pool_idle io p g, before, after_delete, clear) (rw d refl))

  confirms :
      (p : StoragePool) (reply : WriteReply) (r : Log × Option String)
      → r.1 ≡ none
      → (after_teardown lib run p reply r).writes ≡ confirmed lib run p ∷ []
  unfolding after_teardown
  confirms p reply (l, none) h = refl
  confirms p reply (l, some e) h = absurd (cc)

  agent_confirms :
      (p : StoragePool) (reply : WriteReply) (log : Log)
      → is_status_condition_true deregistered p.status.conditions ≡ true
      → is_status_condition_true torn_down p.status.conditions ≡ false
      → (teardown_pool run p log).1 ≡ none
      → (reconcile_deleting lib run p reply log).writes ≡ confirmed lib run p ∷ []
  unfolding reconcile_deleting
  agent_confirms p reply log d t h =
      rw (d, t, reconcile_deleting) (confirms p reply (teardown_pool run p log) h)

  operator_releases :
      (io : Replies) (p : StoragePool)
      → contains_finalizer pool_finalizer p.meta.finalizers ≡ true
      → RdrbdGone lib io p
      → is_status_condition_true deregistered p.status.conditions ≡ true
      → is_status_condition_true torn_down p.status.conditions ≡ true
      → (reconcile_delete lib p io).0 ≡ update_pool (without_finalizer lib p) ∷ []
  unfolding reconcile_delete before after_delete clear confirm release
  operator_releases io p c g d t =
      rw c (rw (delete_pool_idle io p g, before, after_delete, clear) (rw (d, confirm) (rw t refl)))

  -- The clearance and the confirmation keep the pool's name, spec and finalizers.
  kept_finalizer :
      (p : StoragePool)
      → contains_finalizer pool_finalizer p.meta.finalizers ≡ true
      → contains_finalizer pool_finalizer (confirmed lib run (cleared p)).meta.finalizers ≡ true
  unfolding confirmed set_condition with_conditions
  kept_finalizer p c = c

  kept_gone :
      (io : Replies) (p : StoragePool)
      → RdrbdGone lib io p
      → RdrbdGone lib io (confirmed lib run (cleared p))
  unfolding confirmed set_condition with_conditions is_ours vg_name
  kept_gone io p g = g

  -- The deletion of a pool comes to its end in three passes, whose writes are all given. Where
  -- r-drbd's Pool of the name of a deleting pool that has the finalizer is absent or is not at its
  -- node and VG, and neither side has acted yet, the operator's pass writes the clearance and nothing
  -- else. The agent's pass over the cleared pool, on a host where the teardown succeeds, writes its
  -- confirmation. The operator's next pass, if r-drbd has made no such Pool since, writes the pool
  -- without the finalizer.
  pub deletion_ends :
      (p : StoragePool) (io io' : Replies) (reply : WriteReply) (log : Log)
      → contains_finalizer pool_finalizer p.meta.finalizers ≡ true
      → RdrbdGone lib io p
      → RdrbdGone lib io' p
      → is_status_condition_true deregistered p.status.conditions ≡ false
      → is_status_condition_true torn_down p.status.conditions ≡ false
      → (teardown_pool run p log).1 ≡ none
      → let w = cleared p in
        let w' = confirmed lib run w in
        ((reconcile_delete lib p io).0 ≡ update_pool_status w ∷ [])
        × ((reconcile_deleting lib run w reply log).writes ≡ w' ∷ [])
        × ((reconcile_delete lib w' io').0 ≡ update_pool (without_finalizer lib w') ∷ [])
  deletion_ends p io io' reply log c g g' d t h =
      let (cd, ct) = cleared_conditions p in
      let (ft, fd) = confirmed_conditions (cleared p) in
      (
        operator_clears io p c g d,
        agent_confirms (cleared p) reply log cd (ct ∙ t) (rw (teardown-cleared p log) h),
        operator_releases io' (confirmed lib run (cleared p)) (kept_finalizer p c)
            (kept_gone io' p g') (fd ∙ cd) ft,
      )
