-- ===== src/PoolAgent/Clearance.antt =====
-- When the agent touches a deleting pool, and when it confirms.
use stornas.Base.{
  String, ◌≡◌, refl, sym, ap, ◌∙◌, ◌≢◌, ◌⊎◌, inl, inr, true, false, not, ◌||◌, Option, none, some,
  [], arith, Bool-cases, In, here, there, not-In_nil, subst,
}
use stornas.Kube.{torn_down, deregistered, MetaLib, WriteReply}
use stornas.Host.{Log, Runner}
use stornas.StoragePool.{StoragePool}
use stornas.PoolAgent.{Reaction, teardown_pool, confirmed, after_teardown, reconcile_deleting}
use stornas.PoolAgent.Complete.{IsTornDown, teardown_pool-IsTornDown}

module _ (lib : MetaLib) (run : Runner) where
  open lib use {is_status_condition_true}

  -- The operator has given its clearance, and the agent has not confirmed yet.
  pub record IsCleared (p : StoragePool) : Type 0 where
    pub cleared : is_status_condition_true deregistered p.status.conditions ≡ true
    pub open_yet : is_status_condition_true torn_down p.status.conditions ≡ false

  guard :
      (p : StoragePool)
      → (is_status_condition_true torn_down p.status.conditions
          || not (is_status_condition_true deregistered p.status.conditions))
        ≡ false
      → IsCleared p
  guard p h = record { cleared = ground arith; open_yet = ground arith }

  -- A pass over a deleting pool either touches and writes nothing, or the pool is cleared and the
  -- pass is a teardown and what follows it.
  pub idle_or_teardown :
      (p : StoragePool) (reply : WriteReply) (log : Log)
      → (((reconcile_deleting lib run p reply log).log ≡ log)
          × ((reconcile_deleting lib run p reply log).writes ≡ []))
        ⊎ (IsCleared p
            × (reconcile_deleting lib run p reply log
                ≡ after_teardown lib run p reply (teardown_pool run p log)))
  unfolding reconcile_deleting
  idle_or_teardown p reply log =
      elim (Bool-cases (
        is_status_condition_true torn_down p.status.conditions
        || not (is_status_condition_true deregistered p.status.conditions))) [
          | inl e ↦ rw (e, reconcile_deleting) (inl (refl, refl))
          | inr e ↦ inr (guard p e, rw (e, reconcile_deleting) refl)
        ]

  -- The agent runs a host command for a deleting pool only if the operator has set Deregistered
  -- and the agent has not confirmed the teardown already.
  pub runs-IsCleared :
      (p : StoragePool) (reply : WriteReply) (log : Log)
      → (reconcile_deleting lib run p reply log).log ≢ log
      → IsCleared p
  runs-IsCleared p reply log h = elim (idle_or_teardown p reply log) [
    | inl q ↦ absurd (h q.0)
    | inr q ↦ q.0
  ]

  after_teardown_writes :
      (p w : StoragePool) (reply : WriteReply) (r : Log × Option String)
      → In w (after_teardown lib run p reply r).writes
      → (r.1 ≡ none) × (w ≡ confirmed lib run p) × ((after_teardown lib run p reply r).log ≡ r.0)
  unfolding after_teardown
  after_teardown_writes p w reply (l, some e) i = elim i [ ]
  after_teardown_writes p w reply (l, none) (here e) = (refl, e, refl)
  after_teardown_writes p w reply (l, none) (there i) = elim i [ ]

  pub writes-IsTornDown :
      (p w : StoragePool) (reply : WriteReply) (log : Log)
      → In w (reconcile_deleting lib run p reply log).writes
      → (w ≡ confirmed lib run p)
        × IsCleared p
        × IsTornDown run p (reconcile_deleting lib run p reply log).log
  writes-IsTornDown p w reply log i = elim (idle_or_teardown p reply log) [
    | inl q ↦ absurd (not-In_nil w _ q.1 i)
    | inr q ↦
        let (n, e, l) =
          after_teardown_writes p w reply (teardown_pool run p log)
            (subst (λ r. In w r.writes) q.1 i) in
        (
          e,
          q.0,
          subst (IsTornDown run p) (sym (ap (λ (r : Reaction). r.log) q.1 ∙ l))
              (teardown_pool-IsTornDown run p log n),
        )
  ]
