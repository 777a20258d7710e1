-- ===== src/Handshake.antt =====
-- The deletion of a StoragePool as a system: the operator's pass
-- (operator/internal/controller/storagepool_controller.go), the agent's pass
-- (internal/agent/pool.go) and r-drbd take turns on the pool, on r-drbd's Pool and on the host.
pub mod Progress
mod Examples
use stornas.Base.{◌≡◌, refl, ap, ◌∙◌, ◌≢◌, ◌⊎◌, inl, inr, true, false, [], In, subst}
use stornas.Kube.{
  MetaLib, GetReply, get_not_found, found, WriteReply, deregistered, torn_down, condition_true,
  ready, is_true-set_ne,
}
use stornas.Host.{Log, Runner}
use stornas.StoragePool.{StoragePool, with_conditions, vg_name}
use stornas.Registrar.{RdrbdPool}
use stornas.Registrar.Laws.{IsOurs}
use stornas.PoolController.{Replies, update_pool_status, reconcile_delete, condition}
use stornas.PoolController.Deletion.{clearance_needs-RdrbdGone, status_keeps}
use stornas.PoolAgent.{confirmed, reconcile_deleting}
use stornas.PoolAgent.Clearance.{idle_or_teardown, writes-IsTornDown}

-- The deleting pool, what a read of r-drbd's Pool of its name gives, and the commands that the
-- agent ran for it.
pub record State : Type 0 where
  pub pool : StoragePool
  pub rdrbd : GetReply RdrbdPool
  pub log : Log

-- r-drbd's Pool of the StoragePool's name, as it was read, is absent or is not at its node and VG.
abbrev pub Gone : StoragePool → GetReply RdrbdPool → Type 0
Gone p r = (r ≡ get_not_found) ⊎ ((q : RdrbdPool) × (r ≡ found q) × (¬ (IsOurs p q)))

module _ (lib : MetaLib) (run : Runner) where
  open lib use {is_status_condition_true}

  -- One turn. A pass whose status write fails changes no more than the log. r-drbd may do what it
  -- likes, but it puts no Pool of the pool's name at its node and VG: only the registrar of a live
  -- StoragePool does.
  pub data Step : State → State → Type 0 where
    operator :
        (st : State) (io : Replies) (w : StoragePool)
        → io.get_rdrbd ≡ st.rdrbd
        → In (update_pool_status w) (reconcile_delete lib st.pool io).0
        → Step st (record st { pool = w })
    agent_runs :
        (st : State) (reply : WriteReply)
        → Step st (record st { log = (reconcile_deleting lib run st.pool reply st.log).log })
    agent_confirms :
        (st : State) (reply : WriteReply) (w : StoragePool)
        → In w (reconcile_deleting lib run st.pool reply st.log).writes
        → Step st (record {
          pool = w;
          rdrbd = st.rdrbd;
          log = (reconcile_deleting lib run st.pool reply st.log).log;
        })
    rdrbd_changes :
        (st : State) (r : GetReply RdrbdPool)
        → (Gone st.pool st.rdrbd → Gone st.pool r)
        → Step st (record st { rdrbd = r })

  -- At the start the operator has given no clearance, and the agent has run nothing.
  pub record IsStart (st : State) : Type 0 where
    pub no_clearance : is_status_condition_true deregistered st.pool.status.conditions ≡ false
    pub idle : st.log ≡ []

  pub data Reachable : State → Type 0 where
    start : (st : State) → IsStart st → Reachable st
    next : (st st' : State) → Reachable st → Step st st' → Reachable st'

  -- A clearance stands, or the agent has acted, only where r-drbd's Pool is gone.
  pub record IsSafe (st : State) : Type 0 where
    pub clearance :
        is_status_condition_true deregistered st.pool.status.conditions ≡ true
        → Gone st.pool st.rdrbd
    pub action : st.log ≢ [] → Gone st.pool st.rdrbd

  node_keeps : (p w : StoragePool) → w.spec ≡ p.spec → w.spec.node ≡ p.spec.node
  node_keeps p w s = cc

  vg_keeps : (p w : StoragePool) → w.spec ≡ p.spec → w.meta ≡ p.meta → vg_name w ≡ vg_name p
  unfolding vg_name
  vg_keeps p w s m = cc

  Gone-keeps :
      (p w : StoragePool) (r : GetReply RdrbdPool)
      → w.spec ≡ p.spec
      → w.meta ≡ p.meta
      → Gone p r
      → Gone w r
  Gone-keeps p w r s m (inl e) = inl e
  Gone-keeps p w r s m (inr (q, e, o)) =
      inr (q, e, λ (n, v). o (n ∙ node_keeps p w s, v ∙ vg_keeps p w s m))

  -- What an agent's log says: it is the old one, or the pool was cleared.
  log_gone :
      (st : State) (reply : WriteReply)
      → IsSafe st
      → (reconcile_deleting lib run st.pool reply st.log).log ≢ []
      → Gone st.pool st.rdrbd
  log_gone st reply s h = elim (idle_or_teardown lib run st.pool reply st.log) [
    | inl q ↦ s.action (λ e. h (q.0 ∙ e))
    | inr q ↦ s.clearance q.0.cleared
  ]

  confirmed_keeps :
      (p : StoragePool)
      → ((confirmed lib run p).spec ≡ p.spec)
        × ((confirmed lib run p).meta ≡ p.meta)
        × (is_status_condition_true deregistered (confirmed lib run p).status.conditions
            ≡ is_status_condition_true deregistered p.status.conditions)
  unfolding confirmed with_conditions condition
  confirmed_keeps p = (
    refl,
    refl,
    is_true-set_ne lib deregistered (condition p torn_down condition_true ready "")
        p.status.conditions (λ e. cc),
  )

  operator-IsSafe :
      (st : State) (io : Replies) (w : StoragePool)
      → io.get_rdrbd ≡ st.rdrbd
      → In (update_pool_status w) (reconcile_delete lib st.pool io).0
      → IsSafe st
      → IsSafe (record st { pool = w })
  operator-IsSafe st io w q i s =
      let (a, b) = status_keeps lib io st.pool w i in
      record {
        clearance = λ t.
            Gone-keeps st.pool w st.rdrbd a b
              (subst (Gone st.pool) q (clearance_needs-RdrbdGone lib io st.pool w i t));
        action = λ n. Gone-keeps st.pool w st.rdrbd a b (s.action n);
      }

  confirms-IsSafe :
      (st : State) (reply : WriteReply) (w : StoragePool)
      → In w (reconcile_deleting lib run st.pool reply st.log).writes
      → IsSafe st
      → IsSafe (record {
        pool = w;
        rdrbd = st.rdrbd;
        log = (reconcile_deleting lib run st.pool reply st.log).log;
      })
  confirms-IsSafe st reply w i s =
      let (e, cleared, torn) = writes-IsTornDown lib run st.pool w reply st.log i in
      let (a, b, d) = confirmed_keeps st.pool in
      let gone =
        Gone-keeps st.pool w st.rdrbd (ap (λ (x : StoragePool). x.spec) e ∙ a)
          (ap (λ (x : StoragePool). x.meta) e ∙ b) (s.clearance cleared.cleared) in
      record { clearance = λ t. gone; action = λ n. gone }

  turn-IsSafe : (st st' : State) → Step st st' → IsSafe st → IsSafe st'
  turn-IsSafe _ _ (operator st io w q i) s = operator-IsSafe st io w q i s
  turn-IsSafe _ _ (agent_runs st reply) s = record {
    clearance = s.clearance;
    action = λ n. log_gone st reply s n;
  }
  turn-IsSafe _ _ (agent_confirms st reply w i) s = confirms-IsSafe st reply w i s
  turn-IsSafe _ _ (rdrbd_changes st r k) s = record {
    clearance = λ t. k (s.clearance t);
    action = λ n. k (s.action n);
  }

  start-IsSafe : (st : State) → IsStart st → IsSafe st
  start-IsSafe st h = record {
    clearance = λ t. absurd (cc (t, h.no_clearance));
    action = λ n. absurd (n h.idle);
  }

  Reachable-IsSafe : (st : State) → Reachable st → IsSafe st
  Reachable-IsSafe _ (start st h) = start-IsSafe st h
  Reachable-IsSafe _ (next s st r h) = turn-IsSafe s st h (Reachable-IsSafe s r)

  -- In every state that the operator, the agent and r-drbd can reach by turns from one without a
  -- clearance in which the agent has run nothing, where r-drbd puts no Pool of the pool's name at the
  -- pool's node and VG by itself, if the agent has run any host command for the deleting pool, then
  -- r-drbd's Pool of that name is absent or is at another node or VG. Pools of other names, which the
  -- code does not read here, are not spoken of.
  pub acts_after_release : (st : State) → Reachable st → st.log ≢ [] → Gone st.pool st.rdrbd
  acts_after_release st r n = (Reachable-IsSafe st r).action n
