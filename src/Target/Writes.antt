-- ===== src/Target/Writes.antt =====
-- Where the status writes of a target's pass come from.
use stornas.Base.{◌≡◌, refl, ◌⊎◌, inl, inr, true, Bool-cases, All, In, All-In}
use stornas.Kube.{Condition, MetaLib, Outcome, teardown_finalizer, WriteReply, written}
use stornas.Target.{
  Target, Replies, Write, update_target, update_target_status, Pass, report, stop, pass,
  with_condition, finish, after, reconcile_live, reconcile_new, finalized,
}

module _ (lib : MetaLib) where
  open lib use {contains_finalizer, contains-add}

  -- The status write `w` is what a pass over `base` reports: the target read, or that target with
  -- the finalizer added.
  pub record Reported (io : Replies) (s w : Target) : Type 0 where
    pub base : Target
    pub reads : (base ≡ s) ⊎ (base ≡ finalized lib s)
    pub guarded : contains_finalizer teardown_finalizer base.meta.finalizers ≡ true
    pub target : Target
    pub condition : Condition
    pub outcome : Outcome
    pub passes : pass lib base io ≡ report target condition outcome
    pub writes : w ≡ with_condition lib target condition

  -- Only status writes matter here.
  abbrev Traced : Replies → Target → Write → Type 0
  Traced io s (update_target w) = Unit
  Traced io s (update_target_status w) = Reported io s w

  module _ (io : Replies) (s base : Target) (reads : (base ≡ s) ⊎ (base ≡ finalized lib s)) where
    finish-Traced :
        (p : Pass)
        → contains_finalizer teardown_finalizer base.meta.finalizers ≡ true
        → pass lib base io ≡ p
        → All (Traced io s) (finish lib io p).0
    unfolding finish
    finish-Traced (stop e) g h = tt
    finish-Traced (report target condition outcome) g h = (
      record {
        base = base;
        reads = reads;
        guarded = g;
        target = target;
        condition = condition;
        outcome = outcome;
        passes = h;
        writes = refl;
      },
      tt,
    )

    new-Traced :
        (r : WriteReply)
        → contains_finalizer teardown_finalizer base.meta.finalizers ≡ true
        → All (Traced io s) (reconcile_new lib base io r).0
    unfolding reconcile_new after
    new-Traced written g = (tt, finish-Traced (pass lib base io) g refl)
    new-Traced _ g = (tt, tt)

  finalized-guarded :
      (s : Target) → contains_finalizer teardown_finalizer (finalized lib s).meta.finalizers ≡ true
  unfolding finalized
  finalized-guarded s = contains-add teardown_finalizer s.meta.finalizers

  live-Traced : (io : Replies) (s : Target) → All (Traced io s) (reconcile_live lib s io).0
  unfolding reconcile_live
  live-Traced io s = elim (Bool-cases (contains_finalizer teardown_finalizer s.meta.finalizers)) [
    | inl e ↦ rw e (finish-Traced io s s (inl refl) (pass lib s io) e refl)
    | inr e ↦ rw e (new-Traced io s (finalized lib s) (inr refl) io.update (finalized-guarded s))
  ]

  -- Every status write of a live target reports a pass.
  pub status-Reported :
      (io : Replies) (s w : Target)
      → In (update_target_status w) (reconcile_live lib s io).0
      → Reported io s w
  status-Reported io s w i =
      All-In (Traced io s) (reconcile_live lib s io).0 (update_target_status w) (live-Traced io s) i
