-- ===== src/Share/Writes.antt =====
-- Where the status writes of a share's pass come from.
use stornas.Base.{◌≡◌, refl, ◌⊎◌, inl, inr, true, List, arith, Bool-cases, All, In, All-In, if-both}
use stornas.Kube.{Condition, MetaLib, Outcome, found, teardown_finalizer, WriteReply, written}
use stornas.Share.{
  Share, Replies, Write, update_share, update_share_status, Pass, report, stop, pass,
  with_condition, finish, after, reconcile_live, reconcile_new, reconcile_delete, release,
  finalized, reconcile_found, reconcile,
}

module _ (lib : MetaLib) where
  open lib use {contains_finalizer, contains-add}

  -- The status write `w` is what a pass over `base` reports: the share read, or that share with
  -- the finalizer added.
  pub record Reported (io : Replies) (s w : Share) : Type 0 where
    pub base : Share
    pub reads : (base ≡ s) ⊎ (base ≡ finalized lib s)
    pub guarded : contains_finalizer teardown_finalizer base.meta.finalizers ≡ true
    pub share : Share
    pub condition : Condition
    pub outcome : Outcome
    pub passes : pass lib base io ≡ report share condition outcome
    pub writes : w ≡ with_condition lib share condition

  -- Only status writes matter here.
  abbrev Traced : Replies → Share → Write → Type 0
  Traced io s (update_share w) = Unit
  Traced io s (update_share_status w) = Reported io s w

  module _ (io : Replies) (s base : Share) (reads : (base ≡ s) ⊎ (base ≡ finalized lib s)) where
    finish-Traced :
        (p : Pass)
        → contains_finalizer teardown_finalizer base.meta.finalizers ≡ true
        → pass lib base io ≡ p
        → All (Traced io s) (finish lib io p).0
    unfolding finish
    finish-Traced (stop e) g h = tt
    finish-Traced (report share condition outcome) g h = (
      record {
        base = base;
        reads = reads;
        guarded = g;
        share = share;
        condition = condition;
        outcome = outcome;
        passes = h;
        writes = refl;
      },
      tt,
    )

    new-Traced :
        (r : WriteReply)
        → contains_finalizer teardown_finalizer base.meta.finalizers ≡ true
        → All (Traced io s) (reconcile_new lib base io r).0
    unfolding reconcile_new after
    new-Traced written g = (tt, finish-Traced (pass lib base io) g refl)
    new-Traced _ g = (tt, tt)

  finalized-guarded :
      (s : Share) → contains_finalizer teardown_finalizer (finalized lib s).meta.finalizers ≡ true
  unfolding finalized
  finalized-guarded s = contains-add teardown_finalizer s.meta.finalizers

  live-Traced : (io : Replies) (s : Share) → All (Traced io s) (reconcile_live lib s io).0
  unfolding reconcile_live
  live-Traced io s = elim (Bool-cases (contains_finalizer teardown_finalizer s.meta.finalizers)) [
    | inl e ↦ rw e (finish-Traced io s s (inl refl) (pass lib s io) e refl)
    | inr e ↦ rw e (new-Traced io s (finalized lib s) (inr refl) io.update (finalized-guarded s))
  ]

  -- A deleting share is written without its status.
  delete-Traced : (io : Replies) (s : Share) → All (Traced io s) (reconcile_delete lib s io).0
  unfolding reconcile_delete release
  delete-Traced io s = ground arith

  found-Traced : (io : Replies) (s : Share) → All (Traced io s) (reconcile_found lib s io).0
  unfolding reconcile_found
  found-Traced io s =
      if-both (λ (r : List Write × Outcome). All (Traced io s) r.0) s.meta.deleting
        (reconcile_delete lib s io) (reconcile_live lib s io) (delete-Traced io s)
        (live-Traced io s)

  reconcile-found :
      (io : Replies) (s : Share)
      → io.get_share ≡ found s
      → reconcile lib io ≡ reconcile_found lib s io
  unfolding reconcile
  reconcile-found io s h = ground arith

  -- Every status write reports a pass.
  pub status-Reported :
      (io : Replies) (s w : Share)
      → io.get_share ≡ found s
      → In (update_share_status w) (reconcile lib io).0
      → Reported io s w
  status-Reported io s w h i =
      All-In (Traced io s) (reconcile_found lib s io).0 (update_share_status w) (found-Traced io s)
        (rw (reconcile-found io s h) at i)
