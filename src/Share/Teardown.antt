-- ===== src/Share/Teardown.antt =====
-- The handshake of a share's finalizer: on before the first status, and off in the
-- end.
use stornas.Base.{◌≡◌, true, [], ◌∷◌, arith, eq_iff}
use stornas.Kube.{MetaLib, teardown_finalizer}
use stornas.Nodes.{gone, node_gone_or_unready}
use stornas.Share.{
  Share, Replies, Write, update_share, update_share_status, removed, reconcile_delete, release,
  released,
}

-- What lets the finalizer go: the share was never placed, its agent reported it Removed, or its node
-- is gone or not ready.
pub data MayRelease (io : Replies) (s : Share) : Type 0 where
  never_placed : s.status.node ≡ "" → MayRelease io s
  confirmed : s.status.state ≡ removed → MayRelease io s
  node_gone : node_gone_or_unready (io.get_node s.status.node) ≡ gone true → MayRelease io s

module _ (lib : MetaLib) where
  open lib use {contains_finalizer, add_finalizer, contains-add, contains-remove}

  pub may_release :
      (io : Replies) (s : Share)
      → MayRelease io s
      → contains_finalizer teardown_finalizer s.meta.finalizers ≡ true
      → (reconcile_delete lib s io).0 ≡ update_share (released lib s) ∷ []
  unfolding reconcile_delete release
  may_release io s (never_placed e) c = ground (arith, eq_iff s.status.node "")
  may_release io s (confirmed e) c = ground arith
  may_release io s (node_gone e) c = ground arith

  -- Unless the share is deleting, every status that a pass writes is of a share that has the
  -- teardown finalizer.
  abbrev Guarded : Write → Type 0
  Guarded (update_share w) = Unit
  Guarded (update_share_status w) = contains_finalizer teardown_finalizer w.meta.finalizers ≡ true
