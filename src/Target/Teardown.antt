-- ===== src/Target/Teardown.antt =====
-- The handshake of a target's finalizer: on before the first status, and off in
-- the end.
use stornas.Base.{◌≡◌, true}
use stornas.Nodes.{gone, node_gone_or_unready}
use stornas.Share.{removed}
use stornas.Target.{Target, Replies}

-- What lets the finalizer go: the target was never placed, its agent reported it Removed, or its node
-- is gone or not ready.
pub data MayRelease (io : Replies) (s : Target) : Type 0 where
  never_placed : s.status.active_node ≡ "" → MayRelease io s
  confirmed : s.status.state ≡ removed → MayRelease io s
  node_gone : node_gone_or_unready (io.get_node s.status.active_node) ≡ gone true → MayRelease io s
