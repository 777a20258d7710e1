-- ===== src/ShareAgent/Pass/Removed.antt =====
-- What Removed is worth, as internal/agent/share_reconciler.go reports it.
use stornas.Share.{Share}
