-- ===== src/EventBus.antt =====
-- internal/eventbus/bus.go: versions that grow, and wakes that coalesce.
pub mod Subs
pub mod System
pub mod Wakes
mod Examples
use stornas.Base.{ℕ, ◌+◌, ◌%◌, ◌^◌, Bool, true, false, List, [], ◌∷◌, ◌++◌, nat_eq, if◌then◌else◌}

pub data Kind : Type 0 where
  pool_changed : Kind
  node_changed : Kind
  volume_changed : Kind
  target_changed : Kind
  share_changed : Kind
  snapshot_changed : Kind
  alert_changed : Kind
  task_changed : Kind

abbrev pub kind_index : Kind → ℕ
kind_index pool_changed = 0
kind_index node_changed = 1
kind_index volume_changed = 2
kind_index target_changed = 3
kind_index share_changed = 4
kind_index snapshot_changed = 5
kind_index alert_changed = 6
kind_index task_changed = 7

abbrev pub same_kind : Kind → Kind → Bool
same_kind a b = nat_eq (kind_index a) (kind_index b)

-- A subscription: its pointer as a number, its kinds, and whether its 1-buffered channel is full.
pub record Subscription : Type 0 where
  pub id : ℕ
  pub kinds : Kind → Bool
  pub pending : Bool

pub record Bus : Type 0 where
  pub versions : Kind → ℕ
  pub subs : List Subscription
  pub next_id : ℕ

-- `New`.
abbrev pub new_bus : Bus
new_bus = record { versions = λ k. 0; subs = []; next_id = 0 }

-- `atomic.Uint64`.
abbrev pub wrap : ℕ → ℕ
wrap n = n % 2 ^ 64

unfoldable pub bump : Kind → (Kind → ℕ) → Kind → ℕ
bump k versions j = if same_kind k j then wrap (versions j + 1) else versions j

-- The send that does not block: a full channel stays full.
unfoldable pub wake : Kind → Subscription → Subscription
wake k s = if s.kinds k then record s { pending = true } else s

unfoldable pub wake_all : Kind → List Subscription → List Subscription
wake_all k [] = []
wake_all k (s ∷ ss) = wake k s ∷ wake_all k ss

-- Where a call of `Publish` is: before the atomic add, before the wakes, at the end.
pub data Stage : Type 0 where
  at_add at_wake returned : Stage

-- One step of `Publish`. The wakes are one step, since the read lock that is held over them keeps
-- Subscribe and cancel out and each send goes to a channel of its own.
unfoldable pub publish_step : Kind → Stage → Bus → Bus × Stage
publish_step k at_add b = (record b { versions = bump k b.versions }, at_wake)
publish_step k at_wake b = (record b { subs = wake_all k b.subs }, returned)
publish_step k returned b = (b, returned)

-- `Publish` when nobody comes between its steps.
unfoldable pub publish : Kind → Bus → Bus
unfolding publish_step
publish k b = let (b', stage) = publish_step k at_add b in (publish_step k stage b').0

-- `Version`.
unfoldable pub version : List Kind → Bus → ℕ
version [] b = 0
version (k ∷ ks) b = let rest = version ks b in wrap (b.versions k + rest)

-- `Subscribe`.
unfoldable pub subscribe : (Kind → Bool) → Bus → Bus × ℕ
subscribe kinds b = (
  record b {
    subs = b.subs ++ record { id = b.next_id; kinds = kinds; pending = false } ∷ [];
    next_id = b.next_id + 1;
  },
  b.next_id,
)

unfoldable pub without : ℕ → List Subscription → List Subscription
without i [] = []
without i (s ∷ ss) = let rest = without i ss in if nat_eq s.id i then rest else s ∷ rest

-- The `cancel` of `Subscribe`, which `once` makes harmless to repeat.
unfoldable pub cancel : ℕ → Bus → Bus
cancel i b = record b { subs = without i b.subs }

unfoldable pub drain : ℕ → List Subscription → List Subscription
drain i [] = []
drain i (s ∷ ss) =
    let rest = drain i ss in if nat_eq s.id i then record s { pending = false } ∷ rest else s ∷ rest

-- A consumer takes the wake from its channel.
unfoldable pub receive : ℕ → Bus → Bus
receive i b = record b { subs = drain i b.subs }
