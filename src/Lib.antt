-- ===== src/Lib.antt =====
-- A model of the core of stornas, a NAS/SAN appliance on Kubernetes.
--
-- The operator (operator/internal) makes every decision, the node agent (internal/agent) executes
-- them on its host, and the server (internal) serves the API and the UI. A volume is a claim bound
-- to an r-drbd Volume; the operator places shares and targets on a node that serves the volume.
--
--   Base        shared names, Boolean tests, lists
--   Kube        object metadata, conditions and the replies of the API server; the condition and
--               finalizer helpers of apimachinery and controller-runtime are the parameter
--               `MetaLib`, whose laws are their documented behaviour; Kube/Concrete fills it
--   Nodes       operator/internal/controller/nodes.go
--   Volume      operator/api/rdrbd/v1alpha1/volume_types.go
--   Placement   operator/internal/rdrbd/resolver.go
--   Claim       operator/internal/controller/claim.go
--   Share       operator/internal/controller/share_controller.go
--   Chap        ChapCredentials and LocalUserPassword of operator/api/v1alpha1
--   Target      operator/internal/controller/target_controller.go and its API types
--   StoragePool operator/api/v1alpha1/storagepool_types.go, conditions.go
--   Registrar   operator/internal/rdrbd/registrar.go
--   PoolController
--               operator/internal/controller/storagepool_controller.go
--   LocalUser   operator/internal/controller/localuser_controller.go
--   ClaimBinder operator/internal/controller/claim_binder.go
--   TierClasses operator/internal/controller/tier_classes.go
--   Watches     the mappers of watch events of the controllers
--   Strings     Go's `strings` on texts
--   Host        the Runner of internal/lvm/lvm.go: a command, its reply, and the log of what ran
--   Lvm         internal/lvm/lvm.go
--   Mdraid      internal/mdraid/mdraid.go
--   PoolAgent   internal/agent/pool.go: the teardown of a pool
--   Replace     internal/agent/replace.go
--   Handshake   the turns of PoolController, PoolAgent and r-drbd on a deleting pool
--   ShareAgent  internal/agent/share.go; its child Pass is internal/agent/share_reconciler.go
--   UserAgent   internal/agent/user_reconciler.go, and the SMB users of internal/agent/share.go
--   Vip, Lio    internal/agent/lio.go
--   TargetAgent internal/agent/target_reconciler.go
--   Auth        internal/auth/auth.go
--   KubeSource  internal/auth/kube.go
--   EventBus    internal/eventbus/bus.go
--   TtlCache    internal/ttlcache/ttlcache.go
--   Tasks       internal/tasks/tasks.go
--   Samples     test data
--
-- A pass of a controller is a function from what it reads (`Replies`, one field for each read, and
-- one for the reply to each kind of write) to the writes that it makes, in order, and its outcome.
-- The agent's functions take the log of the commands that ran and give the log with theirs; the host
-- is any function from a log and a command to a reply, so that theorems hold whatever it answers.
-- Loops are recursions on the list that they range over, so there is no fuel.
-- Not modelled: contexts, logging, the watch wiring (SetupWithManager), deep copies, HTTP.
pub mod Base
pub mod Kube
pub mod Nodes
pub mod Volume
pub mod Placement
pub mod Claim
pub mod Samples
pub mod Share
pub mod Chap
pub mod Target
pub mod StoragePool
pub mod Registrar
pub mod PoolController
pub mod LocalUser
pub mod ClaimBinder
pub mod Watches
pub mod TierClasses
pub mod Strings
pub mod Host
pub mod Lvm
pub mod Mdraid
pub mod PoolAgent
pub mod Replace
pub mod Handshake
pub mod UserAgent
pub mod ShareAgent
pub mod Vip
pub mod Lio
pub mod TargetAgent
pub mod KubeSource
pub mod Auth
pub mod EventBus
pub mod TtlCache
pub mod Tasks
