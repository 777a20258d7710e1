-- ===== src/Target/Served.antt =====
-- What the status writes of the target controller say: Available is true only of a target whose
-- every LUN has a device that the placement rules chose.
mod Luns
mod Credentials
use stornas.Base.{String, ◌≡◌, ◌≢◌, ◌⊎◌, Bool, true, false, ◌&&◌, List, ◌==◌, In}
use stornas.Kube.{Condition, host_ready, MetaLib}
use stornas.Nodes.{down, unready_nodes}
use stornas.Volume.{Volume}
use stornas.Share.{has_moved}
use stornas.Target.{
  Initiator, Target, Replies, versions, chap_secrets, SecretVersion, all_usable, volumes_of,
  located, locate_rest, with_placement, with_iqn, LunStatus,
}
pub use Luns.{Serves}
pub use Credentials.{IsUsable}

module _ (lib : MetaLib) where
  open lib use {is_status_condition_true}

  -- The target `w` that a pass over `s` writes is served: every LUN has the device that the
  -- placement rules prefer among the nodes that are not unready, the active node is that of the
  -- first LUN, a replicated LUN has a VIP to follow, no Secret is broken, the agent has confirmed,
  -- and the node did not change in this pass.
  pub record IsServed (io : Replies) (s w : Target) : Type 0 where
    pub avoid : String → Bool
    pub replicated : Bool
    pub readiness : unready_nodes io.list_nodes ≡ down avoid
    pub serves :
        Serves io.reader s.meta.namespace s.status.active_node avoid s.spec.luns w.status.luns
          w.status.active_node replicated
    pub has_vip : (replicated ≡ false) ⊎ (s.spec.vip ≢ "")
    pub secrets : chap_secrets io s ≡ versions w.status.chap_secret_versions ""
    pub usable :
        (ini : Initiator)
        → In ini s.spec.initiators
        → (ini.chap_secret_ref ≡ "") ⊎ IsUsable (io.get_secret s.meta.namespace) ini.chap_secret_ref
    pub confirmed : is_status_condition_true host_ready w.status.conditions ≡ true
    pub stayed : has_moved s.status.active_node w.status.active_node ≡ false

  -- A pass that reports Available went through every step.
  record Placed (io : Replies) (s t : Target) (c : Condition) : Type 0 where
    avoid : String → Bool
    volumes : List Volume
    node : String
    replicated : Bool
    luns : List LunStatus
    vs : List SecretVersion
    secrets : chap_secrets io s ≡ versions vs ""
    usable_volumes : volumes_of io.reader s.meta.namespace s.spec.luns ≡ all_usable volumes
    readiness : unready_nodes io.list_nodes ≡ down avoid
    found :
        locate_rest s.status.active_node avoid s.spec.luns volumes ≡ located node replicated luns
    has_vip : (replicated && s.spec.vip == "") ≡ false
    writes : t ≡ with_placement lib (with_iqn s vs) node luns
    ready : is_status_condition_true host_ready t.status.conditions ≡ true
