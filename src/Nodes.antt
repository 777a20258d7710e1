-- ===== src/Nodes.antt =====
-- operator/internal/controller/nodes.go: which nodes may serve.
use stornas.Base.{String, Bool, true, false, not, ◌&&◌, ◌||◌, List, [], ◌∷◌, ◌==◌, if◌then◌else◌}
use stornas.Kube.{
  ConditionStatus, condition_true, condition_false, condition_unknown, GetReply, found,
  get_not_found, get_failed, ListReply, items, list_failed,
}

-- A condition of a Node, by its type's name.
pub record NodeCondition : Type 0 where
  pub kind : String
  pub status : ConditionStatus

pub record Node : Type 0 where
  pub name : String
  pub conditions : List NodeCondition

-- `corev1.NodeReady`.
abbrev pub node_ready_type : String
node_ready_type = "Ready"

abbrev pub is_condition_true : ConditionStatus → Bool
is_condition_true condition_true = true
is_condition_true condition_false = false
is_condition_true condition_unknown = false

-- The loop of `nodeReady`: the first condition of type Ready decides.
unfoldable pub ready_from : List NodeCondition → Bool
ready_from [] = false
ready_from (c ∷ cs) =
    if c.kind == node_ready_type then is_condition_true c.status else ready_from cs

unfoldable pub node_ready : Node → Bool
unfolding ready_from
node_ready n = ready_from n.conditions

-- The map that `unreadyNodes` builds, as its lookup: true exactly at the names it holds.
unfoldable pub down_among : List Node → String → Bool
down_among [] name = false
down_among (n ∷ ns) name = (not (node_ready n) && n.name == name) || down_among ns name

-- `unreadyNodes`.
pub data Unready : Type 0 where
  down : (String → Bool) → Unready
  unready_failed : String → Unready

unfoldable pub unready_nodes : ListReply Node → Unready
unready_nodes (items ns) = down (down_among ns)
unready_nodes (list_failed e) = unready_failed e

-- `nodeGoneOrUnready` of the reply to the read of the node.
pub data Gone : Type 0 where
  gone : Bool → Gone
  gone_failed : String → Gone

unfoldable pub node_gone_or_unready : GetReply Node → Gone
node_gone_or_unready (found n) = gone (not (node_ready n))
node_gone_or_unready get_not_found = gone true
node_gone_or_unready (get_failed e) = gone_failed e

-- The update filter of `nodeReadyChanged`.
unfoldable pub node_ready_changed : Node → Node → Bool
node_ready_changed old new = if node_ready old then not (node_ready new) else node_ready new
