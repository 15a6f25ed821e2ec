-- ===== src/Dag.antt =====
-- core/dag.py: the workflow graph.
pub mod Graph
use universal_cross_shell_ex.Prelude.{
  String, Bool, true, false, not, ◌&&◌, List, Option, none, some, all, any, keep,
}
use universal_cross_shell_ex.Prelude.Dict.{Dict, lookup, insert, update, values}
use universal_cross_shell_ex.Prelude.Json.{Fields}

pub data NodeStatus : Type 0 where
  pending running completed failed : NodeStatus

pub record DagNode : Type 0 where
  pub node_id : String
  pub name : String
  pub intent : String
  pub depends_on : List String
  pub fallback_intent : Option String
  pub status : NodeStatus
  pub ucer_id : Option String
  pub result_data : Option Fields

abbrev pub Nodes : Type 0
Nodes = Dict DagNode

pub record UcerGraph : Type 0 where
  pub graph_id : String
  pub goal : String
  pub nodes : Nodes

abbrev pub is_pending : NodeStatus → Bool
is_pending pending = true
is_pending _ = false

abbrev pub is_completed : NodeStatus → Bool
is_completed completed = true
is_completed _ = false

abbrev pub is_failed : NodeStatus → Bool
is_failed failed = true
is_failed _ = false

unfoldable pub add_node : DagNode → UcerGraph → UcerGraph
unfolding insert
add_node n g = record g { nodes = insert n.node_id n g.nodes }

-- A dependency on an identifier that is not in the graph counts as satisfied.
abbrev pub allows : Option DagNode → Bool
allows none = true
allows (some n) = is_completed n.status

unfoldable pub is_satisfied : Nodes → String → Bool
unfolding lookup
is_satisfied nodes dep = allows (lookup dep nodes)

unfoldable pub is_ready : Nodes → DagNode → Bool
unfolding is_satisfied
is_ready nodes n = is_pending n.status && all (is_satisfied nodes) n.depends_on

unfoldable pub get_ready_nodes : UcerGraph → List DagNode
unfolding is_ready values
get_ready_nodes g = keep (is_ready g.nodes) (values g.nodes)

abbrev pub complete_with : Option String → DagNode → DagNode
complete_with ucer_id n = record n { status = completed; ucer_id = ucer_id }

abbrev pub set_status : NodeStatus → DagNode → DagNode
set_status s n = record n { status = s }

unfoldable pub mark_completed : String → Option String → UcerGraph → UcerGraph
unfolding update
mark_completed node_id ucer_id g = record g {
  nodes = update node_id (complete_with ucer_id) g.nodes;
}

unfoldable pub mark_failed : String → UcerGraph → UcerGraph
unfolding update
mark_failed node_id g = record g { nodes = update node_id (set_status failed) g.nodes }

unfoldable pub is_complete : UcerGraph → Bool
unfolding values
is_complete g = all (λ n. is_completed n.status) (values g.nodes)

unfoldable pub has_failed : UcerGraph → Bool
unfolding values
has_failed g = any (λ n. is_failed n.status) (values g.nodes)
