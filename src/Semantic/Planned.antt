-- ===== src/Semantic/Planned.antt =====
-- Which nodes a planned graph has.
use universal_cross_shell_ex.Prelude.{
  String, ◌≡◌, refl, ap, sym, subst, ◌∙◌, true, List, [], ◌∷◌, all, arith, Option, none, some,
  Bool-cases, Option-cases, inl, inr, if◌then◌else◌,
}
use universal_cross_shell_ex.Prelude.Dict.{same, lookup, insert, lookup-insert, values}
use universal_cross_shell_ex.Dag.{pending, DagNode, Nodes, UcerGraph, is_pending, add_node}
use universal_cross_shell_ex.Dag.Graph.{IsKeyed, add_node-IsKeyed}
use universal_cross_shell_ex.Semantic.{RawNode, or_no_deps, node_of, add_nodes, plan_workflow}

abbrev pub AllPending : Nodes → Type 0
AllPending d = all (λ n. is_pending n.status) (values d) ≡ true

insert-AllPending :
    (k : String) (n : DagNode) (d : Nodes)
    → is_pending n.status ≡ true
    → AllPending d
    → AllPending (insert k n d)
unfolding insert values
insert-AllPending k n [] p h = ground (arith, p)
insert-AllPending k n ((j, m) ∷ d) p h = ground (arith, p, insert-AllPending k n d p)

add_nodes-AllPending :
    (raw_nodes : List RawNode) (g : UcerGraph)
    → IsKeyed g.nodes
    → AllPending g.nodes
    → IsKeyed (add_nodes raw_nodes g).nodes × AllPending (add_nodes raw_nodes g).nodes
unfolding add_nodes add_node
add_nodes-AllPending [] g k p = (k, p)
add_nodes-AllPending (raw ∷ rest) g k p =
    add_nodes-AllPending rest (add_node (node_of raw) g) (add_node-IsKeyed (node_of raw) g k)
      (insert-AllPending raw.id (node_of raw) g.nodes refl p)

-- The last node of the answer with an identifier.
abbrev pub last_with : String → List RawNode → Option RawNode
last_with id [] = none
last_with id (raw ∷ rest) = elim (last_with id rest) [
  | some r ↦ some r
  | none ↦ if same raw.id id then some raw else none
]

-- The node that is wanted for it: not run yet, with its dependencies, or with none where it has no
-- list of them.
abbrev pub Planned : Option RawNode → Option DagNode → Type 0
Planned none o = o ≡ none
Planned (some raw) o =
    (n : DagNode) × (o ≡ some n)
    × (n.node_id ≡ raw.id)
    × (n.name ≡ raw.name)
    × (n.intent ≡ raw.intent)
    × ((ds : List String) → raw.depends_on ≡ some ds → n.depends_on ≡ ds)
    × (raw.depends_on ≡ none → n.depends_on ≡ [])
    × (n.status ≡ pending)
    × (n.ucer_id ≡ none)

node_of-Planned : (raw : RawNode) → Planned (some raw) (some (node_of raw))
node_of-Planned raw = (
  node_of raw,
  refl,
  refl,
  refl,
  refl,
  (λ ds e. ap or_no_deps e),
  (λ e. ap or_no_deps e),
  refl,
  refl,
)

abbrev or_before : Option RawNode → Option DagNode → Option DagNode
or_before none before = before
or_before (some raw) before = some (node_of raw)

lookup-add_nodes :
    (id : String) (raw_nodes : List RawNode) (g : UcerGraph)
    → lookup id (add_nodes raw_nodes g).nodes
      ≡ or_before (last_with id raw_nodes) (lookup id g.nodes)
unfolding add_nodes add_node
lookup-add_nodes id [] g = refl
lookup-add_nodes id (raw ∷ rest) g =
    let inserted = lookup-insert raw.id id (node_of raw) g.nodes in
    lookup-add_nodes id rest (add_node (node_of raw) g) ∙ (elim (Option-cases (last_with id rest)) [
      | inr (r, e) ↦ rw e
      | inl e ↦ elim (Bool-cases (same raw.id id)) [
        | inl q ↦ rw (e, q, inserted, q)
        | inr q ↦ rw (e, q, inserted, q)
      ]
    ])

Planned-or_before : (o : Option RawNode) → Planned o (or_before o none)
Planned-or_before none = refl
Planned-or_before (some raw) = node_of-Planned raw

-- Whatever the model answers, the planned graph has under each identifier the last node of the
-- answer with it, pending and with its name, intent and dependencies, and no other node; and it
-- stands under its own identifier, as the runs of the orchestrator need it.
pub plan_workflow-Planned :
    (graph_id goal : String) (raw_nodes : List RawNode)
    → let g = plan_workflow graph_id goal raw_nodes in
      ((id : String) → Planned (last_with id raw_nodes) (lookup id g.nodes))
      × IsKeyed g.nodes
      × (all (λ n. is_pending n.status) (values g.nodes) ≡ true)
unfolding plan_workflow values lookup
plan_workflow-Planned graph_id goal raw_nodes =
    let empty_graph : UcerGraph = record { graph_id = graph_id; goal = goal; nodes = [] } in
    let (k, p) = add_nodes-AllPending raw_nodes empty_graph tt refl in
    (
      (λ id.
          subst (Planned (last_with id raw_nodes)) (sym (lookup-add_nodes id raw_nodes empty_graph))
            (Planned-or_before (last_with id raw_nodes))),
      k,
      p,
    )
