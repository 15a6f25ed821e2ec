-- ===== src/Examples/Graphs.antt =====
-- The workflow graph and its orchestrator.
use mathlib.Core.Option.{some-injective}
use universal_cross_shell_ex.Prelude.{
  ℕ, String, if◌then◌else◌, inl, inr, Bool-cases, In, In-cons, subst, sym, ◌<◌, ap, ◌≡◌, ◌≢◌, ◌⊎◌,
  refl, true, false, List, [], ◌∷◌, none, some, arith,
}
use universal_cross_shell_ex.Prelude.Dict.{lookup, values, same, same→eq}
use universal_cross_shell_ex.Prelude.Result.{ok, err}
use universal_cross_shell_ex.Dag.{
  pending, DagNode, is_pending, UcerGraph, add_node, is_complete, has_failed,
}
use universal_cross_shell_ex.Dag.Graph.{IsKeyed, add_node-IsKeyed}
use universal_cross_shell_ex.Orchestrator.{
  Services, Progress, find_ucer, on_job_event, execute_graph, out_of_fuel,
}
use universal_cross_shell_ex.Orchestrator.Order.{pending-IsOrdered}
use universal_cross_shell_ex.Orchestrator.Run.{Sound, execute_graph-Sound}
use universal_cross_shell_ex.Orchestrator.Halt.{pending_count}
use universal_cross_shell_ex.Orchestrator.Answer.{execute_graph-halts, execute_graph-answer}
use universal_cross_shell_ex.Orchestrator.Answering.{Answering}
use universal_cross_shell_ex.Orchestrator.Live.{Live}
use universal_cross_shell_ex.Orchestrator.Completion.{execute_graph-completes}
use universal_cross_shell_ex.Orchestrator.Events.{outcome, on_job_event_lem}
use universal_cross_shell_ex.Examples.{context, ucer}

abbrev node_of : String → List String → DagNode
node_of id deps = record {
  node_id = id;
  name = id;
  intent = "list";
  depends_on = deps;
  fallback_intent = none;
  status = pending;
  ucer_id = none;
  result_data = none;
}

abbrev workflow : UcerGraph
workflow = record {
  graph_id = "g1";
  goal = "list twice";
  nodes = ("b", node_of "b" ("a" ∷ [])) ∷ ("a", node_of "a" []) ∷ [];
}

-- The compiler and the scheduler answer, and there is a store.
abbrev services : Services
services = record {
  compile = λ log intent ctx. some ucer;
  submit_job = λ log u ctx. true;
  has_kv = true;
  set_kv = λ log g. true;
}

abbrev start : Progress
start = record { graph = workflow; log = [] }

workflow-IsKeyed : IsKeyed workflow.nodes
unfolding lookup
workflow-IsKeyed = (refl, refl, (refl, refl, tt))

workflow-Sound : Sound workflow.nodes
unfolding values
workflow-Sound = record {
  keyed = workflow-IsKeyed;
  ordered = pending-IsOrdered workflow.nodes refl;
}

execute_graph-Sound_example : Sound (execute_graph services 3 context start).1.graph.nodes
execute_graph-Sound_example = execute_graph-Sound services context 3 start workflow-Sound

execute_graph-halts_example : (execute_graph services 3 context start).0 ≢ err out_of_fuel
unfolding pending_count
execute_graph-halts_example =
    execute_graph-halts services context 3 start workflow-Sound (omega arith)

execute_graph-answer_example :
    let g = (execute_graph services 3 context start).1.graph in
    (true ≡ true → is_complete g ≡ true) × (true ≡ false → has_failed g ≡ true)
unfolding execute_graph
execute_graph-answer_example = execute_graph-answer services context 3 start true refl

add_node-IsKeyed_test : IsKeyed (add_node (node_of "c" []) workflow).nodes
add_node-IsKeyed_test = add_node-IsKeyed (node_of "c" []) workflow workflow-IsKeyed

on_job_event_lem_test :
    let found = find_ucer none (values workflow.nodes) in
    let g = (on_job_event services none false start).1.graph in
    (found ≡ none → (on_job_event services none false start).1 ≡ start)
    × ((n : DagNode)
        → found ≡ some n
        → (n.ucer_id ≡ none)
          × (lookup n.node_id g.nodes ≡ some (outcome none false n))
          × ((k : String) → n.node_id ≢ k → lookup k g.nodes ≡ lookup k workflow.nodes))
on_job_event_lem_test = on_job_event_lem services none false start workflow-IsKeyed

services-Answering : Answering services context
services-Answering = record {
  compiles = λ l intent. (ucer, refl);
  submits = λ l u. refl;
  stores = λ l g. refl;
}

-- `a` comes before `b`.
abbrev rank : String → ℕ
rank k = if same k "b" then 1 else 0

workflow-cases :
    (k : String) (n : DagNode)
    → lookup k workflow.nodes ≡ some n
    → ((k ≡ "b") × (n ≡ node_of "b" ("a" ∷ []))) ⊎ ((k ≡ "a") × (n ≡ node_of "a" []))
unfolding lookup
workflow-cases k n at = elim (Bool-cases (same "b" k)) [
  | inl e ↦ inl (sym (same→eq "b" k e), some-injective _ _ (sym (rw e at at)))
  | inr e ↦ elim (Bool-cases (same "a" k)) [
    | inl f ↦ inr (sym (same→eq "a" k f), some-injective _ _ (sym (rw (e, f) at at)))
    | inr f ↦ cc (rw (e, f) at at)
  ]
]

rank_lt :
    (k dep : String) (n : DagNode)
    → ((k ≡ "b") × (n ≡ node_of "b" ("a" ∷ []))) ⊎ ((k ≡ "a") × (n ≡ node_of "a" []))
    → In dep n.depends_on
    → rank dep < rank k
rank_lt k dep n (inr (e, f)) i = elim (subst (λ x. In dep x.depends_on) f i) [ ]
rank_lt k dep n (inl (e, f)) i = elim (In-cons (subst (λ x. In dep x.depends_on) f i)) [
  | inr j ↦ elim j [ ]
  | inl g ↦ rw (g, e) (omega arith)
]

workflow-Live : Live rank workflow.nodes
workflow-Live = record {
  keyed = workflow-IsKeyed;
  below = λ k dep n m at i at'. rank_lt k dep n (workflow-cases k n at) i;
  settles = λ k n at. elim (workflow-cases k n at) [
    | inl (e, f) ↦ inl (ap (λ x. is_pending x.status) f)
    | inr (e, f) ↦ inl (ap (λ x. is_pending x.status) f)
  ];
}

execute_graph-completes_example :
    ((execute_graph services 3 context start).0 ≡ ok true)
    × (is_complete (execute_graph services 3 context start).1.graph ≡ true)
unfolding pending_count
execute_graph-completes_example =
    execute_graph-completes services context services-Answering rank 3 start workflow-Live
      (omega arith)
