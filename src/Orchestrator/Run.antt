-- ===== src/Orchestrator/Run.antt =====
-- Every run keeps the order of the dependencies, and its answer is right.
use universal_cross_shell_ex.Prelude.{
  ℕ, zero, suc, inl, inr, sym, subst, Bool, true, false, List, [], ◌∷◌, Bool-cases, if◌then◌else◌,
}
use universal_cross_shell_ex.Prelude.Result.{Result, ok, err}
use universal_cross_shell_ex.Types.{ExecutionContext}
use universal_cross_shell_ex.Dag.{DagNode, Nodes, get_ready_nodes}
use universal_cross_shell_ex.Dag.Graph.{IsKeyed}
use universal_cross_shell_ex.Orchestrator.{
  Failure, Services, Progress, Step, proceed, finish, run_node, run_nodes, goes_on, advance,
  pass_ready, loop, execute_graph, sync_graph_state,
}
use universal_cross_shell_ex.Orchestrator.Touch.{run_node-Handled, sync_graph_state-graph}
use universal_cross_shell_ex.Orchestrator.Order.{
  IsOrdered, Handled-IsOrdered, Handled-IsKeyed, Batch, Handled-Batch, get_ready_nodes-Batch,
}

-- A graph whose nodes stand under their identifiers and went ahead in the order of dependencies.
pub record Sound (d : Nodes) : Type 0 where
  pub keyed : IsKeyed d
  pub ordered : IsOrdered d

module _ (w : Services) (ctx : ExecutionContext) where
  proceed-Sound :
      {A B : Type 0} (x : Result Failure A) (f : A → Step B) (q : Progress)
      → Sound q.graph.nodes
      → ((a : A) → Sound (f a q).1.graph.nodes)
      → Sound (proceed x f q).1.graph.nodes
  proceed-Sound (err e) f q s k = s
  proceed-Sound (ok a) f q s k = k a

  branch-Sound :
      (go : Bool) (m : Step (Unit {0})) (q : Progress)
      → Sound q.graph.nodes
      → Sound (m q).1.graph.nodes
      → Sound ((if go then m else finish tt) q).1.graph.nodes
  branch-Sound true m q s k = k
  branch-Sound false m q s k = s

  run_nodes-Sound :
      (ns : List DagNode) (p : Progress)
      → Batch p.graph.nodes ns
      → Sound p.graph.nodes
      → Sound (run_nodes w ns ctx p).1.graph.nodes
  unfolding run_nodes
  run_nodes-Sound [] p b s = s
  run_nodes-Sound (n ∷ ns) p b s =
      let h = run_node-Handled w n ctx p in
      let (x, q) = run_node w n ctx p in
      let s' : Sound q.graph.nodes = record {
        keyed = Handled-IsKeyed h s.keyed;
        ordered = Handled-IsOrdered h b.0 s.ordered;
      } in
      let rest = run_nodes-Sound ns q (Handled-Batch ns h b.0 b.1 b.2) s' in
      proceed-Sound x (λ go. if go then run_nodes w ns ctx else finish tt) q s'
        (λ go. branch-Sound go (run_nodes w ns ctx) q s' rest)

  advance-Sound :
      (ns : List DagNode) (p : Progress)
      → Batch p.graph.nodes ns
      → Sound p.graph.nodes
      → Sound (advance w ns ctx p).1.graph.nodes
  unfolding advance
  advance-Sound [] p b s = s
  advance-Sound (n ∷ ns) p b s = run_nodes-Sound (n ∷ ns) p b s

  pub pass_ready-Sound :
      (p : Progress) → Sound p.graph.nodes → Sound (pass_ready w ctx p).1.graph.nodes
  unfolding pass_ready
  pass_ready-Sound p s =
      advance-Sound (get_ready_nodes p.graph) p (get_ready_nodes-Batch p.graph s.keyed) s

  loop-Sound :
      (fuel : ℕ) (p : Progress) → Sound p.graph.nodes → Sound (loop w fuel ctx p).1.graph.nodes
  unfolding loop
  loop-Sound zero p s = elim (Bool-cases (goes_on p.graph)) [ inl e ↦ rw e s | inr e ↦ rw e s ]
  loop-Sound (suc fuel) p s =
      let (x, q) = pass_ready w ctx p in
      let s' = pass_ready-Sound p s in
      let rest = proceed-Sound x (λ _. loop w fuel ctx) q s' (λ _. loop-Sound fuel q s') in
      elim (Bool-cases (goes_on p.graph)) [ inr e ↦ rw e s | inl e ↦ rw e rest ]

  -- However a run ends, by an answer or by an exception: if the graph has its nodes under their
  -- identifiers, and each node that left `pending` has those of its dependencies that are in the
  -- graph completed, then so does the graph that the run leaves.
  pub execute_graph-Sound :
      (fuel : ℕ) (p : Progress)
      → Sound p.graph.nodes
      → Sound (execute_graph w fuel ctx p).1.graph.nodes
  unfolding execute_graph
  execute_graph-Sound fuel p s =
      let s' = subst (λ g. Sound g.nodes) (sym (sync_graph_state-graph w p)) s in
      proceed-Sound (sync_graph_state w p).0 (λ _. loop w fuel ctx) (sync_graph_state w p).1 s'
        (λ _. loop-Sound fuel (sync_graph_state w p).1 s')
