-- ===== src/Orchestrator/Completion.antt =====
-- An acyclic graph is completed when every service answers.
use universal_cross_shell_ex.Prelude.{
  ℕ, zero, suc, ◌<◌, String, ◌≡◌, refl, sym, subst, Bool, true, false, List, [], ◌∷◌, In,
  Bool-cases, inl, inr, if◌then◌else◌, arith,
}
use universal_cross_shell_ex.Prelude.Result.{Result, ok}
use universal_cross_shell_ex.Types.{ExecutionContext}
use universal_cross_shell_ex.Dag.{DagNode, get_ready_nodes, is_complete}
use universal_cross_shell_ex.Orchestrator.{
  Failure, Services, Progress, proceed, finish, run_node, run_nodes, goes_on, advance, pass_ready,
  loop, execute_graph,
}
use universal_cross_shell_ex.Orchestrator.Order.{Batch, Handled-Batch, get_ready_nodes-Batch}
use universal_cross_shell_ex.Orchestrator.Halt.{pending_count, pass_ready-count_lt}
use universal_cross_shell_ex.Orchestrator.Answering.{Answering, sync-ok, run_node-ok}
use universal_cross_shell_ex.Orchestrator.Live.{Live, Finished-Live, Live-ready, Live-has_failed}

-- A step returned, and the graph is still live.
record Went (rank : String → ℕ) (r : Result Failure (Unit {0}) × Progress) : Type 0 where
  pub returned : r.0 ≡ ok tt
  pub live : Live rank r.1.graph.nodes

-- A run answered `true` with a complete graph.
record Completes (r : Result Failure Bool × Progress) : Type 0 where
  pub answer : r.0 ≡ ok true
  pub complete : is_complete r.1.graph ≡ true

module _ (w : Services) (ctx : ExecutionContext) (a : Answering w ctx) (rank : String → ℕ) where
  run_nodes-Went :
      (ns : List DagNode) (p : Progress)
      → Batch p.graph.nodes ns
      → Live rank p.graph.nodes
      → Went rank (run_nodes w ns ctx p)
  unfolding run_nodes
  run_nodes-Went [] p b l = record { returned = refl; live = l }
  run_nodes-Went (n ∷ ns) p b l =
      let (x, q) = run_node w n ctx p in
      let (e, f) = run_node-ok w ctx a n p in
      let rest =
        run_nodes-Went ns q (Handled-Batch ns f.handled b.0 b.1 b.2) (Finished-Live rank f l) in
      subst (λ y. Went rank (proceed y (λ more. if more then run_nodes w ns ctx else finish tt) q))
        (sym e) rest

  advance-Went :
      (m : DagNode) (ns : List DagNode) (p : Progress)
      → In m ns
      → Batch p.graph.nodes ns
      → Live rank p.graph.nodes
      → Went rank (advance w ns ctx p)
  unfolding advance
  advance-Went m [] p i b l = elim i [ ]
  advance-Went m (n ∷ ns) p i b l = run_nodes-Went (n ∷ ns) p b l

  pass_ready-Went :
      (p : Progress)
      → is_complete p.graph ≡ false
      → Live rank p.graph.nodes
      → Went rank (pass_ready w ctx p)
  unfolding pass_ready
  pass_ready-Went p c l =
      let (m, i) = Live-ready rank p.graph l c in
      advance-Went m (get_ready_nodes p.graph) p i (get_ready_nodes-Batch p.graph l.keyed) l

  loop-Completes :
      (fuel : ℕ) (p : Progress)
      → Live rank p.graph.nodes
      → pending_count p.graph.nodes < fuel
      → Completes (loop w fuel ctx p)
  unfolding loop goes_on
  loop-Completes zero p l h = absurd (none_below (pending_count p.graph.nodes) h)
    where
      none_below : (n : ℕ) → ¬ (n < 0)
      none_below n = omega arith
  loop-Completes (suc fuel) p l h =
      let fine = Live-has_failed rank p.graph l in
      elim (Bool-cases (is_complete p.graph)) [
        | inl c ↦ rw (c, fine) (record { answer = refl; complete = c })
        | inr c ↦
            let (x, q) = pass_ready w ctx p in
            let went = pass_ready-Went p c l in
            let less = pass_ready-count_lt w ctx p l.keyed went.returned in
            let rest = loop-Completes fuel q went.live (omega (arith, h, less)) in
            rw (c, fine)
              (subst (λ y. Completes (proceed y (λ _. loop w fuel ctx) q)) (sym went.returned) rest)
      ]

  -- If the compiler, the scheduler and the store answer every call, the nodes stand under their
  -- identifiers and are pending or completed, every dependency that is in the graph has a lower rank
  -- than its node, and there is more fuel than nodes that wait, then the run answers `true` and
  -- leaves every node completed.
  pub execute_graph-completes :
      (fuel : ℕ) (p : Progress)
      → Live rank p.graph.nodes
      → pending_count p.graph.nodes < fuel
      → ((execute_graph w fuel ctx p).0 ≡ ok true)
        × (is_complete (execute_graph w fuel ctx p).1.graph ≡ true)
  unfolding execute_graph
  execute_graph-completes fuel p l h =
      let (log, e) = sync-ok w ctx a p in
      let done = loop-Completes fuel (record p { log = log }) l h in
      (rw e done.answer, rw e done.complete)
