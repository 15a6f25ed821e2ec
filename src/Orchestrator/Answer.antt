-- ===== src/Orchestrator/Answer.antt =====
-- What `execute_graph` promises.
use universal_cross_shell_ex.Prelude.{
  ℕ, zero, suc, ◌<◌, ◌≡◌, ◌≢◌, inl, inr, sym, ap, subst, Bool, true, false, not, ◌&&◌, arith,
  Bool-cases,
}
use universal_cross_shell_ex.Prelude.Result.{Result, ok, err}
use universal_cross_shell_ex.Types.{ExecutionContext}
use universal_cross_shell_ex.Dag.{is_complete, has_failed}
use universal_cross_shell_ex.Orchestrator.{
  Failure, out_of_fuel, Services, Progress, Step, proceed, goes_on, pass_ready, loop, execute_graph,
  sync_graph_state,
}
use universal_cross_shell_ex.Orchestrator.Touch.{sync_graph_state-graph}
use universal_cross_shell_ex.Orchestrator.Run.{Sound}
use universal_cross_shell_ex.Orchestrator.Halt.{
  pending_count, loop-fuel, proceed-fuel, sync_graph_state-fuel,
}

abbrev answer_or : Bool → Result Failure Bool → Bool
answer_or b (ok c) = c
answer_or b (err x) = b

module _ (w : Services) (ctx : ExecutionContext) where
  -- More fuel than nodes that wait is enough: the run then ends by the code's own answer or
  -- exception, whatever the compiler, the scheduler and the store answer.
  pub execute_graph-halts :
      (fuel : ℕ) (p : Progress)
      → Sound p.graph.nodes
      → pending_count p.graph.nodes < fuel
      → (execute_graph w fuel ctx p).0 ≢ err out_of_fuel
  unfolding execute_graph
  execute_graph-halts fuel p s h =
      let same = sym (sync_graph_state-graph w p) in
      let after =
        loop-fuel w ctx fuel (sync_graph_state w p).1 (subst (λ g. Sound g.nodes) same s)
          (subst (λ g. pending_count g.nodes < fuel) same h) in
      let fine =
        proceed-fuel w ctx (sync_graph_state w p).0 (λ _. loop w fuel ctx) (sync_graph_state w p).1
          (sync_graph_state-fuel w ctx p) (λ _. after) in
      λ e. cc (fine, e)

  -- Where the loop answers, its condition is false.
  abbrev Answers : Bool → Progress → Type 0
  Answers b q = (b ≡ not (has_failed q.graph)) × (goes_on q.graph ≡ false)

  ok-eq : {b c : Bool} → ◌≡◌ {A = Result Failure Bool} (ok b) (ok c) → b ≡ c
  ok-eq {b} e = ap (answer_or b) e

  proceed-Answers :
      {A : Type 0} (x : Result Failure A) (f : A → Step Bool) (q : Progress) (b : Bool)
      → (proceed x f q).0 ≡ ok b
      → ((a : A) → (f a q).0 ≡ ok b → Answers b (f a q).1)
      → Answers b (proceed x f q).1
  proceed-Answers (ok a) f q b e k = k a e
  proceed-Answers (err x) f q b e k = cc

  loop-Answers :
      (fuel : ℕ) (p : Progress) (b : Bool)
      → (loop w fuel ctx p).0 ≡ ok b
      → Answers b (loop w fuel ctx p).1
  unfolding loop
  loop-Answers zero p b e = elim (Bool-cases (goes_on p.graph)) [
    | inl g ↦ cc (rw g at e)
    | inr g ↦ rw g (sym (ok-eq (rw g at e)), g)
  ]
  loop-Answers (suc fuel) p b e = elim (Bool-cases (goes_on p.graph)) [
    | inr g ↦ rw g (sym (ok-eq (rw g at e)), g)
    | inl g ↦ rw g (
        proceed-Answers (pass_ready w ctx p).0 (λ _. loop w fuel ctx) (pass_ready w ctx p).1 b
          (rw g at e) (λ _ h. loop-Answers fuel (pass_ready w ctx p).1 b h))
  ]

  halted :
      (c f b : Bool)
      → b ≡ not f
      → (not c && not f) ≡ false
      → (b ≡ true → c ≡ true) × (b ≡ false → f ≡ true)
  halted c f b e g = ground arith

  -- An answer of `true` is given only for a graph whose nodes are all completed, and `false` only for
  -- one in which a node has failed.
  pub execute_graph-answer :
      (fuel : ℕ) (p : Progress) (b : Bool)
      → (execute_graph w fuel ctx p).0 ≡ ok b
      → let g = (execute_graph w fuel ctx p).1.graph in
        (b ≡ true → is_complete g ≡ true) × (b ≡ false → has_failed g ≡ true)
  unfolding execute_graph goes_on
  execute_graph-answer fuel p b e =
      let (h, g) =
        proceed-Answers (sync_graph_state w p).0 (λ _. loop w fuel ctx) (sync_graph_state w p).1 b e
          (λ _ h. loop-Answers fuel (sync_graph_state w p).1 b h) in
      let q = (execute_graph w fuel ctx p).1 in
      halted (is_complete q.graph) (has_failed q.graph) b h g
