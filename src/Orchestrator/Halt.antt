-- ===== src/Orchestrator/Halt.antt =====
-- A run halts, and what its answer says of the graph.
use mathlib.Core.Option.{some-injective}
use universal_cross_shell_ex.Prelude.{
  ℕ, zero, suc, ◌+◌, ◌≤◌, ◌<◌, String, ◌≡◌, inl, inr, refl, sym, ap, subst, ◌∙◌, Bool, true, false,
  List, [], ◌∷◌, some, arith, Bool-cases, if◌then◌else◌,
}
use universal_cross_shell_ex.Prelude.Dict.{lookup, update, same}
use universal_cross_shell_ex.Prelude.Result.{Result, ok, err, Result-cases}
use universal_cross_shell_ex.Types.{ExecutionContext}
use universal_cross_shell_ex.Dag.{DagNode, Nodes, is_pending, get_ready_nodes, mark_failed}
use universal_cross_shell_ex.Dag.Graph.{IsKeyed}
use universal_cross_shell_ex.Orchestrator.{
  Failure, out_of_fuel, Services, Progress, Step, proceed, finish, settle, fail_node, change,
  run_node, run_nodes, goes_on, advance, pass_ready, loop, sync_graph_state,
}
use universal_cross_shell_ex.Orchestrator.Touch.{Mild, run_node-Handled}
use universal_cross_shell_ex.Orchestrator.Order.{Due, Batch, get_ready_nodes-Batch}
use universal_cross_shell_ex.Orchestrator.Run.{Sound, pass_ready-Sound}

abbrev weight : Bool → ℕ
weight true = 1
weight false = 0

-- The number of nodes that wait.
unfoldable pub pending_count : Nodes → ℕ
pending_count [] = 0
pending_count ((k, n) ∷ d) = weight (is_pending n.status) + pending_count d

weight_le : (a b : Bool) → (a ≡ true → b ≡ true) → weight a ≤ weight b
weight_le true b h = ground (arith, h refl)
weight_le false b h = omega arith

count-update_le :
    (k : String) {f : DagNode → DagNode} (d : Nodes)
    → Mild f
    → pending_count (update k f d) ≤ pending_count d
unfolding pending_count update
count-update_le k [] m = omega arith
count-update_le k {f} ((j, n) ∷ d) m =
    let here_le = weight_le (is_pending (f n).status) (is_pending n.status) (m.pends n) in
    let rest_le = count-update_le k d m in
    elim (Bool-cases (same j k)) [
      | inl e ↦ rw e (omega (arith, here_le))
      | inr e ↦ rw e (omega (arith, rest_le))
    ]

count-update_lt :
    (k : String) (f : DagNode → DagNode) (d : Nodes) {n : DagNode}
    → lookup k d ≡ some n
    → is_pending n.status ≡ true
    → ((m : DagNode) → is_pending (f m).status ≡ false)
    → pending_count (update k f d) < pending_count d
unfolding pending_count update lookup
count-update_lt k f [] at p s = cc
count-update_lt k f ((j, m) ∷ d) {n} at p s = elim (Bool-cases (same j k)) [
  | inl e ↦
      let eq : m ≡ n = some-injective _ _ (rw e at at) in
      let now : is_pending m.status ≡ true = ap (λ x. is_pending x.status) eq ∙ p in
      rw (e, s m, now) (omega arith)
  | inr e ↦ let rest = count-update_lt k f d (rw e at at) p s in rw e (omega (arith, rest))
]

abbrev pub exhausted : {A : Type 0} → Result Failure A → Bool
exhausted (ok a) = false
exhausted (err out_of_fuel) = true
exhausted (err _) = false

module _ (w : Services) (ctx : ExecutionContext) where
  run_node-count_le :
      (n : DagNode) (p : Progress)
      → pending_count (run_node w n ctx p).1.graph.nodes ≤ pending_count p.graph.nodes
  run_node-count_le n p =
      let h = run_node-Handled w n ctx p in
      subst (λ d. pending_count d ≤ pending_count p.graph.nodes) (sym h.is)
        (count-update_le n.node_id p.graph.nodes h.mild)

  run_node-count_lt :
      (n : DagNode) (p : Progress)
      → Due p.graph.nodes n
      → pending_count (run_node w n ctx p).1.graph.nodes < pending_count p.graph.nodes
  run_node-count_lt n p u =
      let h = run_node-Handled w n ctx p in
      subst (λ d. pending_count d < pending_count p.graph.nodes) (sym h.is)
        (count-update_lt n.node_id h.by p.graph.nodes u.stored u.waiting h.settled)

  more_le :
      (x : Result Failure Bool) (m : Step (Unit {0})) (q : Progress)
      → pending_count (m q).1.graph.nodes ≤ pending_count q.graph.nodes
      → pending_count (proceed x (λ go. if go then m else finish tt) q).1.graph.nodes
        ≤ pending_count q.graph.nodes
  more_le (err e) m q h = omega arith
  more_le (ok false) m q h = omega arith
  more_le (ok true) m q h = h

  run_nodes-count_le :
      (ns : List DagNode) (p : Progress)
      → pending_count (run_nodes w ns ctx p).1.graph.nodes ≤ pending_count p.graph.nodes
  unfolding run_nodes
  run_nodes-count_le [] p = omega arith
  run_nodes-count_le (n ∷ ns) p =
      let (x, q) = run_node w n ctx p in
      let here_le = run_node-count_le n p in
      let rest_le = more_le x (run_nodes w ns ctx) q (run_nodes-count_le ns q) in
      omega (arith, here_le, rest_le)

  -- A pass that returns has settled a node.
  advance-count_lt :
      (ns : List DagNode) (p : Progress)
      → Batch p.graph.nodes ns
      → (advance w ns ctx p).0 ≡ ok tt
      → pending_count (advance w ns ctx p).1.graph.nodes < pending_count p.graph.nodes
  unfolding advance run_nodes
  advance-count_lt [] p b e = cc
  advance-count_lt (n ∷ ns) p b e =
      let (x, q) = run_node w n ctx p in
      let here_lt = run_node-count_lt n p b.0 in
      let rest_le = more_le x (run_nodes w ns ctx) q (run_nodes-count_le ns q) in
      omega (arith, here_lt, rest_le)

  pub sync_graph_state-fuel : (p : Progress) → exhausted (sync_graph_state w p).0 ≡ false
  unfolding sync_graph_state
  sync_graph_state-fuel p = elim (Bool-cases w.has_kv) [
    | inr e ↦ rw e
    | inl e ↦ elim (Bool-cases (w.set_kv p.log p.graph)) [ inl f ↦ rw (e, f) | inr f ↦ rw (e, f) ]
  ]

  pub proceed-fuel :
      {A B : Type 0} (x : Result Failure A) (f : A → Step B) (q : Progress)
      → exhausted x ≡ false
      → ((a : A) → exhausted (f a q).0 ≡ false)
      → exhausted (proceed x f q).0 ≡ false
  proceed-fuel (ok a) f q n k = k a
  proceed-fuel (err e) f q n k = n

  settle-fuel :
      (n : DagNode) (x : Result Failure (Unit {0})) (p : Progress)
      → exhausted (settle w n x p).0 ≡ false
  unfolding settle fail_node
  settle-fuel n (ok u) p = refl
  settle-fuel n (err e) p =
      let q : Progress = (change (mark_failed n.node_id) p).1 in
      proceed-fuel (sync_graph_state w q).0 (λ _. finish false) (sync_graph_state w q).1
        (sync_graph_state-fuel q) (λ _. refl)

  run_node-fuel : (n : DagNode) (p : Progress) → exhausted (run_node w n ctx p).0 ≡ false
  unfolding run_node
  run_node-fuel n p = settle-fuel n _ _

  branch-fuel :
      (go : Bool) (m : Step (Unit {0})) (q : Progress)
      → exhausted (m q).0 ≡ false
      → exhausted ((if go then m else finish tt) q).0 ≡ false
  branch-fuel true m q h = h
  branch-fuel false m q h = refl

  run_nodes-fuel : (ns : List DagNode) (p : Progress) → exhausted (run_nodes w ns ctx p).0 ≡ false
  unfolding run_nodes
  run_nodes-fuel [] p = refl
  run_nodes-fuel (n ∷ ns) p =
      let (x, q) = run_node w n ctx p in
      proceed-fuel x (λ go. if go then run_nodes w ns ctx else finish tt) q (run_node-fuel n p)
        (λ go. branch-fuel go (run_nodes w ns ctx) q (run_nodes-fuel ns q))

  advance-fuel : (ns : List DagNode) (p : Progress) → exhausted (advance w ns ctx p).0 ≡ false
  unfolding advance
  advance-fuel [] p = refl
  advance-fuel (n ∷ ns) p = run_nodes-fuel (n ∷ ns) p

  pass_ready-fuel : (p : Progress) → exhausted (pass_ready w ctx p).0 ≡ false
  unfolding pass_ready
  pass_ready-fuel p = advance-fuel (get_ready_nodes p.graph) p

  pub pass_ready-count_lt :
      (p : Progress)
      → IsKeyed p.graph.nodes
      → (pass_ready w ctx p).0 ≡ ok tt
      → pending_count (pass_ready w ctx p).1.graph.nodes < pending_count p.graph.nodes
  unfolding pass_ready
  pass_ready-count_lt p k e =
      advance-count_lt (get_ready_nodes p.graph) p (get_ready_nodes-Batch p.graph k) e

  pub loop-fuel :
      (fuel : ℕ) (p : Progress)
      → Sound p.graph.nodes
      → pending_count p.graph.nodes < fuel
      → exhausted (loop w fuel ctx p).0 ≡ false
  unfolding loop
  loop-fuel zero p s h = absurd (none_below (pending_count p.graph.nodes) h)
    where
      none_below : (n : ℕ) → ¬ (n < 0)
      none_below n = omega arith
  loop-fuel (suc fuel) p s h =
      let (x, q) = pass_ready w ctx p in
      let next : x ≡ ok tt → exhausted (loop w fuel ctx q).0 ≡ false = λ e.
        loop-fuel fuel q (pass_ready-Sound w ctx p s)
          (omega (arith, h, pass_ready-count_lt p s.keyed e)) in
      elim (Bool-cases (goes_on p.graph)) [
        | inr e ↦ rw e
        | inl e ↦ rw e (elim (Result-cases x) [
          | inl (u, g) ↦ rw g (next g)
          | inr (f, g) ↦ rw g (subst (λ x. exhausted x ≡ false) g (pass_ready-fuel p))
        ])
      ]
