-- ===== src/Orchestrator/Touch.antt =====
-- What the handling of a node changes in the graph.
use universal_cross_shell_ex.Prelude.{
  String, ◌≡◌, refl, ap, ◌∙◌, true, false, [], ◌∷◌, some, Bool-cases, inl, inr,
}
use universal_cross_shell_ex.Prelude.Dict.{update, same}
use universal_cross_shell_ex.Prelude.Result.{Result, ok, err}
use universal_cross_shell_ex.Types.{ExecutionContext}
use universal_cross_shell_ex.Ucer.{Ucer}
use universal_cross_shell_ex.Dag.{
  NodeStatus, running, failed, DagNode, Nodes, is_pending, set_status, complete_with,
  mark_completed, mark_failed,
}
use universal_cross_shell_ex.Orchestrator.{
  Failure, Services, Progress, Step, proceed, ◌>>=◌, finish, change, set_node, assign,
  dispatch_ucer, sync_graph_state, submit_node, attempt_node, compile_node, fail_node, settle,
  run_node,
}

-- A change of a node that keeps its place in the graph and makes it pending at no time.
pub record Mild (f : DagNode → DagNode) : Type 0 where
  pub id : (n : DagNode) → (f n).node_id ≡ n.node_id
  pub deps : (n : DagNode) → (f n).depends_on ≡ n.depends_on
  pub pends : (n : DagNode) → is_pending (f n).status ≡ true → is_pending n.status ≡ true

update-update :
    (k : String) (f g : DagNode → DagNode) (d : Nodes)
    → update k g (update k f d) ≡ update k (λ n. g (f n)) d
unfolding update
update-update k f g [] = refl
update-update k f g ((j, n) ∷ d) = elim (Bool-cases (same j k)) [
  | inl e ↦ rw (e, e)
  | inr e ↦ rw (e, e, update-update k f g d)
]

-- The nodes are those of before, but for a mild change of the one at `k`.
pub record Touched (k : String) (d d' : Nodes) : Type 0 where
  pub by : DagNode → DagNode
  pub mild : Mild by
  pub is : d' ≡ update k by d

Mild-id : Mild (λ n. n)
Mild-id = record { id = λ n. refl; deps = λ n. refl; pends = λ n h. h }

Mild-comp : {f g : DagNode → DagNode} → Mild f → Mild g → Mild (λ n. g (f n))
Mild-comp {f} {g} a b = record {
  id = λ n. b.id (f n) ∙ a.id n;
  deps = λ n. b.deps (f n) ∙ a.deps n;
  pends = λ n h. a.pends n (b.pends (f n) h);
}

update-id : (k : String) (d : Nodes) → d ≡ update k (λ n. n) d
unfolding update
update-id k [] = refl
update-id k ((j, n) ∷ d) = elim (Bool-cases (same j k)) [
  | inl e ↦ rw e
  | inr e ↦ rw (e, ← update-id k d)
]

Touched-trans : {k : String} {a b c : Nodes} → Touched k a b → Touched k b c → Touched k a c
Touched-trans {k} {a} {b} {c} s t = record {
  by = λ n. t.by (s.by n);
  mild = Mild-comp s.mild t.mild;
  is = t.is ∙ ap (update k t.by) s.is ∙ update-update k s.by t.by a;
}

-- The node at `k` is changed mildly and is not pending any more.
pub record Handled (k : String) (d d' : Nodes) : Type 0 where
  pub by : DagNode → DagNode
  pub mild : Mild by
  pub settled : (n : DagNode) → is_pending (by n).status ≡ false
  pub is : d' ≡ update k by d

refuted : (s : NodeStatus) → (is_pending s ≡ true → false ≡ true) → is_pending s ≡ false
refuted s h = elim (Bool-cases (is_pending s)) [ inl e ↦ cc (h e) | inr e ↦ e ]

set_running-Mild : Mild (set_status running)
set_running-Mild = record { id = λ n. refl; deps = λ n. refl; pends = λ n h. cc }

Handled-start :
    {k : String} {d d' : Nodes} → Touched k (update k (set_status running) d) d' → Handled k d d'
Handled-start {k} {d} t = record {
  by = λ n. t.by (set_status running n);
  mild = Mild-comp set_running-Mild t.mild;
  settled = λ n. refuted (t.by (set_status running n)).status (t.mild.pends (set_status running n));
  is = t.is ∙ update-update k (set_status running) t.by d;
}

-- The step touches the node at `k` only, whether it returns or raises.
pub record Touches (k : String) {A : Type 0} (m : Step A) : Type 0 where
  pub at : (p : Progress) → Touched k p.graph.nodes (m p).1.graph.nodes

same_graph : (k : String) {d d' : Nodes} → d' ≡ d → Touched k d d'
same_graph k {d} e = record { by = λ n. n; mild = Mild-id; is = e ∙ update-id k d }

proceed-Touched :
    (k : String) {A B : Type 0} (x : Result Failure A) (f : A → Step B) (d : Nodes) (p : Progress)
    → ((a : A) → Touches k (f a))
    → Touched k d p.graph.nodes
    → Touched k d (proceed x f p).1.graph.nodes
proceed-Touched k (ok a) f d p t h = Touched-trans h ((t a).at p)
proceed-Touched k (err e) f d p t h = h

Touches-bind :
    (k : String) {A B : Type 0} (m : Step A) (f : A → Step B)
    → Touches k m
    → ((a : A) → Touches k (f a))
    → Touches k (m >>= f)
Touches-bind k m f s t = record {
  at = λ p. proceed-Touched k (m p).0 f p.graph.nodes (m p).1 t (s.at p);
}

module _ (w : Services) where
  dispatch_ucer-Touches :
      (k : String) (u : Ucer) (ctx : ExecutionContext) → Touches k (dispatch_ucer w u ctx)
  unfolding dispatch_ucer
  dispatch_ucer-Touches k u ctx = record {
    at = λ p. elim (Bool-cases (w.submit_job p.log u ctx)) [
      | inl e ↦ same_graph k (rw e)
      | inr e ↦ same_graph k (rw e)
    ];
  }

  pub sync_graph_state-graph : (p : Progress) → (sync_graph_state w p).1.graph ≡ p.graph
  unfolding sync_graph_state
  sync_graph_state-graph p = elim (Bool-cases w.has_kv) [
    | inr e ↦ rw e
    | inl e ↦ elim (Bool-cases (w.set_kv p.log p.graph)) [ inl f ↦ rw (e, f) | inr f ↦ rw (e, f) ]
  ]

  sync_graph_state-Touches : (k : String) → Touches k (sync_graph_state w)
  sync_graph_state-Touches k = record {
    at = λ p. same_graph k (ap (λ g. g.nodes) (sync_graph_state-graph p));
  }

  change-Touches : (k : String) (f : DagNode → DagNode) → Mild f → Touches k (change (set_node k f))
  change-Touches k f m = record { at = λ p. record { by = f; mild = m; is = refl } }

  submit_node-Touches :
      (n : DagNode) (ctx : ExecutionContext) (u : Ucer) → Touches n.node_id (submit_node w n ctx u)
  unfolding submit_node mark_completed
  submit_node-Touches n ctx u =
      let k = n.node_id in
      let done = complete_with (some u.command_id) in
      let sync = sync_graph_state-Touches k in
      Touches-bind k (change (set_node k (assign u.command_id))) _
        (change-Touches k (assign u.command_id)
          (record { id = λ n. refl; deps = λ n. refl; pends = λ n h. h }))
        (λ _. Touches-bind k (dispatch_ucer w u ctx) _ (dispatch_ucer-Touches k u ctx) (λ _.
          Touches-bind k (sync_graph_state w) _ sync (λ _.
            Touches-bind k (change (set_node k done)) _
              (change-Touches k done
                (record { id = λ n. refl; deps = λ n. refl; pends = λ n h. cc }))
              (λ _. sync))))

  attempt_node-Touches :
      (n : DagNode) (ctx : ExecutionContext) → Touches n.node_id (attempt_node w n ctx)
  unfolding attempt_node
  attempt_node-Touches n ctx =
      Touches-bind n.node_id (compile_node w n ctx) (submit_node w n ctx)
        (record { at = λ p. same_graph n.node_id refl }) (submit_node-Touches n ctx)

  fail_node-Touches : (n : DagNode) → Touches n.node_id (fail_node w n)
  unfolding fail_node mark_failed
  fail_node-Touches n =
      let k = n.node_id in
      Touches-bind k (change (set_node k (set_status failed))) _
        (change-Touches k (set_status failed)
          (record { id = λ n. refl; deps = λ n. refl; pends = λ n h. cc }))
        (λ _. sync_graph_state-Touches k)

  settle-Touches : (n : DagNode) (x : Result Failure (Unit {0})) → Touches n.node_id (settle w n x)
  unfolding settle
  settle-Touches n (ok u) = record { at = λ p. same_graph n.node_id refl }
  settle-Touches n (err e) =
      Touches-bind n.node_id (fail_node w n) (λ _. finish false) (fail_node-Touches n)
        (λ _. record { at = λ p. same_graph n.node_id refl })

  -- Handling a node changes that node only, and leaves it no longer pending.
  pub run_node-Handled :
      (n : DagNode) (ctx : ExecutionContext) (p : Progress)
      → Handled n.node_id p.graph.nodes (run_node w n ctx p).1.graph.nodes
  unfolding run_node
  run_node-Handled n ctx p =
      let q : Progress = record p { graph = set_node n.node_id (set_status running) p.graph } in
      let (x, r) = attempt_node w n ctx q in
      Handled-start (Touched-trans ((attempt_node-Touches n ctx).at q) ((settle-Touches n x).at r))
