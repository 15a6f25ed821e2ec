-- ===== src/Orchestrator/Answering.antt =====
-- Runs whose services all answer.
use universal_cross_shell_ex.Prelude.{
  String, ◌≡◌, refl, true, List, [], ◌∷◌, some, Bool-cases, inl, inr,
}
use universal_cross_shell_ex.Prelude.Dict.{update, same}
use universal_cross_shell_ex.Prelude.Result.{ok}
use universal_cross_shell_ex.Types.{ExecutionContext}
use universal_cross_shell_ex.Ucer.{Ucer}
use universal_cross_shell_ex.Dag.{
  running, DagNode, Nodes, UcerGraph, is_completed, set_status, complete_with, mark_completed,
}
use universal_cross_shell_ex.Orchestrator.{
  Event, Services, Progress, write, submitted, set_node, assign, dispatch_ucer, sync_graph_state,
  submit_node, attempt_node, settle, run_node,
}
use universal_cross_shell_ex.Orchestrator.Touch.{Handled}

-- The compiler, the scheduler and the store answer every call.
pub record Answering (w : Services) (ctx : ExecutionContext) : Type 0 where
  pub compiles : (l : List Event) (intent : String) → (u : Ucer) × (w.compile l intent ctx ≡ some u)
  pub submits : (l : List Event) (u : Ucer) → w.submit_job l u ctx ≡ true
  pub stores : (l : List Event) (g : UcerGraph) → w.set_kv l g ≡ true

-- The handling of `k` that completes it.
pub record Finished (k : String) (d d' : Nodes) : Type 0 where
  pub handled : Handled k d d'
  pub done : (n : DagNode) → is_completed (handled.by n).status ≡ true

-- The three writes of a node that goes well.
abbrev finished : String → DagNode → DagNode
finished id n = complete_with (some id) (assign id (set_status running n))

update_thrice :
    (k : String) (f g h : DagNode → DagNode) (d : Nodes)
    → update k h (update k g (update k f d)) ≡ update k (λ n. h (g (f n))) d
unfolding update
update_thrice k f g h [] = refl
update_thrice k f g h ((j, n) ∷ d) = elim (Bool-cases (same j k)) [
  | inl e ↦ rw (e, e, e)
  | inr e ↦ rw (e, e, e, update_thrice k f g h d)
]

Finished-written :
    (k id : String) (d : Nodes)
    → Finished k d (
        update k (complete_with (some id)) (update k (assign id) (update k (set_status running) d)))
Finished-written k id d = record {
  handled = record {
    by = finished id;
    mild = record { id = λ n. refl; deps = λ n. refl; pends = λ n h. cc };
    settled = λ n. refl;
    is = update_thrice k (set_status running) (assign id) (complete_with (some id)) d;
  };
  done = λ n. refl;
}

module _ (w : Services) (ctx : ExecutionContext) (a : Answering w ctx) where
  pub sync-ok :
      (p : Progress) → (l : List Event) × (sync_graph_state w p ≡ (ok tt, record p { log = l }))
  unfolding sync_graph_state
  sync-ok p = elim (Bool-cases w.has_kv) [
    | inr e ↦ (p.log, rw e)
    | inl e ↦ (Event.synced p.graph ∷ p.log, rw (e, a.stores p.log p.graph))
  ]

  dispatch-ok : (u : Ucer) (p : Progress) → dispatch_ucer w u ctx p ≡ (ok tt, write (submitted u) p)
  unfolding dispatch_ucer
  dispatch-ok u p = rw (a.submits p.log u)

  submit-ok :
      (n : DagNode) (u : Ucer) (p : Progress)
      → (l : List Event) × (submit_node w n ctx u p ≡ (
        ok tt,
        record p {
          graph =
              set_node n.node_id
                (complete_with (some u.command_id))
                (set_node n.node_id (assign u.command_id) p.graph);
          log = l;
        },
      ))
  unfolding submit_node mark_completed
  submit-ok n u p =
      let p1 : Progress = record p { graph = set_node n.node_id (assign u.command_id) p.graph } in
      let p2 : Progress = write (submitted u) p1 in
      let (l1, e1) = sync-ok p2 in
      let p3 : Progress = record p2 { log = l1 } in
      let p4 : Progress = record p3 {
        graph = set_node n.node_id (complete_with (some u.command_id)) p3.graph;
      } in
      let (l2, e2) = sync-ok p4 in (l2, rw (dispatch-ok u p1, e1, e2))

  -- A node is compiled, submitted and completed, and the run goes on.
  pub run_node-ok :
      (n : DagNode) (p : Progress)
      → ((run_node w n ctx p).0 ≡ ok true)
        × Finished n.node_id p.graph.nodes (run_node w n ctx p).1.graph.nodes
  unfolding run_node attempt_node settle
  run_node-ok n p =
      let q : Progress = record p { graph = set_node n.node_id (set_status running) p.graph } in
      let (u, c) = a.compiles q.log n.intent in
      let (l, e) = submit-ok n u q in
      (rw (c, e), rw (c, e) (Finished-written n.node_id u.command_id p.graph.nodes))
