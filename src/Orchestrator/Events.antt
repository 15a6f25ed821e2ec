-- ===== src/Orchestrator/Events.antt =====
-- The callback for the events of the data bus.
use mathlib.Core.Option.{some-injective}
use universal_cross_shell_ex.Prelude.{
  String, ◌≡◌, ◌≢◌, inl, inr, refl, ap, subst, ◌∙◌, Bool, true, false, List, [], ◌∷◌, Option, none,
  some, In, here, there, Bool-cases, if◌then◌else◌,
}
use universal_cross_shell_ex.Prelude.Dict.{
  lookup, values, same, same→eq, same_refl, same-eq_false, lookup-update, map_at,
}
use universal_cross_shell_ex.Dag.{
  failed, DagNode, UcerGraph, complete_with, set_status, mark_completed, mark_failed,
}
use universal_cross_shell_ex.Dag.Graph.{IsKeyed, In-lookup}
use universal_cross_shell_ex.Orchestrator.{
  Services, Progress, same_id, find_ucer, mark, on_job_event,
}
use universal_cross_shell_ex.Orchestrator.Touch.{sync_graph_state-graph}

same_id→eq : (a b : Option String) → same_id a b ≡ true → a ≡ b
same_id→eq none none h = refl
same_id→eq (some a) (some b) h = ap some (same→eq a b h)
same_id→eq none (some b) h = cc
same_id→eq (some a) none h = cc

find_ucer-some :
    (id : Option String) (ns : List DagNode) (n : DagNode)
    → find_ucer id ns ≡ some n
    → In n ns × (n.ucer_id ≡ id)
unfolding find_ucer
find_ucer-some id [] n h = cc
find_ucer-some id (m ∷ ns) n h = elim (Bool-cases (same_id m.ucer_id id)) [
  | inl e ↦
      let eq : m ≡ n = some-injective _ _ (rw e at h) in
      subst (λ x. In x (m ∷ ns) × (x.ucer_id ≡ id)) eq (here, same_id→eq m.ucer_id id e)
  | inr e ↦ let (i, k) = find_ucer-some id ns n (rw e at h) in (there i, k)
]

abbrev pub outcome : Option String → Bool → DagNode → DagNode
outcome id true n = complete_with id n
outcome id false n = set_status failed n

mark-lookup :
    (id : Option String) (success : Bool) (n : DagNode) (g : UcerGraph) (k : String)
    → lookup k (mark id success n g).nodes ≡ (
        if same n.node_id k
        then map_at (outcome id success) (lookup k g.nodes)
        else lookup k g.nodes)
unfolding mark_completed mark_failed
mark-lookup id true n g k = lookup-update n.node_id k (complete_with id) g.nodes
mark-lookup id false n g k = lookup-update n.node_id k (set_status failed) g.nodes

module _ (w : Services) where
  -- An event marks the first node that has its identifier, completed or failed as the event says,
  -- and no other; if no node has it, nothing happens. An event without an identifier is taken for one
  -- about the first node that was not compiled yet.
  pub on_job_event_lem :
      (id : Option String) (success : Bool) (p : Progress)
      → IsKeyed p.graph.nodes
      → let found = find_ucer id (values p.graph.nodes) in
        let g = (on_job_event w id success p).1.graph in
        (found ≡ none → (on_job_event w id success p).1 ≡ p)
        × ((n : DagNode)
            → found ≡ some n
            → (n.ucer_id ≡ id)
              × (lookup n.node_id g.nodes ≡ some (outcome id success n))
              × ((k : String) → n.node_id ≢ k → lookup k g.nodes ≡ lookup k p.graph.nodes))
  unfolding on_job_event
  on_job_event_lem id success p keyed = (
    (λ h. rw h),
    (λ n h.
        let (i, own) = find_ucer-some id (values p.graph.nodes) n h in
        let q : Progress = record p { graph = mark id success n p.graph } in
        let after = ap (λ g. g.nodes) (sync_graph_state-graph w q) in
        (
          own,
          rw h (
              ap (lookup n.node_id) after
              ∙ mark-lookup id success n p.graph n.node_id
              ∙ rw (same_refl n.node_id, In-lookup p.graph.nodes keyed i)),
          (λ k ne. rw h (
              ap (lookup k) after
              ∙ mark-lookup id success n p.graph k
              ∙ rw (same-eq_false n.node_id k ne))),
        )),
  )
