-- ===== src/Dag/Graph.antt =====
-- Well-formed graphs, the nodes that are ready, and what the marks change.
use text.Mathlib.TextEquality.{eq_iff}
use mathlib.Core.Option.{some-injective}
use universal_cross_shell_ex.Prelude.{
  String, ◌≡◌, refl, sym, ◌∙◌, ap, inl, inr, [], ◌∷◌, none, some, arith, In, here, there, In-cons,
  subst, Bool-cases,
}
use universal_cross_shell_ex.Prelude.Dict.{
  lookup, insert, update, values, same, same→eq, same_refl, lookup-update, lookup-insert_ne,
}
use universal_cross_shell_ex.Dag.{DagNode, Nodes, UcerGraph, add_node}

-- Each node stands under its own identifier, once.
abbrev pub IsKeyed : Nodes → Type 0
IsKeyed [] = Unit
IsKeyed ((k, n) ∷ d) = (n.node_id ≡ k) × (lookup k d ≡ none) × IsKeyed d

insert-IsKeyed : (n : DagNode) (d : Nodes) → IsKeyed d → IsKeyed (insert n.node_id n d)
unfolding insert lookup
insert-IsKeyed n [] h = (refl, refl, tt)
insert-IsKeyed n ((k, m) ∷ d) h =
    ground (arith, eq_iff k n.node_id, insert-IsKeyed n d h.2, lookup-insert_ne n.node_id k n d)

-- Building a graph node by node keeps it well formed.
pub add_node-IsKeyed :
    (n : DagNode) (g : UcerGraph) → IsKeyed g.nodes → IsKeyed (add_node n g).nodes
unfolding add_node
add_node-IsKeyed n g h = insert-IsKeyed n g.nodes h

pub update-IsKeyed :
    (k : String) (f : DagNode → DagNode) (d : Nodes)
    → ((n : DagNode) → (f n).node_id ≡ n.node_id)
    → IsKeyed d
    → IsKeyed (update k f d)
unfolding update lookup
update-IsKeyed k f [] e h = tt
update-IsKeyed k f ((j, m) ∷ d) e h =
    ground (arith, e m, eq_iff j k, eq_iff k j, update-IsKeyed k f d e h.2, lookup-update k j f d)

pub In-lookup :
    {n : DagNode} (d : Nodes) → IsKeyed d → In n (values d) → lookup n.node_id d ≡ some n
unfolding lookup values
In-lookup [] h i = elim i [ ]
In-lookup {n} ((k, m) ∷ d) h i = elim (In-cons i) [
  | inl e ↦ ground (arith, same_refl k, ap (λ x. x.node_id) e ∙ h.0, e)
  | inr j ↦
      let rest = In-lookup d h.2 j in
      elim (Bool-cases (same k n.node_id)) [
        | inl e ↦ cc (h.1, ap (λ x. lookup x d) (same→eq k n.node_id e), rest)
        | inr e ↦ rw e rest
      ]
]

pub lookup-In : (k : String) {n : DagNode} (d : Nodes) → lookup k d ≡ some n → In n (values d)
unfolding lookup values
lookup-In k [] h = cc
lookup-In k {n} ((j, m) ∷ d) h = elim (Bool-cases (same j k)) [
  | inl e ↦
      let eq : some m ≡ some n = rw e at h in
      subst (λ x. In n (x ∷ values d)) (some-injective _ _ (sym eq)) here
  | inr e ↦ there (lookup-In k d (rw e at h))
]
