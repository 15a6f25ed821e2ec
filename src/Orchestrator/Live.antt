-- ===== src/Orchestrator/Live.antt =====
-- Acyclic graphs in which no node failed: one that is not complete has a ready node.
use mathlib.Core.Option.{some-injective}
use universal_cross_shell_ex.Prelude.{
  ℕ, zero, suc, ◌<◌, String, ◌≡◌, ◌⊎◌, refl, sym, ap, subst, ◌∙◌, Bool, true, false, List, [], ◌∷◌,
  some, all, any, In, here, there, In-keep_of, In-of_any, Bool-cases, Option-cases, and_iff, inl,
  inr, arith,
}
use universal_cross_shell_ex.Prelude.Dict.{lookup, values, same, map_at}
use universal_cross_shell_ex.Dag.{
  NodeStatus, running, completed, failed, pending, DagNode, Nodes, UcerGraph, is_pending,
  is_completed, is_failed, allows, is_satisfied, is_ready, get_ready_nodes, is_complete, has_failed,
}
use universal_cross_shell_ex.Dag.Graph.{IsKeyed, In-lookup, lookup-In}
use universal_cross_shell_ex.Orchestrator.Order.{Handled-IsKeyed, Handled-lookup}
use universal_cross_shell_ex.Orchestrator.Answering.{Finished}

-- A graph whose nodes stand under their identifiers, with dependencies of lower rank, and wait or
-- are completed.
pub record Live (rank : String → ℕ) (d : Nodes) : Type 0 where
  pub keyed : IsKeyed d
  pub below :
      (k dep : String) (n m : DagNode)
      → lookup k d ≡ some n
      → In dep n.depends_on
      → lookup dep d ≡ some m
      → rank dep < rank k
  pub settles :
      (k : String) (n : DagNode)
      → lookup k d ≡ some n
      → (is_pending n.status ≡ true) ⊎ (is_completed n.status ≡ true)

-- Where a node of the graph comes from when another one is finished.
Finished-from :
    {k : String} {d d' : Nodes}
    → Finished k d d'
    → (j : String) (m : DagNode) → lookup j d' ≡ some m
    → (n : DagNode) × (lookup j d ≡ some n)
      × (m.depends_on ≡ n.depends_on)
      × ((m ≡ n) ⊎ (is_completed m.status ≡ true))
Finished-from {k} {d} f j m at = elim (Bool-cases (same k j)) [
  | inr e ↦ (m, rw (Handled-lookup f.handled j, e) at at, refl, inl refl)
  | inl e ↦
      let h : map_at f.handled.by (lookup j d) ≡ some m =
        rw (Handled-lookup f.handled j, e) at at in
      elim (Option-cases (lookup j d)) [
        | inl o ↦ cc (h, ap (map_at f.handled.by) o)
        | inr (n, o) ↦
            let same_m : f.handled.by n ≡ m =
              some-injective _ _ (sym (ap (map_at f.handled.by) o) ∙ h) in
            (
              n,
              o,
              ap (λ x. x.depends_on) (sym same_m) ∙ f.handled.mild.deps n,
              inr (ap (λ x. is_completed x.status) (sym same_m) ∙ f.done n),
            )
      ]
]

pub Finished-Live :
    (rank : String → ℕ) {k : String} {d d' : Nodes} → Finished k d d' → Live rank d → Live rank d'
Finished-Live rank f l = record {
  keyed = Handled-IsKeyed f.handled l.keyed;
  below = λ k dep n m at i at'.
      let (n0, was, deps, _) = Finished-from f k n at in
      let (m0, was', _, _) = Finished-from f dep m at' in
      l.below k dep n0 m0 was (subst (In dep) deps i) was';
  settles = λ k n at.
      let (n0, was, _, now) = Finished-from f k n at in
      elim now [
        | inr c ↦ inr c
        | inl e ↦
            subst (λ x. (is_pending x.status ≡ true) ⊎ (is_completed x.status ≡ true)) (sym e)
              (l.settles k n0 was)
      ];
}

In-of_all :
    {A : Type 0} (f : A → Bool) (xs : List A) → all f xs ≡ false → (x : A) × In x xs × (f x ≡ false)
In-of_all f [] h = cc
In-of_all f (x ∷ xs) h = elim (Bool-cases (f x)) [
  | inr e ↦ (x, here, e)
  | inl e ↦ let (y, i, g) = In-of_all f xs (rw e at h) in (y, there i, g)
]

-- Below a node that waits stands one that is ready.
ready_below :
    (rank : String → ℕ) (d : Nodes)
    → Live rank d
    → (bound : ℕ) (k : String) (n : DagNode) → lookup k d ≡ some n
    → is_pending n.status ≡ true
    → rank k < bound
    → (j : String) × (m : DagNode) × (lookup j d ≡ some m) × (is_ready d m ≡ true)
unfolding is_ready is_satisfied
ready_below rank d l zero k n at p h = absurd (none_below (rank k) h)
  where
    none_below : (r : ℕ) → ¬ (r < 0)
    none_below r = omega arith
ready_below rank d l (suc bound) k n at p h =
    elim (Bool-cases (all (is_satisfied d) n.depends_on)) [
      | inl e ↦ (k, n, at, (and_iff _ _).1 (p, e))
      | inr e ↦
          let (dep, i, f) = In-of_all (is_satisfied d) n.depends_on e in
          elim (Option-cases (lookup dep d)) [
            | inl o ↦ cc (f, ap allows o)
            | inr (m, o) ↦
                let late : is_completed m.status ≡ false = sym (ap allows o) ∙ f in
                elim (l.settles dep m o) [
                  | inr c ↦ cc (late, c)
                  | inl q ↦
                      ready_below rank d l bound dep m o q
                        (omega (arith, h, l.below k dep n m at i o))
                ]
          ]
    ]

-- A graph that is not complete has a ready node.
pub Live-ready :
    (rank : String → ℕ) (g : UcerGraph)
    → Live rank g.nodes
    → is_complete g ≡ false
    → (m : DagNode) × In m (get_ready_nodes g)
unfolding is_complete get_ready_nodes
Live-ready rank g l h =
    let (n, i, late) = In-of_all (λ n. is_completed n.status) (values g.nodes) h in
    let at = In-lookup g.nodes l.keyed i in
    elim (l.settles n.node_id n at) [
      | inr c ↦ cc (late, c)
      | inl p ↦
          let (j, m, found, r) =
            ready_below rank g.nodes l (suc (rank n.node_id)) n.node_id n at p (omega arith) in
          (m, In-keep_of (is_ready g.nodes) (lookup-In j g.nodes found) r)
    ]

-- No node has failed.
pub Live-has_failed : (rank : String → ℕ) (g : UcerGraph) → Live rank g.nodes → has_failed g ≡ false
unfolding has_failed
Live-has_failed rank g l = elim (Bool-cases (any (λ n. is_failed n.status) (values g.nodes))) [
  | inr e ↦ e
  | inl e ↦
      let (n, i, f) = In-of_any (λ n. is_failed n.status) (values g.nodes) e in
      elim (l.settles n.node_id n (In-lookup g.nodes l.keyed i)) [
        | inl p ↦ absurd (not_both n.status (inl p) f)
        | inr c ↦ absurd (not_both n.status (inr c) f)
      ]
]
  where
    not_both :
        (s : NodeStatus) → (is_pending s ≡ true) ⊎ (is_completed s ≡ true) → ¬ (is_failed s ≡ true)
    not_both pending h f = cc
    not_both running h f = cc
    not_both completed h f = cc
    not_both failed (inl p) f = cc
    not_both failed (inr c) f = cc
