-- ===== src/Orchestrator/Order.antt =====
-- Nodes run in the order of their dependencies.
use mathlib.Core.Option.{some-injective}
use universal_cross_shell_ex.Prelude.{
  String, ◌≡◌, ◌≢◌, inl, inr, refl, sym, ap, subst, ◌∙◌, Bool, true, false, List, [], ◌∷◌, none,
  some, all, keep, In, here, there, In-keep, All, All-get, All-of, all_iff, and_iff, Bool-cases,
  if◌then◌else◌,
}
use universal_cross_shell_ex.Prelude.Dict.{
  lookup, values, same, same→eq, same-eq_false, map_at, lookup-update,
}
use universal_cross_shell_ex.Dag.{
  NodeStatus, pending, running, completed, failed, DagNode, UcerGraph, Nodes, is_pending,
  is_completed, allows, is_satisfied, is_ready, get_ready_nodes,
}
use universal_cross_shell_ex.Dag.Graph.{IsKeyed, update-IsKeyed, In-lookup, lookup-In}
use universal_cross_shell_ex.Orchestrator.Touch.{Handled}

-- The dependencies of every node that is not pending are satisfied.
pub record IsOrdered (d : Nodes) : Type 0 where
  pub at :
      (k : String) (n : DagNode)
      → lookup k d ≡ some n
      → is_pending n.status ≡ false
      → all (is_satisfied d) n.depends_on ≡ true

-- A graph in which every node waits is in order.
pub pending-IsOrdered : (d : Nodes) → all (λ n. is_pending n.status) (values d) ≡ true → IsOrdered d
pending-IsOrdered d h = record {
  at = λ k n at settled.
      let p =
        All-get (λ n. is_pending n.status ≡ true) (lookup-In k d at)
          ((all_iff (λ n. is_pending n.status) (values d)).0 h) in
      cc (p, settled);
}

-- What the handling of `k` leaves: the value at each key.
pub Handled-lookup :
    {k : String} {d d' : Nodes} (h : Handled k d d') (j : String)
    → lookup j d' ≡ (if same k j then map_at h.by (lookup j d) else lookup j d)
Handled-lookup {k} {d} h j = ap (lookup j) h.is ∙ lookup-update k j h.by d

pub Handled-IsKeyed : {k : String} {d d' : Nodes} → Handled k d d' → IsKeyed d → IsKeyed d'
Handled-IsKeyed {k} {d} h i = subst IsKeyed (sym h.is) (update-IsKeyed k h.by d h.mild.id i)

pending-incomplete : (s : NodeStatus) → is_pending s ≡ true → is_completed s ≡ false
pending-incomplete pending h = refl
pending-incomplete running h = refl
pending-incomplete completed h = cc
pending-incomplete failed h = refl

-- A dependency that is satisfied stays so when a pending node is handled.
Handled-is_satisfied :
    {k : String} {d d' : Nodes} {n : DagNode}
    → Handled k d d'
    → lookup k d ≡ some n
    → is_pending n.status ≡ true
    → (dep : String) → is_satisfied d dep ≡ true
    → is_satisfied d' dep ≡ true
unfolding is_satisfied
Handled-is_satisfied {k} {d} {n = n} h at pend dep s = elim (Bool-cases (same k dep)) [
  | inr e ↦ rw (Handled-lookup h dep, e) s
  | inl e ↦ cc (
    pending-incomplete n.status pend,
    ap allows at,
    ap (λ j. allows (lookup j d)) (same→eq k dep e),
    s,
  )
]

all_mono :
    (f g : String → Bool) (xs : List String)
    → ((x : String) → f x ≡ true → g x ≡ true)
    → all f xs ≡ true
    → all g xs ≡ true
all_mono f g [] m h = refl
all_mono f g (x ∷ xs) m h =
    let (a, b) = (and_iff (f x) (all f xs)).0 h in (and_iff (g x) _).1 (m x a, all_mono f g xs m b)

-- What a node must be for its handling to keep the order: as listed, pending and ready.
pub record Due (d : Nodes) (n : DagNode) : Type 0 where
  pub stored : lookup n.node_id d ≡ some n
  pub waiting : is_pending n.status ≡ true
  pub ready : all (is_satisfied d) n.depends_on ≡ true

Handled-all :
    {n : DagNode} {d d' : Nodes} (h : Handled n.node_id d d') (u : Due d n) (deps : List String)
    → all (is_satisfied d) deps ≡ true
    → all (is_satisfied d') deps ≡ true
Handled-all {n} {d} {d'} h u deps =
    all_mono (is_satisfied d) (is_satisfied d') deps (Handled-is_satisfied h u.stored u.waiting)

some-eq : {n m : DagNode} → some n ≡ some m → n ≡ m
some-eq e = some-injective _ _ e

pub Handled-IsOrdered :
    {n : DagNode} {d d' : Nodes} → Handled n.node_id d d' → Due d n → IsOrdered d → IsOrdered d'
Handled-IsOrdered {n} {d} {d'} h u o = record {
  at = λ j m at settled. elim (Bool-cases (same n.node_id j)) [
    | inl e ↦
        let was : lookup j d ≡ some n = subst (λ i. lookup i d ≡ some n) (same→eq _ j e) u.stored in
        let now : h.by n ≡ m = some-eq (rw (Handled-lookup h j, e, was) at at) in
        subst (λ x. all (is_satisfied d') x ≡ true)
          (sym (h.mild.deps n) ∙ ap (λ x. x.depends_on) now) (Handled-all h u n.depends_on u.ready)
    | inr e ↦ Handled-all h u m.depends_on (o.at j m (rw (Handled-lookup h j, e) at at) settled)
  ];
}

-- A node that is due and has another identifier is still due.
Handled-Due :
    {n m : DagNode} {d d' : Nodes}
    → Handled n.node_id d d'
    → Due d n
    → n.node_id ≢ m.node_id
    → Due d m
    → Due d' m
Handled-Due {n} {m} h u ne v = record {
  stored = Handled-lookup h m.node_id ∙ rw (same-eq_false _ _ ne) v.stored;
  waiting = v.waiting;
  ready = Handled-all h u m.depends_on v.ready;
}

-- A list of due nodes with distinct identifiers.
abbrev pub Batch : Nodes → List DagNode → Type 0
Batch d [] = Unit
Batch d (n ∷ ns) = Due d n × All (λ m. n.node_id ≢ m.node_id) ns × Batch d ns

pub Handled-Batch :
    {n : DagNode} {d d' : Nodes} (ns : List DagNode)
    → Handled n.node_id d d'
    → Due d n
    → All (λ m. n.node_id ≢ m.node_id) ns
    → Batch d ns
    → Batch d' ns
Handled-Batch [] h u a b = tt
Handled-Batch (m ∷ ns) h u a b = (Handled-Due h u a.0 b.0, b.1, Handled-Batch ns h u a.1 b.2)

-- The ready nodes of a well-formed graph are such a list.
distinct-values :
    (d e : Nodes) (k : String) (n : DagNode)
    → IsKeyed e
    → n.node_id ≡ k
    → lookup k e ≡ none
    → (m : DagNode) → In m (values e)
    → n.node_id ≢ m.node_id
distinct-values d e k n keyed own fresh m i q =
    cc (fresh, ap (λ j. lookup j e) q, ap (λ j. lookup j e) own, In-lookup e keyed i)

Due-of_ready :
    {d : Nodes} {n : DagNode} → lookup n.node_id d ≡ some n → is_ready d n ≡ true → Due d n
unfolding is_ready
Due-of_ready {d} {n} at r =
    let (a, b) = (and_iff (is_pending n.status) _).0 r in
    record { stored = at; waiting = a; ready = b }

ready-Batch :
    (d e : Nodes)
    → IsKeyed e
    → ((n : DagNode) → In n (values e) → lookup n.node_id d ≡ some n)
    → Batch d (keep (is_ready d) (values e))
unfolding values
ready-Batch d [] keyed sub = tt
ready-Batch d ((k, n) ∷ e) keyed sub =
    let rest = ready-Batch d e keyed.2 (λ m i. sub m (there i)) in
    elim (Bool-cases (is_ready d n)) [
      | inl r ↦ subst (Batch d) (sym (kept n (values e) r)) (
        Due-of_ready (sub n here) r,
        All-of (keep (is_ready d) (values e)) (λ m i.
            distinct-values d e k n keyed.2 keyed.0 keyed.1 m
              (In-keep (is_ready d) (values e) i).0),
        rest,
      )
      | inr r ↦ subst (Batch d) (sym (left n (values e) r)) rest
    ]
  where
    kept :
        (m : DagNode) (ms : List DagNode)
        → is_ready d m ≡ true
        → keep (is_ready d) (m ∷ ms) ≡ m ∷ keep (is_ready d) ms
    kept m ms r = rw r

    left :
        (m : DagNode) (ms : List DagNode)
        → is_ready d m ≡ false
        → keep (is_ready d) (m ∷ ms) ≡ keep (is_ready d) ms
    left m ms r = rw r

pub get_ready_nodes-Batch : (g : UcerGraph) → IsKeyed g.nodes → Batch g.nodes (get_ready_nodes g)
unfolding get_ready_nodes
get_ready_nodes-Batch g keyed = ready-Batch g.nodes g.nodes keyed (λ n i. In-lookup g.nodes keyed i)
