-- ===== src/Isolation/Nodes.antt =====
-- The isolation that a record gets, and the node.
use universal_cross_shell_ex.Prelude.{
  ◌≤◌, String, ◌≡◌, ◌↔◌, ◌⊎◌, inl, inr, refl, true, false, List, [], ◌∷◌, none, some, keep, subst,
  sym, All, All-get, In-keep, In-keep_of, ap, ltb→lt, arith, In, here, there, ltb, Bool-cases,
}
use universal_cross_shell_ex.Types.{Caps, delete_root, network, Capability-discrete}
use universal_cross_shell_ex.Isolation.{
  Level, microvm, WorkerNode, negotiate_isolation, eligible, least, head_id, allocate_node,
}

-- A record is sent to a microVM exactly when it needs the network or the deletion of the root.
pub negotiate_isolation_iff :
    (required : Caps)
    → (negotiate_isolation required ≡ microvm)
      ↔ ((required delete_root ≡ true) ⊎ (required network ≡ true))
unfolding negotiate_isolation Capability-discrete
negotiate_isolation_iff required = ground arith

least-cons_lt :
    (n m : WorkerNode) (ms : List WorkerNode)
    → ltb m.load n.load ≡ true
    → least n (m ∷ ms) ≡ least m ms
unfolding least
least-cons_lt n m ms e = ap (λ k. least k ms) (rw e)

least-cons_ge :
    (n m : WorkerNode) (ms : List WorkerNode)
    → ltb m.load n.load ≡ false
    → least n (m ∷ ms) ≡ least n ms
unfolding least
least-cons_ge n m ms e = ap (λ k. least k ms) (rw e)

In-skip : {x n m : WorkerNode} {ms : List WorkerNode} → In x (n ∷ ms) → In x (n ∷ m ∷ ms)
In-skip here = here
In-skip (there i) = there (there i)

-- The chosen node is one of the given, and none of them has a smaller load.
abbrev IsLeast : WorkerNode → List WorkerNode → Type 0
IsLeast x ns = In x ns × All (λ m. x.load ≤ m.load) ns

least-nil : (n : WorkerNode) → IsLeast (least n []) (n ∷ [])
unfolding least
least-nil n = (here, (omega arith, tt))

least-IsLeast : (n : WorkerNode) (ns : List WorkerNode) → IsLeast (least n ns) (n ∷ ns)
least-IsLeast n [] = least-nil n
least-IsLeast n (m ∷ ms) = elim (Bool-cases (ltb m.load n.load)) [
  | inl e ↦
      let (i, (le, rest)) = least-IsLeast m ms in
      subst (λ k. IsLeast k (n ∷ m ∷ ms)) (sym (least-cons_lt n m ms e))
        (there i, (omega (arith, ltb→lt _ _ e), (le, rest)))
  | inr e ↦
      let (i, (le, rest)) = least-IsLeast n ms in
      subst (λ k. IsLeast k (n ∷ m ∷ ms)) (sym (least-cons_ge n m ms e))
        (In-skip i, (le, (ground arith, rest)))
]

-- An allocated node is in the list, online, of the required level, and no other such node has a
-- smaller load.
pub allocate_node-least :
    (nodes : List WorkerNode) (level : Level) {id : String}
    → allocate_node nodes level ≡ some id
    → (n : WorkerNode) × (n.id ≡ id)
      × In n nodes
      × (eligible level n ≡ true)
      × ((m : WorkerNode) → In m nodes → eligible level m ≡ true → n.load ≤ m.load)
unfolding allocate_node
allocate_node-least nodes level {id} h = go (keep (eligible level) nodes) refl h
  where
    go :
        (ns : List WorkerNode)
        → keep (eligible level) nodes ≡ ns
        → head_id ns ≡ some id
        → (n : WorkerNode) × (n.id ≡ id)
          × In n nodes
          × (eligible level n ≡ true)
          × ((m : WorkerNode) → In m nodes → eligible level m ≡ true → n.load ≤ m.load)
    go [] e h = cc
    go (n ∷ ns) e h =
        let (i, le) = least-IsLeast n ns in
        let (j, ok) = In-keep (eligible level) nodes (rw (← e) at i) in
        (
          least n ns,
          cc,
          j,
          ok,
          (λ m k p.
              All-get (λ m. (least n ns).load ≤ m.load) (rw e at (In-keep_of (eligible level) k p))
                le),
        )

-- No node is allocated exactly when no node of the level is online.
pub allocate_node-none_iff :
    (nodes : List WorkerNode) (level : Level)
    → (allocate_node nodes level ≡ none) ↔ All (λ n. eligible level n ≡ false) nodes
unfolding allocate_node
allocate_node-none_iff nodes level = (nothing nodes, all_out nodes)
  where
    nothing :
        (ns : List WorkerNode)
        → head_id (keep (eligible level) ns) ≡ none
        → All (λ n. eligible level n ≡ false) ns
    nothing [] h = tt
    nothing (n ∷ ns) h = ground (arith, nothing ns)

    all_out :
        (ns : List WorkerNode)
        → All (λ n. eligible level n ≡ false) ns
        → head_id (keep (eligible level) ns) ≡ none
    all_out [] h = refl
    all_out (n ∷ ns) h = rw h.0 (all_out ns h.1)
