-- ===== src/Auditor/Visit.antt =====
-- The visitor of `BashASTAuditor` against a description of the tree, and what `audit` reports.
use universal_cross_shell_ex.Prelude.{
  ◌≡◌, ◌↔◌, ◌⊎◌, inl, inr, refl, ◌∙◌, Bool, true, false, List, [], ◌∷◌, arith, In, any-of_In,
  In-of_any, or_iff,
}
use universal_cross_shell_ex.Prelude.Text.{Text, text_eq, text_eq→eq, text_eq_refl}
use universal_cross_shell_ex.Prelude.Sets.{test, test_iff}
use universal_cross_shell_ex.Types.{
  Capability, write_fs, network, fs_read, Caps, Capability-discrete,
}
use universal_cross_shell_ex.Auditor.{
  Kind, command, word, redirect, other, Node, node, Parts, nil, cons, Findings, forbidden_commands,
  readers, writers, fetchers, is_one_of, add_if, add_named, check_command, check_redirect,
  visit_node, visit_parts, visit_all,
}

-- The capabilities that a command's name calls for.
pub data Calls (w : Text) : Capability → Type 0 where
  reads : In w readers → Calls w fs_read
  writes : In w writers → Calls w write_fs
  fetches : In w fetchers → Calls w network

-- What a node calls for by itself: a command by its first word, a redirection as such.
abbrev pub Own : Kind → Parts → Capability → Type 0
Own command (cons (node word w ps) rest) c = Calls w c
Own redirect ps c = c ≡ write_fs
Own _ _ c = ⊥

-- What some node of the tree calls for.
abbrev mutual
  pub Needs : Node → Capability → Type 0
  Needs (node kind w parts) c = Own kind parts c ⊎ NeedsIn parts c

  pub NeedsIn : Parts → Capability → Type 0
  NeedsIn nil c = ⊥
  NeedsIn (cons n ns) c = Needs n c ⊎ NeedsIn ns c

abbrev pub NeedsAny : List Node → Capability → Type 0
NeedsAny [] c = ⊥
NeedsAny (n ∷ ns) c = Needs n c ⊎ NeedsAny ns c

is_one_of_iff : (ws : List Text) (w : Text) → (is_one_of ws w ≡ true) ↔ In w ws
is_one_of_iff ws w = (
  (λ h. let (x, i, e) = In-of_any (text_eq w) ws h in rw (text_eq→eq w x e) i),
  (λ i. any-of_In (text_eq w) i (text_eq_refl w)),
)

-- Every forbidden command is among the writers, so the separate test adds nothing.
forbidden-writer : (w : Text) → is_one_of forbidden_commands w ≡ true → is_one_of writers w ≡ true
forbidden-writer w h = ground arith

pub add_if_iff :
    (b : Bool) (x c : Capability) (s : Caps)
    → (add_if b x s c ≡ true) ↔ ((s c ≡ true) ⊎ ((b ≡ true) × (c ≡ x)))
add_if_iff true x c s = (
  (λ h. elim ((or_iff (test (Capability-discrete c x)) (s c)).0 h) [
    | inl e ↦ inr (refl, (test_iff (Capability-discrete c x)).0 e)
    | inr e ↦ inl e
  ]),
  (λ h.
      (or_iff (test (Capability-discrete c x)) (s c)).1
        (elim h [ inl e ↦ inr e | inr (b, e) ↦ inl ((test_iff (Capability-discrete c x)).1 e) ])),
)
add_if_iff false x c s = ((λ h. inl h), (λ h. elim h [ inl e ↦ e | inr (b, e) ↦ cc ]))

module _ (w : Text) (s : Caps) (c : Capability) where
  abbrev s1 : Caps
  s1 = add_if (is_one_of forbidden_commands w) write_fs s

  abbrev s2 : Caps
  s2 = add_if (is_one_of readers w) fs_read s1

  abbrev s3 : Caps
  s3 = add_if (is_one_of writers w) write_fs s2

  named-Calls : add_named w s c ≡ true → (s c ≡ true) ⊎ Calls w c
  unfolding add_named
  named-Calls h = elim ((add_if_iff (is_one_of fetchers w) network c s3).0 h) [
    | inr (b, e) ↦ inr (rw e (fetches ((is_one_of_iff fetchers w).0 b)))
    | inl h3 ↦ elim ((add_if_iff (is_one_of writers w) write_fs c s2).0 h3) [
      | inr (b, e) ↦ inr (rw e (writes ((is_one_of_iff writers w).0 b)))
      | inl h2 ↦ elim ((add_if_iff (is_one_of readers w) fs_read c s1).0 h2) [
        | inr (b, e) ↦ inr (rw e (reads ((is_one_of_iff readers w).0 b)))
        | inl h1 ↦ elim ((add_if_iff (is_one_of forbidden_commands w) write_fs c s).0 h1) [
          | inr (b, e) ↦ inr (rw e (writes ((is_one_of_iff writers w).0 (forbidden-writer w b))))
          | inl h0 ↦ inl h0
        ]
      ]
    ]
  ]

  named-keeps : s c ≡ true → add_named w s c ≡ true
  unfolding add_named
  named-keeps h = (add_if_iff (is_one_of fetchers w) network c s3).1 (
      inl (
        (add_if_iff (is_one_of writers w) write_fs c s2).1 (
          inl (
            (add_if_iff (is_one_of readers w) fs_read c s1).1
              (inl ((add_if_iff (is_one_of forbidden_commands w) write_fs c s).1 (inl h)))))))

Calls-named : (w : Text) (s : Caps) (c : Capability) → Calls w c → add_named w s c ≡ true
unfolding add_named
Calls-named w s c (fetches i) =
    (add_if_iff (is_one_of fetchers w) network network (s3 w s network)).1
      (inr ((is_one_of_iff fetchers w).1 i, refl))
Calls-named w s c (writes i) =
    (add_if_iff (is_one_of fetchers w) network write_fs (s3 w s write_fs)).1 (
      inl (
        (add_if_iff (is_one_of writers w) write_fs write_fs (s2 w s write_fs)).1
          (inr ((is_one_of_iff writers w).1 i, refl))))
Calls-named w s c (reads i) =
    (add_if_iff (is_one_of fetchers w) network fs_read (s3 w s fs_read)).1 (
      inl (
        (add_if_iff (is_one_of writers w) write_fs fs_read (s2 w s fs_read)).1 (
          inl (
            (add_if_iff (is_one_of readers w) fs_read fs_read (s1 w s fs_read)).1
              (inr ((is_one_of_iff readers w).1 i, refl))))))

check_command_iff :
    (k : Kind) (ps : Parts) (s : Caps) (c : Capability)
    → (check_redirect k (check_command k ps s) c ≡ true) ↔ ((s c ≡ true) ⊎ Own k ps c)
unfolding check_command check_redirect
check_command_iff command nil s c = (inl, λ h. elim h [ inl e ↦ e | inr e ↦ absurd e ])
check_command_iff command (cons (node word w ps) rest) s c =
    (named-Calls w s c, (λ h. elim h [ inl e ↦ named-keeps w s c e | inr e ↦ Calls-named w s c e ]))
check_command_iff command (cons (node command w ps) rest) s c =
    (inl, λ h. elim h [ inl e ↦ e | inr e ↦ absurd e ])
check_command_iff command (cons (node redirect w ps) rest) s c =
    (inl, λ h. elim h [ inl e ↦ e | inr e ↦ absurd e ])
check_command_iff command (cons (node other w ps) rest) s c =
    (inl, λ h. elim h [ inl e ↦ e | inr e ↦ absurd e ])
check_command_iff redirect ps s c = (
  (λ h. elim ((add_if_iff true write_fs c s).0 h) [ inl e ↦ inl e | inr (_, e) ↦ inr e ]),
  (λ h. (add_if_iff true write_fs c s).1 (elim h [ inl e ↦ inl e | inr e ↦ inr (refl, e) ])),
)
check_command_iff word ps s c = (inl, λ h. elim h [ inl e ↦ e | inr e ↦ absurd e ])
check_command_iff other ps s c = (inl, λ h. elim h [ inl e ↦ e | inr e ↦ absurd e ])

-- `(p ⊎ q) ⊎ r` and `p ⊎ (q ⊎ r)`.
regroup : {P Q R : Type 0} → ((P ⊎ Q) ⊎ R) ↔ (P ⊎ (Q ⊎ R))
regroup = (
  (λ h. elim h [ inl x ↦ elim x [ inl p ↦ inl p | inr q ↦ inr (inl q) ] | inr r ↦ inr (inr r) ]),
  (λ h. elim h [ inl p ↦ inl (inl p) | inr x ↦ elim x [ inl q ↦ inl (inr q) | inr r ↦ inr r ] ]),
)

pub map_left : {P P' Q : Type 0} → (P ↔ P') → (P ⊎ Q) ↔ (P' ⊎ Q)
map_left e = (
  (λ h. elim h [ inl p ↦ inl (e.0 p) | inr q ↦ inr q ]),
  (λ h. elim h [ inl p ↦ inl (e.1 p) | inr q ↦ inr q ]),
)

pub trans_iff : {P Q R : Type 0} → (P ↔ Q) → (Q ↔ R) → P ↔ R
trans_iff f g = ((λ p. g.0 (f.0 p)), (λ r. f.1 (g.1 r)))

mutual
  unfolding visit_node visit_parts

  node_iff :
      (n : Node) (f : Findings) (c : Capability)
      → ((visit_node n f).caps c ≡ true) ↔ ((f.caps c ≡ true) ⊎ Needs n c)
  node_iff (node kind w parts) f c =
      trans_iff
        (parts_iff parts (record f { caps = check_redirect kind (check_command kind parts f.caps) })
          c)
        (trans_iff (map_left (check_command_iff kind parts f.caps c)) regroup)

  parts_iff :
      (ps : Parts) (f : Findings) (c : Capability)
      → ((visit_parts ps f).caps c ≡ true) ↔ ((f.caps c ≡ true) ⊎ NeedsIn ps c)
  parts_iff nil f c = (inl, λ h. elim h [ inl e ↦ e | inr e ↦ absurd e ])
  parts_iff (cons n ns) f c =
      trans_iff (parts_iff ns (visit_node n f) c) (trans_iff (map_left (node_iff n f c)) regroup)

pub visit_all_iff :
    (ns : List Node) (f : Findings) (c : Capability)
    → ((visit_all ns f).caps c ≡ true) ↔ ((f.caps c ≡ true) ⊎ NeedsAny ns c)
unfolding visit_all
visit_all_iff [] f c = (inl, λ h. elim h [ inl e ↦ e | inr e ↦ absurd e ])
visit_all_iff (n ∷ ns) f c =
    trans_iff (visit_all_iff ns (visit_node n f) c) (trans_iff (map_left (node_iff n f c)) regroup)

-- The visitor reports no reason: it only adds capabilities.
mutual
  unfolding visit_node visit_parts

  node_reasons : (n : Node) (f : Findings) → (visit_node n f).reasons ≡ f.reasons
  node_reasons (node kind w parts) f =
      parts_reasons parts
        (record f { caps = check_redirect kind (check_command kind parts f.caps) })

  parts_reasons : (ps : Parts) (f : Findings) → (visit_parts ps f).reasons ≡ f.reasons
  parts_reasons nil f = refl
  parts_reasons (cons n ns) f = parts_reasons ns (visit_node n f) ∙ node_reasons n f

pub visit_all_reasons : (ns : List Node) (f : Findings) → (visit_all ns f).reasons ≡ f.reasons
unfolding visit_all
visit_all_reasons [] f = refl
visit_all_reasons (n ∷ ns) f = visit_all_reasons ns (visit_node n f) ∙ node_reasons n f
