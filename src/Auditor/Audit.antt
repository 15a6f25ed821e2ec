-- ===== src/Auditor/Audit.antt =====
-- The capabilities and the verdict that the Bash auditor reports.
use universal_cross_shell_ex.Prelude.{
  ◌≡◌, ◌↔◌, ◌⊎◌, inl, inr, refl, true, List, [], ◌∷◌, some, arith, In, any-of_In, In-of_any,
}
use universal_cross_shell_ex.Prelude.Text.{Text, lower, contains, contains_any}
use universal_cross_shell_ex.Prelude.Sets.{test_iff}
use universal_cross_shell_ex.Types.{
  Capability, write_fs, network, exec, fs_read, Caps, caps_of, Capability-discrete,
}
use universal_cross_shell_ex.Auditor.{
  Node, Findings, add_if, visit_all, reader_tokens, writer_tokens, network_tokens, add_tokens,
  bash_audit,
}
use universal_cross_shell_ex.Auditor.Visit.{
  NeedsAny, add_if_iff, trans_iff, visit_all_iff, visit_all_reasons,
}

-- The capabilities that a token in the lowered text calls for.
pub data Shows (lowered : Text) : Capability → Type 0 where
  reads : (t : Text) → In t reader_tokens → contains t lowered ≡ true → Shows lowered fs_read
  writes : (t : Text) → In t writer_tokens → contains t lowered ≡ true → Shows lowered write_fs
  fetches : (t : Text) → In t network_tokens → contains t lowered ≡ true → Shows lowered network

module _ (t : Text) (s : Caps) (c : Capability) where
  abbrev s1 : Caps
  s1 = add_if (contains_any reader_tokens t) fs_read s

  abbrev s2 : Caps
  s2 = add_if (contains_any writer_tokens t) write_fs s1

  shown : add_tokens t s c ≡ true → (s c ≡ true) ⊎ Shows t c
  unfolding add_tokens
  shown h = elim ((add_if_iff (contains_any network_tokens t) network c s2).0 h) [
    | inr (b, e) ↦
        let (x, i, k) = In-of_any (λ p. contains p t) network_tokens b in inr (rw e (fetches x i k))
    | inl h2 ↦ elim ((add_if_iff (contains_any writer_tokens t) write_fs c s1).0 h2) [
      | inr (b, e) ↦
          let (x, i, k) = In-of_any (λ p. contains p t) writer_tokens b in inr (rw e (writes x i k))
      | inl h1 ↦ elim ((add_if_iff (contains_any reader_tokens t) fs_read c s).0 h1) [
        | inr (b, e) ↦
            let (x, i, k) = In-of_any (λ p. contains p t) reader_tokens b in
            inr (rw e (reads x i k))
        | inl h0 ↦ inl h0
      ]
    ]
  ]

  shown_keeps : s c ≡ true → add_tokens t s c ≡ true
  unfolding add_tokens
  shown_keeps h = (add_if_iff (contains_any network_tokens t) network c s2).1 (
      inl (
        (add_if_iff (contains_any writer_tokens t) write_fs c s1).1
          (inl ((add_if_iff (contains_any reader_tokens t) fs_read c s).1 (inl h)))))

show_adds : (t : Text) (s : Caps) (c : Capability) → Shows t c → add_tokens t s c ≡ true
unfolding add_tokens
show_adds t s c (fetches x i k) =
    (add_if_iff (contains_any network_tokens t) network network (s2 t s network)).1
      (inr (any-of_In (λ p. contains p t) i k, refl))
show_adds t s c (writes x i k) =
    (add_if_iff (contains_any network_tokens t) network write_fs (s2 t s write_fs)).1 (
      inl (
        (add_if_iff (contains_any writer_tokens t) write_fs write_fs (s1 t s write_fs)).1
          (inr (any-of_In (λ p. contains p t) i k, refl))))
show_adds t s c (reads x i k) =
    (add_if_iff (contains_any network_tokens t) network fs_read (s2 t s fs_read)).1 (
      inl (
        (add_if_iff (contains_any writer_tokens t) write_fs fs_read (s1 t s fs_read)).1 (
          inl (
            (add_if_iff (contains_any reader_tokens t) fs_read fs_read s).1
              (inr (any-of_In (λ p. contains p t) i k, refl))))))

pub add_tokens_iff :
    (t : Text) (s : Caps) (c : Capability) → (add_tokens t s c ≡ true) ↔ ((s c ≡ true) ⊎ Shows t c)
add_tokens_iff t s c =
    (shown t s c, (λ h. elim h [ inl e ↦ shown_keeps t s c e | inr e ↦ show_adds t s c e ]))

pub exec_iff : (c : Capability) → (caps_of (exec ∷ []) c ≡ true) ↔ (c ≡ exec)
unfolding caps_of
exec_iff c =
    trans_iff ((λ h. ground arith), (λ h. ground arith)) (test_iff (Capability-discrete c exec))

-- For a command that parses, the auditor reports exactly `exec`, what some node of the tree calls
-- for by a command name or a redirection, and what the tokens of the lowered text call for.
pub bash_audit-capabilities :
    (nodes : List Node) (cmd : Text) (c : Capability)
    → ((bash_audit (some nodes) cmd).capabilities c ≡ true)
      ↔ (((c ≡ exec) ⊎ NeedsAny nodes c) ⊎ Shows (lower cmd) c)
unfolding bash_audit
bash_audit-capabilities nodes cmd c =
    let start : Findings = record { reasons = []; caps = caps_of (exec ∷ []) } in
    trans_iff (add_tokens_iff (lower cmd) (visit_all nodes start).caps c) (
      (λ h. elim h [
        | inl e ↦ inl (elim ((visit_all_iff nodes start c).0 e) [
          | inl x ↦ inl ((exec_iff c).0 x)
          | inr n ↦ inr n
        ])
        | inr s ↦ inr s
      ]),
      (λ h. elim h [
        | inl e ↦ inl (
            (visit_all_iff nodes start c).1
              (elim e [ inl x ↦ inl ((exec_iff c).1 x) | inr n ↦ inr n ]))
        | inr s ↦ inr s
      ]),
    )

-- A command that parses is never reported unsafe, whatever it does: the visitor of forbidden
-- commands collects no reason, so only the capabilities can stop it.
pub bash_audit-is_safe :
    (nodes : List Node) (cmd : Text) → (bash_audit (some nodes) cmd).is_safe ≡ true
unfolding bash_audit
bash_audit-is_safe nodes cmd =
    rw (visit_all_reasons nodes (record { reasons = []; caps = caps_of (exec ∷ []) }))
