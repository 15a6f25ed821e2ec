-- ===== src/Legacy/Verdicts.antt =====
-- What the helpers answer.
use universal_cross_shell_ex.Prelude.{
  ℕ, String, ◌≡◌, ◌↔◌, ◌⊎◌, inl, inr, refl, Bool, true, false, List, [], ◌∷◌, Option, none, some,
  All, or_iff, Bool-cases,
}
use universal_cross_shell_ex.Prelude.Text.{Text, lower, contains_any}
use universal_cross_shell_ex.Prelude.Sets.{union, empty}
use universal_cross_shell_ex.Prelude.Result.{ok, err}
use universal_cross_shell_ex.Types.{Capability, Caps, caps_of, exec, fs_read, issubset_iff}
use universal_cross_shell_ex.Ucer.{ExecutionStep, Ucer}
use universal_cross_shell_ex.Auditor.{Node, bash_audit}
use universal_cross_shell_ex.Policy.{Tools, Denied, Verdict, evaluate}
use universal_cross_shell_ex.Policy.Gate.{Permitted, evaluate_iff}
use universal_cross_shell_ex.Legacy.{
  ExecutionIntent, intent_caps, map_capabilities_from_dsl, is_allowed, Answer, allowed, refused,
  destructive, destructive_tokens, first_destructive, audit_context, answer_of, audit_ucer,
  commands_of, audit_all, map_capabilities,
}

is_allowed_answer : Answer → Bool
is_allowed_answer a = elim a [ allowed ↦ true | destructive c ↦ false | refused d ↦ false ]

first_destructive-refuses :
    (d : Denied) (ss : List ExecutionStep) → is_allowed_answer (first_destructive d ss) ≡ false
unfolding first_destructive is_allowed_answer
first_destructive-refuses d [] = refl
first_destructive-refuses d (s ∷ ss) =
    elim (Bool-cases (contains_any destructive_tokens (lower s.command))) [
      | inl e ↦ rw e
      | inr e ↦ rw e (first_destructive-refuses d ss)
    ]

answer_of_iff : (v : Verdict) (ss : List ExecutionStep) → (answer_of v ss ≡ allowed) ↔ (v ≡ ok tt)
unfolding is_allowed_answer
answer_of_iff (ok _) ss = ((λ _. refl), (λ _. refl))
answer_of_iff (err d) ss = ((λ h. cc (first_destructive-refuses d ss, h)), (λ h. cc))

-- The sentinel allows a record exactly when the audit of every step is safe and needs nothing beyond
-- `exec` and `fs_read`.
pub audit_ucer_iff :
    (tools : Tools) (id : String) (now : ℕ) (u : Ucer)
    → ((audit_ucer tools id now u).0 ≡ allowed)
      ↔ All (Permitted tools (caps_of (exec ∷ fs_read ∷ []))) u.steps
unfolding audit_ucer
audit_ucer_iff tools id now u =
    let x = evaluate tools u (some (audit_context id now)) none in
    let gate = evaluate_iff tools u (audit_context id now) none in
    (
      (λ h. (gate.0 ((answer_of_iff x.0 x.1.steps).0 h)).2),
      (λ h. (answer_of_iff x.0 x.1.steps).1 (gate.1 (granted, tt, h))),
    )
  where
    granted : (audit_context id now).capabilities exec ≡ true
    granted = refl

-- Some intent of the list calls for the capability.
abbrev pub Asks : List ExecutionIntent → Capability → Type 0
Asks [] c = ⊥
Asks (i ∷ is) c = (intent_caps i c ≡ true) ⊎ Asks is c

mapped_iff :
    (is : List ExecutionIntent) (s : Caps) (c : Capability)
    → (map_capabilities_from_dsl is s c ≡ true) ↔ ((s c ≡ true) ⊎ Asks is c)
unfolding map_capabilities_from_dsl
mapped_iff [] s c = ((λ h. inl h), (λ h. elim h [ inl e ↦ e | inr e ↦ absurd e ]))
mapped_iff (i ∷ is) s c =
    let rest = mapped_iff is (union s (intent_caps i)) c in
    (
      (λ h. elim (rest.0 h) [
        | inr a ↦ inr (inr a)
        | inl e ↦ elim ((or_iff (s c) (intent_caps i c)).0 e) [
          | inl q ↦ inl q
          | inr q ↦ inr (inl q)
        ]
      ]),
      (λ h. rest.1 (elim h [
        | inl q ↦ inl ((or_iff (s c) (intent_caps i c)).1 (inl q))
        | inr a ↦ elim a [
          | inl q ↦ inl ((or_iff (s c) (intent_caps i c)).1 (inr q))
          | inr b ↦ inr b
        ]
      ])),
    )

-- Intents are allowed exactly when each capability that one of them calls for is.
pub is_allowed_iff :
    (is : List ExecutionIntent) (granted : Caps)
    → (is_allowed (map_capabilities_from_dsl is empty) granted ≡ true)
      ↔ ((c : Capability) → Asks is c → granted c ≡ true)
unfolding is_allowed
is_allowed_iff is granted = (
  (λ h c a.
      (issubset_iff (map_capabilities_from_dsl is empty) granted).0 h c
        ((mapped_iff is empty c).1 (inr a))),
  (λ f.
      (issubset_iff (map_capabilities_from_dsl is empty) granted).1
        (λ c h. elim ((mapped_iff is empty c).0 h) [ inl e ↦ cc | inr a ↦ f c a ])),
)

-- The audit of some command of the list reports the capability.
abbrev pub Reports : (Text → Option (List Node)) → List Text → Capability → Type 0
Reports parse [] c = ⊥
Reports parse (x ∷ xs) c = ((bash_audit (parse x) x).capabilities c ≡ true) ⊎ Reports parse xs c

audit_all_iff :
    (parse : Text → Option (List Node)) (cs : List Text) (s : Caps) (c : Capability)
    → (audit_all parse cs s c ≡ true) ↔ ((s c ≡ true) ⊎ Reports parse cs c)
audit_all_iff parse [] s c = ((λ h. inl h), (λ h. elim h [ inl e ↦ e | inr e ↦ absurd e ]))
audit_all_iff parse (x ∷ xs) s c =
    let found = (bash_audit (parse x) x).capabilities in
    let rest = audit_all_iff parse xs (union s found) c in
    (
      (λ h. elim (rest.0 h) [
        | inr a ↦ inr (inr a)
        | inl e ↦ elim ((or_iff (s c) (found c)).0 e) [ inl q ↦ inl q | inr q ↦ inr (inl q) ]
      ]),
      (λ h. elim h [
        | inl e ↦ rest.1 (inl ((or_iff (s c) (found c)).1 (inl e)))
        | inr (inl e) ↦ rest.1 (inl ((or_iff (s c) (found c)).1 (inr e)))
        | inr (inr a) ↦ rest.1 (inr a)
      ]),
    )

-- For Bash, the capabilities of a tree are those that the audits of its commands report.
pub map_capabilities_iff :
    (parse : Text → Option (List Node)) (nodes : List (Option Text)) (c : Capability)
    → (map_capabilities parse nodes "bash" c ≡ true) ↔ Reports parse (commands_of nodes) c
unfolding map_capabilities
map_capabilities_iff parse nodes c =
    let all = audit_all_iff parse (commands_of nodes) empty c in
    ((λ h. elim (all.0 h) [ inl e ↦ cc | inr a ↦ a ]), (λ a. all.1 (inr a)))
