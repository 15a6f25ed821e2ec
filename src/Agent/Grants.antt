-- ===== src/Agent/Grants.antt =====
-- Which capabilities the two entry points grant.
use mathlib.Core.Option.{some-injective}
use universal_cross_shell_ex.Prelude.{
  String, ◌≡◌, ◌⊎◌, ◌↔◌, inl, inr, refl, sym, ap, subst, ◌∙◌, Bool, true, false, ◌||◌, List, [],
  ◌∷◌, some, In, here, there, In-cons, Bool-cases, Option-cases, arith,
}
use universal_cross_shell_ex.Prelude.Dict.{same, same→eq}
use universal_cross_shell_ex.Prelude.Sets.{insert, test, test_iff}
use universal_cross_shell_ex.Types.{
  Capability, Capability-discrete, Caps, caps_of, capabilities, value, delete_root, write_fs,
  network, exec, fs_read, env_mutate, execute_read,
}
use universal_cross_shell_ex.Agent.{Deployment, chosen_caps, named, parse_caps}

-- The two capabilities of an agent, which are also those of a user who names none.
abbrev pub IsDefault : Capability → Type 0
IsDefault c = (c ≡ exec) ⊎ (c ≡ fs_read)

pub tool_caps_iff : (c : Capability) → (caps_of (exec ∷ fs_read ∷ []) c ≡ true) ↔ IsDefault c
unfolding caps_of
tool_caps_iff c =
    let a = test_iff (Capability-discrete c exec) in
    let b = test_iff (Capability-discrete c fs_read) in ground (arith, a.0, a.1, b.0, b.1)

named-value : (c : Capability) → named (value c) capabilities ≡ some c
unfolding value
named-value delete_root = refl
named-value write_fs = refl
named-value network = refl
named-value exec = refl
named-value fs_read = refl
named-value env_mutate = refl
named-value execute_read = refl

value-named :
    (s : String) (cs : List Capability) (c : Capability) → named s cs ≡ some c → value c ≡ s
value-named s [] c e = cc e
value-named s (x ∷ cs) c e = elim (Bool-cases (same (value x) s)) [
  | inl h ↦
      let eq : x ≡ c = some-injective _ _ (rw h at e) in ap value (sym eq) ∙ same→eq (value x) s h
  | inr h ↦ value-named s cs c (rw h at e)
]

-- The capabilities that are parsed are those whose values are named.
parse_caps_iff :
    (names : List String) (caps : Caps)
    → parse_caps names ≡ some caps
    → (c : Capability) → (caps c ≡ true) ↔ In (value c) names
parse_caps_iff [] caps e c =
    let none_in : caps c ≡ false = ap (λ s. s c) (sym (some-injective _ _ e)) in
    ((λ h. cc (none_in, h)), (λ i. elim i [ ]))
parse_caps_iff (s ∷ ss) caps e c = elim (Option-cases (named s capabilities)) [
  | inl f ↦ cc (rw f at e)
  | inr (x, f) ↦ elim (Option-cases (parse_caps ss)) [
    | inl g ↦ cc (rw (f, g) at e)
    | inr (rest, g) ↦
        let eq : insert Capability-discrete x rest ≡ caps = some-injective _ _ (rw (f, g) at e) in
        let at_c : caps c ≡ (test (Capability-discrete c x) || rest c) = ap (λ s. s c) (sym eq) in
        let t = test_iff (Capability-discrete c x) in
        let ih = parse_caps_iff ss rest g c in
        let spelt : value x ≡ s = value-named s capabilities x f in
        (
          (λ h. elim (or-cases (test (Capability-discrete c x)) (rest c) (sym at_c ∙ h)) [
            | inl k ↦ subst (λ v. In v (s ∷ ss)) (sym (ap value (t.0 k) ∙ spelt)) here
            | inr k ↦ there (ih.0 k)
          ]),
          (λ i. elim (In-cons i) [
            | inl k ↦
                let q : c ≡ x =
                  some-injective _ _
                    (sym (named-value c) ∙ (ap (λ v. named v capabilities) k ∙ f)) in
                at_c ∙ rw (t.1 q)
            | inr j ↦ at_c ∙ or_right (test (Capability-discrete c x)) (rest c) (ih.1 j)
          ]),
        )
  ]
]
  where
    or-cases : (a b : Bool) → (a || b) ≡ true → (a ≡ true) ⊎ (b ≡ true)
    or-cases true b h = inl refl
    or-cases false b h = inr h

    or_right : (a b : Bool) → b ≡ true → (a || b) ≡ true
    or_right true b h = refl
    or_right false b h = h

-- What a user grants with the names on the command line.
abbrev pub Granted : List String → Capability → Type 0
Granted [] c = (c ≡ exec) ⊎ (c ≡ fs_read)
Granted (s ∷ ss) c = In (value c) (s ∷ ss)

pub chosen_caps_iff :
    (d : Deployment) (names : List String) (caps : Caps)
    → chosen_caps d names ≡ some caps
    → (c : Capability) → (caps c ≡ true) ↔ Granted names c
chosen_caps_iff d [] caps e c =
    subst (λ s. (s c ≡ true) ↔ IsDefault c) (some-injective _ _ e) (tool_caps_iff c)
chosen_caps_iff d (s ∷ ss) caps e c = parse_caps_iff (s ∷ ss) caps e c
