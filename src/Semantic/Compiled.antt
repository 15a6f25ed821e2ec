-- ===== src/Semantic/Compiled.antt =====
-- What a compiled record satisfies.
use universal_cross_shell_ex.Prelude.{
  ℕ, String, ◌≡◌, ◌↔◌, ◌⊎◌, inl, inr, sym, ap, subst, ◌∙◌, true, List, [], ◌∷◌, none, some, All,
  or_iff,
}
use universal_cross_shell_ex.Prelude.Sets.{empty, union}
use universal_cross_shell_ex.Prelude.Result.{Result, ok, err, Result-cases}
use universal_cross_shell_ex.Types.{Capability, exec, Caps, ExecutionContext}
use universal_cross_shell_ex.Ucer.{ExecutionStep, Ucer}
use universal_cross_shell_ex.Policy.{Tools, evaluate}
use universal_cross_shell_ex.Policy.Gate.{
  Found, audited, Permitted, evaluate_iff, evaluate-required_capabilities,
}
use universal_cross_shell_ex.Semantic.{
  Draft, Refused, resolve_for_command, resolve_steps, resolve_ucer_capabilities, compile_intent,
  gated, resolved, gate_draft, compile,
}

ok-injective : {u v : Ucer} → ◌≡◌ {A = Result Refused Ucer} (ok u) (ok v) → u ≡ v
ok-injective {u} e = ap (λ x. elim x [ ok a ↦ a | err d ↦ u ]) e

-- What the mapper gathers: what was there and what the audits of the steps find.
resolve_steps_iff :
    (mapper : Tools) (ss : List ExecutionStep) (total : Caps) (c : Capability)
    → (resolve_steps mapper ss total c ≡ true) ↔ ((total c ≡ true) ⊎ Found mapper ss c)
unfolding resolve_steps resolve_for_command
resolve_steps_iff mapper [] total c = ((λ h. inl h), (λ h. elim h [ inl e ↦ e | inr f ↦ absurd f ]))
resolve_steps_iff mapper (s ∷ ss) total c =
    let rest =
      resolve_steps_iff mapper ss
        (union total (resolve_for_command mapper s.command (some s.adapter))) c in
    let here_iff = or_iff (total c) ((audited mapper s).capabilities c) in
    (
      (λ h. elim (rest.0 h) [
        | inr f ↦ inr (inr f)
        | inl e ↦ elim (here_iff.0 e) [ inl a ↦ inl a | inr b ↦ inr (inl b) ]
      ]),
      (λ h. elim h [
        | inl a ↦ rest.1 (inl (here_iff.1 (inl a)))
        | inr (inl b) ↦ rest.1 (inl (here_iff.1 (inr b)))
        | inr (inr f) ↦ rest.1 (inr f)
      ]),
    )

resolved_iff :
    (mapper : Tools) (u : Ucer) (c : Capability)
    → (resolve_ucer_capabilities mapper u c ≡ true) ↔ Found mapper u.steps c
unfolding resolve_ucer_capabilities
resolved_iff mapper u c =
    let i = resolve_steps_iff mapper u.steps empty c in
    ((λ h. elim (i.0 h) [ inl e ↦ cc | inr f ↦ f ]), (λ f. i.1 (inr f)))

module _ (mapper gate : Tools) (draft : ℕ → String → Draft) (ctx : ExecutionContext) where
  -- The gate's answer on a draft that was resolved.
  passed :
      (u : Ucer)
      → (evaluate gate (resolved mapper u) (some ctx) none).0 ≡ ok tt
      → let u' = (evaluate gate (resolved mapper u) (some ctx) none).1 in
        (u' ≡ record u { required_capabilities = u'.required_capabilities })
        × ((evaluate gate u' (some ctx) none).0 ≡ ok tt)
        × ((c : Capability)
            → (u'.required_capabilities c ≡ true) ↔ (Found mapper u.steps c ⊎ Found gate u.steps c))
  passed u e =
      let v = resolved mapper u in
      let u' = (evaluate gate v (some ctx) none).1 in
      let (granted, bounded, steps) = (evaluate_iff gate v ctx none).0 e in
      let (_, _, rest) = evaluate-required_capabilities gate v ctx none exec e in
      let steps_eq : u'.steps ≡ u.steps = ap (λ x. x.steps) rest in
      (
        rest,
        (evaluate_iff gate u' ctx none).1
            (granted, bounded, subst (All (Permitted gate ctx.capabilities)) (sym steps_eq) steps),
        (λ c.
            let (iff, _, _) = evaluate-required_capabilities gate v ctx none c e in
            let found = resolved_iff mapper u c in
            (
              (λ h. elim (iff.0 h) [ inl a ↦ inl (found.0 a) | inr b ↦ inr b ]),
              (λ h. iff.1 (elim h [ inl a ↦ inl (found.1 a) | inr b ↦ inr b ])),
            )),
      )

  -- A record that is compiled is the one that the client drafted, but for its required capabilities,
  -- which are exactly those that the mapper's and the gate's audits of its steps find; and it passes
  -- the gate again in the same context.
  pub compile_lem :
      (intent : String) (u' : Ucer)
      → compile mapper gate draft ctx intent ≡ ok u'
      → (u : Ucer) × (compile_intent draft intent ≡ ok u)
        × (u' ≡ record u { required_capabilities = u'.required_capabilities })
        × ((evaluate gate u' (some ctx) none).0 ≡ ok tt)
        × ((c : Capability)
            → (u'.required_capabilities c ≡ true) ↔ (Found mapper u.steps c ⊎ Found gate u.steps c))
  unfolding compile
  compile_lem intent u' h = elim (Result-cases (compile_intent draft intent)) [
    | inr (x, f) ↦ cc (ap (gate_draft mapper gate ctx) f, h)
    | inl (u, f) ↦
        let r = evaluate gate (resolved mapper u) (some ctx) none in
        let h' : gated r ≡ ok u' = sym (ap (gate_draft mapper gate ctx) f) ∙ h in
        elim (Result-cases r.0) [
          | inr (d, g) ↦ cc (g, h')
          | inl (t, g) ↦
              let same_u : r.1 ≡ u' = ok-injective (sym (ap (λ v. gated (v, r.1)) g) ∙ h') in
              let (a, b, c) = passed u g in
              (
                u,
                f,
                subst (λ x. x ≡ record u { required_capabilities = x.required_capabilities }) same_u
                    a,
                subst (λ x. (evaluate gate x (some ctx) none).0 ≡ ok tt) same_u b,
                (λ k.
                    subst
                      (λ x.
                        (x.required_capabilities k ≡ true)
                        ↔ (Found mapper u.steps k ⊎ Found gate u.steps k))
                      same_u (c k)),
              )
        ]
  ]
