-- ===== src/Policy/Gate.antt =====
-- What the policy gate lets through.
use universal_cross_shell_ex.Prelude.{
  ◌≡◌, ◌↔◌, ◌⊎◌, ◌≢◌, inl, inr, refl, true, false, List, [], ◌∷◌, Option, none, some, arith, In,
  All, All-get, Bool-cases,
}
use universal_cross_shell_ex.Prelude.Text.{lower}
use universal_cross_shell_ex.Prelude.Sets.{Included, union}
use universal_cross_shell_ex.Prelude.Result.{ok, Result-cases}
use universal_cross_shell_ex.Types.{
  Capability, exec, Caps, caps_of, issubset, issubset_iff, ExecutionContext,
}
use universal_cross_shell_ex.Ucer.{bash, ExecutionStep, Ucer}
use universal_cross_shell_ex.Auditor.{Node, bash_audit, AuditResult}
use universal_cross_shell_ex.Auditor.Visit.{NeedsAny}
use universal_cross_shell_ex.Auditor.Audit.{Shows, bash_audit-capabilities, exec_iff}
use universal_cross_shell_ex.Policy.{
  Tools, requires, audit, evaluate_steps, boundary, evaluate_within, evaluate,
}

-- The contract asks for `EXEC` in the context.
pub requires_exec :
    (ctx : ExecutionContext)
    → (requires (caps_of (exec ∷ [])) (some ctx) ≡ ok tt) ↔ (ctx.capabilities exec ≡ true)
unfolding requires
requires_exec ctx =
    let required = caps_of (exec ∷ []) in
    elim (Bool-cases (issubset required ctx.capabilities)) [
      | inl e ↦ (
        (λ _. (issubset_iff required ctx.capabilities).0 e exec ((exec_iff exec).1 refl)),
        (λ _. rw e),
      )
      | inr e ↦ (
        (λ h. ground arith),
        (λ h. cc ((issubset_iff required ctx.capabilities).1 (λ c k. rw ((exec_iff c).0 k) h))),
      )
    ]

module _ (tools : Tools) where
  abbrev pub audited : ExecutionStep → AuditResult
  audited s = audit tools s.adapter s.command

  -- A step that the gate accepts within `allowed`.
  abbrev pub Permitted : Caps → ExecutionStep → Type 0
  Permitted allowed s = Included (audited s).capabilities allowed × ((audited s).is_safe ≡ true)

  -- What some step of the list was found to need.
  abbrev pub Found : List ExecutionStep → Capability → Type 0
  Found [] c = ⊥
  Found (s ∷ ss) c = ((audited s).capabilities c ≡ true) ⊎ Found ss c

  steps_ok :
      (allowed : Caps) (ss : List ExecutionStep) (g : Caps)
      → ((evaluate_steps tools allowed ss g).0 ≡ ok tt) ↔ All (Permitted allowed) ss
  unfolding evaluate_steps
  steps_ok allowed [] g = ((λ _. tt), (λ _. refl))
  steps_ok allowed (s ∷ ss) g =
      let r = audited s in
      let ih = steps_ok allowed ss (union g r.capabilities) in
      elim (Bool-cases (issubset r.capabilities allowed)) [
        | inl sub ↦ elim (Bool-cases r.is_safe) [
          | inl safe ↦ (
            (λ h. (((issubset_iff r.capabilities allowed).0 sub, safe), ih.0 (ground arith))),
            (λ h. rw (sub, safe) (ih.1 h.1)),
          )
          | inr unsafe ↦ ((λ h. ground arith), (λ h. cc (h.0.1)))
        ]
        | inr out ↦ ((λ h. ground arith), (λ h. cc ((issubset_iff r.capabilities allowed).1 h.0.0)))
      ]

  -- Whatever the verdict, each gathered capability was there before or was found in some step; on
  -- success all that was found is there.
  steps_gathered :
      (allowed : Caps) (ss : List ExecutionStep) (g : Caps) (c : Capability)
      → (evaluate_steps tools allowed ss g).1 c ≡ true
      → (g c ≡ true) ⊎ Found ss c
  unfolding evaluate_steps
  steps_gathered allowed [] g c h = inl h
  steps_gathered allowed (s ∷ ss) g c h =
      ground (arith, steps_gathered allowed ss (union g (audited s).capabilities) c)

  steps_keep :
      (allowed : Caps) (ss : List ExecutionStep) (g : Caps) (c : Capability)
      → (evaluate_steps tools allowed ss g).0 ≡ ok tt
      → (g c ≡ true) ⊎ Found ss c
      → (evaluate_steps tools allowed ss g).1 c ≡ true
  unfolding evaluate_steps
  steps_keep allowed [] g c p h = elim h [ inl e ↦ e | inr e ↦ absurd e ]
  steps_keep allowed (s ∷ ss) g c p h =
      ground (arith, steps_keep allowed ss (union g (audited s).capabilities) c)

  -- The boundary that is asked for lies within the context.
  abbrev pub Bounded : ExecutionContext → Option Caps → Type 0
  Bounded ctx none = Unit
  Bounded ctx (some allowed) = Included allowed ctx.capabilities

  abbrev pub limit : ExecutionContext → Option Caps → Caps
  limit ctx none = ctx.capabilities
  limit ctx (some allowed) = allowed

  boundary_ok :
      (ctx : ExecutionContext) (allowed : Option Caps)
      → Bounded ctx allowed
      → boundary tools (some ctx) allowed ≡ ok (limit ctx allowed)
  unfolding boundary
  boundary_ok ctx none h = refl
  boundary_ok ctx (some a) h = rw ((issubset_iff a ctx.capabilities).1 h)

  boundary_inv :
      (ctx : ExecutionContext) (allowed : Option Caps) {caps : Caps}
      → boundary tools (some ctx) allowed ≡ ok caps
      → Bounded ctx allowed × (caps ≡ limit ctx allowed)
  unfolding boundary
  boundary_inv ctx none h = (tt, cc)
  boundary_inv ctx (some a) h = elim (Bool-cases (issubset a ctx.capabilities)) [
    | inl e ↦ ((issubset_iff a ctx.capabilities).0 e, ground arith)
    | inr e ↦ absurd (ground arith)
  ]

  evaluate_within-ok :
      (allowed : Caps) (u : Ucer)
      → ((evaluate_within tools (ok allowed) u).0 ≡ ok tt) ↔ All (Permitted allowed) u.steps
  unfolding evaluate_within
  evaluate_within-ok allowed u = steps_ok allowed u.steps u.required_capabilities

  -- A call that passes has run the loop under the boundary.
  gate_parts :
      (u : Ucer) (ctx : ExecutionContext) (allowed : Option Caps)
      → (evaluate tools u (some ctx) allowed).0 ≡ ok tt
      → (ctx.capabilities exec ≡ true)
        × Bounded ctx allowed
        × (evaluate tools u (some ctx) allowed ≡ evaluate_within tools (ok (limit ctx allowed)) u)
  unfolding evaluate
  gate_parts u ctx allowed h = elim (Result-cases (requires (caps_of (exec ∷ [])) (some ctx))) [
    | inr (e, p) ↦ absurd (ground arith)
    | inl (_, p) ↦ elim (Result-cases (boundary tools (some ctx) allowed)) [
      | inr (e, q) ↦ absurd (ground arith)
      | inl (caps, q) ↦
          let (bounded, same) = boundary_inv ctx allowed q in
          ((requires_exec ctx).0 p, bounded, rw (p, q, same))
    ]
  ]

  -- Under a context the gate passes exactly when the context grants `exec`, the explicit boundary
  -- (if one is given) lies within the context, and the audit of every step is safe and stays within
  -- the boundary.
  pub evaluate_iff :
      (u : Ucer) (ctx : ExecutionContext) (allowed : Option Caps)
      → ((evaluate tools u (some ctx) allowed).0 ≡ ok tt) ↔ (
          (ctx.capabilities exec ≡ true)
          × Bounded ctx allowed
          × All (Permitted (limit ctx allowed)) u.steps)
  evaluate_iff u ctx allowed = (
    (λ h.
        let (granted, bounded, e) = gate_parts u ctx allowed h in
        (granted, bounded, (evaluate_within-ok (limit ctx allowed) u).0 (rw e at h))),
    (λ (granted, bounded, steps).
        unfold evaluate in
        rw ((requires_exec ctx).1 granted, boundary_ok ctx allowed bounded)
          ((evaluate_within-ok (limit ctx allowed) u).1 steps)),
  )

  Found-granted :
      (allowed caps : Caps) (ss : List ExecutionStep) (c : Capability)
      → Included allowed caps
      → All (Permitted allowed) ss
      → Found ss c
      → caps c ≡ true
  Found-granted allowed caps [] c sub h f = absurd f
  Found-granted allowed caps (s ∷ ss) c sub h f = elim f [
    | inl e ↦ sub c (h.0.0 c e)
    | inr e ↦ Found-granted allowed caps ss c sub h.1 e
  ]

  limit-le :
      (ctx : ExecutionContext) (allowed : Option Caps)
      → Bounded ctx allowed
      → Included (limit ctx allowed) ctx.capabilities
  limit-le ctx none h c e = e
  limit-le ctx (some a) h c e = h c e

  -- When the gate passes, it has added to the record exactly the capabilities that the audits of
  -- the steps found, all of which the context grants, and has changed nothing else of the record.
  pub evaluate-required_capabilities :
      (u : Ucer) (ctx : ExecutionContext) (allowed : Option Caps) (c : Capability)
      → (evaluate tools u (some ctx) allowed).0 ≡ ok tt
      → let u' = (evaluate tools u (some ctx) allowed).1 in
        ((u'.required_capabilities c ≡ true)
          ↔ ((u.required_capabilities c ≡ true) ⊎ Found u.steps c))
        × (Found u.steps c → ctx.capabilities c ≡ true)
        × (u' ≡ record u { required_capabilities = u'.required_capabilities })
  unfolding evaluate_within
  evaluate-required_capabilities u ctx allowed c h =
      let (granted, bounded, e) = gate_parts u ctx allowed h in
      let (_, _, steps) = (evaluate_iff u ctx allowed).0 h in
      let a = limit ctx allowed in
      (
        rw e (
          (λ k. steps_gathered a u.steps u.required_capabilities c k),
          (λ k.
              steps_keep a u.steps u.required_capabilities c
                ((steps_ok a u.steps u.required_capabilities).1 steps) k),
        ),
        (λ f. Found-granted a ctx.capabilities u.steps c (limit-le ctx allowed bounded) steps f),
        rw e,
      )

  audited_bash :
      (s : ExecutionStep) (nodes : List Node)
      → s.adapter ≡ bash
      → tools.parse s.command ≡ some nodes
      → audited s ≡ bash_audit (some nodes) s.command
  unfolding audit
  audited_bash s nodes e p = rw (e, p)

  -- A Bash step is stopped by what its text calls for: with a node of the parsed command that
  -- calls for a capability which the context does not grant, or a token that does, no call of the
  -- gate under that context passes.
  pub evaluate_blocks :
      (u : Ucer) (ctx : ExecutionContext) (allowed : Option Caps) (s : ExecutionStep)
      (nodes : List Node) (c : Capability)
      → In s u.steps
      → s.adapter ≡ bash
      → tools.parse s.command ≡ some nodes
      → NeedsAny nodes c ⊎ Shows (lower s.command) c
      → ctx.capabilities c ≡ false
      → (evaluate tools u (some ctx) allowed).0 ≢ ok tt
  evaluate_blocks u ctx allowed s nodes c i is_bash parsed calls absent passed =
      let (granted, bounded, steps) = (evaluate_iff u ctx allowed).0 passed in
      let within = (All-get (Permitted (limit ctx allowed)) i steps).0 c in
      let found =
        (bash_audit-capabilities nodes s.command c).1
          (elim calls [ inl n ↦ inl (inr n) | inr t ↦ inr t ]) in
      let held =
        limit-le ctx allowed bounded c (within (rw (audited_bash s nodes is_bash parsed) found)) in
      cc
