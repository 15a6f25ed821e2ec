-- ===== src/Pipeline/Refusal.antt =====
-- Records that the first two stages refuse.
use universal_cross_shell_ex.Prelude.{
  String, ◌≡◌, refl, sym, subst, ◌∙◌, ◌⊎◌, ◌≢◌, true, false, Option, none, some, [], ◌∷◌,
  Bool-cases, arith, inl, inr,
}
use universal_cross_shell_ex.Prelude.Result.{ok, err, Result-cases}
use universal_cross_shell_ex.Types.{Caps, caps_of, exec, ExecutionContext}
use universal_cross_shell_ex.Ucer.{
  Ucer, failed, truthy, verify_integrity, sign_intent, model_dump_canonical,
}
use universal_cross_shell_ex.Ucer.Integrity.{verify_integrity_changed}
use universal_cross_shell_ex.Policy.{Tools, Denied, requires, boundary, evaluate}
use universal_cross_shell_ex.Pipeline.{
  tampered, denied, World, Run, Handler, policy, authenticate, add_key, engine, noop, persistence,
  pipeline,
}

module _ (w : World) (ctx : ExecutionContext) where
  -- Where the public key is read: a record that carries a non-empty signature and the hash that
  -- `sign_intent` gave to `u`, but whose canonical form has another hash than that of `u`, is refused
  -- whatever the signature is. Nothing runs, nothing is saved, no event is logged, and the record is
  -- marked as failed and otherwise as before.
  pub pipeline_tampered :
      (key public_key private_key : String) (u : Ucer) (r : Run)
      → w.public_key r.log ≡ some public_key
      → truthy r.ucer.control_signature ≡ true
      → r.ucer.canonical_hash ≡ (sign_intent w.crypto private_key u).canonical_hash
      → w.crypto.hash (model_dump_canonical r.ucer) ≢ w.crypto.hash (model_dump_canonical u)
      → pipeline w key ctx r ≡ (err tampered, record r { ucer = record r.ucer { status = failed } })
  unfolding pipeline
  pipeline_tampered key public_key private_key u r found signed kept changed = rw (
    found,
    signed,
    verify_integrity_changed w.crypto private_key public_key u r.ucer kept changed,
  )

  -- The verdict of the gate depends on the record's steps alone.
  verdict-steps :
      (tools : Tools) (u v : Ucer) (c : Option ExecutionContext) (a : Option Caps)
      → v.steps ≡ u.steps
      → v.required_capabilities ≡ u.required_capabilities
      → (evaluate tools v c a).0 ≡ (evaluate tools u c a).0
  unfolding evaluate
  verdict-steps tools u v c a es er = elim (Result-cases (requires (caps_of (exec ∷ [])) c)) [
    | inr (e, p) ↦ rw p
    | inl (_, p) ↦ elim (Result-cases (boundary tools c a)) [
      | inr (e, q) ↦ rw (p, q)
      | inl (caps, q) ↦ rw (p, q, es, er)
    ]
  ]

  authenticate-ok :
      (key public_key : String) (r : Run)
      → (truthy r.ucer.control_signature ≡ false)
        ⊎ (verify_integrity w.crypto public_key r.ucer ≡ some true)
      → (r' : Run) × (authenticate w key public_key r ≡ (ok tt, r'))
        × (r'.log ≡ r.log)
        × (r'.ucer.steps ≡ r.ucer.steps)
        × (r'.ucer.required_capabilities ≡ r.ucer.required_capabilities)
  unfolding authenticate sign_intent
  authenticate-ok key public_key r signed = elim (Bool-cases (truthy r.ucer.control_signature)) [
    | inr unsigned ↦
        (record r { ucer = sign_intent w.crypto key r.ucer }, rw unsigned, refl, refl, refl)
    | inl has ↦ (r, ground arith, refl, refl, refl)
  ]

  policy-denied :
      (next : Handler) (r : Run) {d : Denied}
      → (evaluate (w.tools r.log) r.ucer (some ctx) none).0 ≡ err d
      → let x = policy w next ctx r in (x.0 ≡ err (denied d)) × (x.1.log ≡ r.log)
  unfolding policy
  policy-denied next r h = rw h (refl, refl)

  -- A record that the gate denies is refused, unsigned or signed as it should be: nothing runs and
  -- nothing is saved.
  pub pipeline_denied :
      (key public_key : String) (r : Run) {d : Denied}
      → w.public_key r.log ≡ some public_key
      → (truthy r.ucer.control_signature ≡ false)
        ⊎ (verify_integrity w.crypto public_key r.ucer ≡ some true)
      → (evaluate (w.tools r.log) r.ucer (some ctx) none).0 ≡ err d
      → let x = pipeline w key ctx r in (x.0 ≡ err (denied d)) × (x.1.log ≡ r.log)
  unfolding pipeline
  pipeline_denied key public_key r {d} found signed no_way =
      let (r', passed, same_log, same_steps, same_caps) = authenticate-ok key public_key r signed in
      let verdict =
        verdict-steps (w.tools r.log) r.ucer (add_key w r').ucer (some ctx) none same_steps
          same_caps in
      let (refused, logged) = policy-denied (persistence w (engine w noop)) (add_key w r') (
        subst (λ l. (evaluate (w.tools l) (add_key w r').ucer (some ctx) none).0 ≡ err d)
          (sym same_log) (verdict ∙ no_way)) in
      rw (found, passed) (refused, logged ∙ same_log)
