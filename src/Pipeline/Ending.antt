-- ===== src/Pipeline/Ending.antt =====
-- How a run ends: the status, the traces and the saved record.
use universal_cross_shell_ex.Prelude.{
  String, ◌≡◌, refl, sym, subst, ◌∙◌, ap, ◌⊎◌, List, [], ◌∷◌, ◌++◌, none, some, arith, inl, inr,
}
use universal_cross_shell_ex.Prelude.Result.{Result, ok, err}
use universal_cross_shell_ex.Types.{ExecutionContext}
use universal_cross_shell_ex.Ucer.{running, completed, failed, ExecutionTrace, Ucer}
use universal_cross_shell_ex.Policy.{evaluate}
use universal_cross_shell_ex.Isolation.{negotiate_isolation}
use universal_cross_shell_ex.Pipeline.{
  Error, saved, Log, World, Run, ◌>>◌, note, modify, Handler, check, engine, close, save,
  with_status, final_status, noop, starting, persistence, run_and_close, policy, crypto, enter,
  authenticate, add_key, read_key, pipeline,
}
use universal_cross_shell_ex.Pipeline.Outcome.{continue-eq-ok, AllSucceeded, engine_steps-ok}

module _ (w : World) (ctx : ExecutionContext) where
  -- What a run that ends normally has done: the record is marked as failed, or as completed with
  -- one trace of success for each step.
  abbrev pub Ended : Ucer → Type 0
  Ended u =
      (u.status ≡ failed)
      ⊎ ((u.status ≡ completed)
          × AllSucceeded (negotiate_isolation u.required_capabilities) u.steps u.traces)

  close-eq-ok :
      (x : Result Error (Unit {0})) (r : Run)
      → (close w x r).0 ≡ ok tt
      → let r' = with_status (final_status x r.ucer.status) r in
        (x ≡ ok tt) × ((close w x r).1 ≡ note (saved r'.ucer) r')
  unfolding close save
  close-eq-ok (ok _) r h = (refl, ground arith)
  close-eq-ok (err e) r h = ground arith

  save-eq-ok : (r : Run) → (save w r).0 ≡ ok tt → (save w r).1.ucer ≡ r.ucer
  unfolding save
  save-eq-ok r h = ground arith

  -- The record that the last save gets, after a normal end of the loop.
  abbrev finished : Ucer → Ucer
  finished u = record u { status = final_status (ok tt) u.status }

  traced-Ended :
      (u : Ucer) (ts : List ExecutionTrace)
      → u.status ≡ running
      → u.traces ≡ []
      → AllSucceeded (negotiate_isolation u.required_capabilities) u.steps ts
      → Ended (finished (record u { traces = u.traces ++ ts }))
  traced-Ended u ts es et all =
      let level = negotiate_isolation u.required_capabilities in
      inr (
        ap (final_status (ok tt)) es,
        subst (λ l. AllSucceeded level u.steps (l ++ ts)) (sym et) all,
      )

  engine-Ended :
      (r : Run)
      → r.ucer.status ≡ running
      → r.ucer.traces ≡ []
      → (engine w noop ctx r).0 ≡ ok tt
      → Ended (finished (engine w noop ctx r).1.ucer)
  unfolding engine
  engine-Ended r es et h =
      elim (engine_steps-ok w ctx (negotiate_isolation r.ucer.required_capabilities) r.ucer.steps r
        h) [
          | inl bad ↦ inl (ap (final_status (ok tt)) bad)
          | inr (ts, all, same) ↦
              subst (λ u. Ended (finished u)) (sym same) (traced-Ended r.ucer ts es et all)
        ]

  -- A call that returns normally has gone through all the stages up to the last but one.
  enter-eq-ok :
      (key public_key : String) (next : Handler) (r : Run)
      → (enter w key next ctx public_key r).0 ≡ ok tt
      → (r' : Run) × (enter w key next ctx public_key r ≡ next ctx r')
  unfolding enter
  enter-eq-ok key public_key next r h =
      let a = authenticate w key public_key r in
      let (_, _, e) = continue-eq-ok a.0 (λ _. modify (add_key w) >> next ctx) a.1 h in
      (add_key w a.1, e)

  crypto-eq-ok :
      (key : String) (next : Handler) (r : Run)
      → (crypto w key next ctx r).0 ≡ ok tt
      → (r' : Run) × (crypto w key next ctx r ≡ next ctx r')
  unfolding crypto
  crypto-eq-ok key next r h =
      let k = read_key (w.public_key r.log) r in
      let (pk, _, e) = continue-eq-ok k.0 (enter w key next ctx) k.1 h in
      let (r', same) = enter-eq-ok key pk next k.1 (rw e at h) in (r', e ∙ same)

  policy-eq-ok :
      (next : Handler) (r : Run)
      → (policy w next ctx r).0 ≡ ok tt
      → (r' : Run) × (policy w next ctx r ≡ next ctx r')
  unfolding policy
  policy-eq-ok next r h =
      let (v, u) = evaluate (w.tools r.log) r.ucer (some ctx) none in
      let c = check v (record r { ucer = u }) in
      let (_, _, e) = continue-eq-ok c.0 (λ _. next ctx) c.1 h in (c.1, e)

  persistence-eq-ok :
      (next : Handler) (r : Run)
      → (persistence w next ctx r).0 ≡ ok tt
      → (r' : Run) × (r'.ucer ≡ (starting r).ucer)
        × (persistence w next ctx r ≡ run_and_close w next ctx r')
  unfolding persistence
  persistence-eq-ok next r h =
      let s = save w (starting r) in
      let (_, k, e) = continue-eq-ok s.0 (λ _. run_and_close w next ctx) s.1 h in
      (s.1, save-eq-ok (starting r) k, e)

  closing :
      (r : Run)
      → r.ucer.status ≡ running
      → r.ucer.traces ≡ []
      → (run_and_close w (engine w noop) ctx r).0 ≡ ok tt
      → let r' = (run_and_close w (engine w noop) ctx r).1 in
        Ended r'.ucer × ((l : Log) × (r'.log ≡ saved r'.ucer ∷ l))
  unfolding run_and_close
  closing r es et h =
      let y = engine w noop ctx r in
      let (done, e) = close-eq-ok y.0 y.1 h in
      let u = record y.1.ucer { status = final_status y.0 y.1.ucer.status } in
      let same : u ≡ finished y.1.ucer = rw done in
      let end : Ended u = subst Ended (sym same) (engine-Ended r es et done) in
      subst (λ r'. Ended r'.ucer × ((l : Log) × (r'.log ≡ saved r'.ucer ∷ l))) (sym e)
        (end, (y.1.log, refl))

  -- A run of the pipeline that returns normally ends with a record that is marked as failed, or as
  -- completed with one trace of success for each step, in order; and what it returns is what was
  -- saved last.
  pub pipeline-Ended :
      (key : String) (r : Run)
      → (pipeline w key ctx r).0 ≡ ok tt
      → let r' = (pipeline w key ctx r).1 in
        Ended r'.ucer × ((l : Log) × (r'.log ≡ saved r'.ucer ∷ l))
  unfolding pipeline
  pipeline-Ended key r h =
      let last = engine w noop in
      let (r1, e1) = crypto-eq-ok key (policy w (persistence w last)) r h in
      let (r2, e2) = policy-eq-ok (persistence w last) r1 (rw e1 at h) in
      let (r3, start, e3) = persistence-eq-ok last r2 (rw (e1, e2) at h) in
      rw (e1, e2, e3) (closing r3 (rw start) (rw start) (rw (e1, e2, e3) at h))
