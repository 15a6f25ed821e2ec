-- ===== src/Pipeline/Outcome.antt =====
-- How a run ends: the status, the traces and the saved record.
use universal_cross_shell_ex.Prelude.{
  ℕ, ◌≡◌, refl, ap, ◌⊎◌, Bool, true, false, List, [], ◌∷◌, ◌++◌, arith, Bool-cases, inl, inr,
  if◌then◌else◌,
}
use mathlib.Core.List.{append-nil, append_assoc}
use universal_cross_shell_ex.Prelude.Text.{Text}
use universal_cross_shell_ex.Prelude.Result.{Result, ok, err}
use universal_cross_shell_ex.Types.{ExecutionContext}
use universal_cross_shell_ex.Ucer.{Adapter, failed, is_zero, ExecutionStep, ExecutionTrace, Ucer}
use universal_cross_shell_ex.Policy.{Verdict}
use universal_cross_shell_ex.Isolation.{Level}
use universal_cross_shell_ex.Pipeline.{
  Error, RunResult, World, Run, continue, ◌>>◌, check, run_adapter, is_registered, unified_execute,
  record_step, attempt_step, engine_step, engine_steps, step_adapter, append_trace, make_trace,
  Exec, rescue, step_failed, pure,
}

-- A step that returned has passed its first action.
pub continue-eq-ok :
    {A B : Type 0} (x : Result Error A) (f : A → Exec B) (r : Run) {b : B}
    → (continue x f r).0 ≡ ok b
    → (a : A) × (x ≡ ok a) × (continue x f r ≡ f a r)
continue-eq-ok (ok a) f r h = (a, refl, refl)
continue-eq-ok (err e) f r h = cc

rescue-eq-ok :
    {A : Type 0} (h : Run → Run) (y : Result Error A × Run) {a : A}
    → (rescue h y).0 ≡ ok a
    → rescue h y ≡ y
rescue-eq-ok h (ok a, r) e = refl
rescue-eq-ok h (err x, r) e = cc

-- A trace of one step that succeeded.
pub record Succeeded (a : Adapter) (s : ExecutionStep) (t : ExecutionTrace) : Type 0 where
  pub step : t.step_id ≡ s.step_id
  pub command : t.command ≡ s.command
  pub shell : t.adapter ≡ a
  pub exit : is_zero t.exit_code ≡ true

-- One trace for each step, in order, each of a success.
pub data AllSucceeded (level : Level) : List ExecutionStep → List ExecutionTrace → Type 0 where
  none_left : AllSucceeded level [] []
  succeeded :
      {s : ExecutionStep} {t : ExecutionTrace} {ss : List ExecutionStep} {ts : List ExecutionTrace}
      → Succeeded (step_adapter level s.adapter) s t
      → AllSucceeded level ss ts
      → AllSucceeded level (s ∷ ss) (t ∷ ts)

module _ (w : World) (ctx : ExecutionContext) where
  checked-ucer :
      (shell : Adapter) (cmd : Text) (r : Run) (v : Verdict)
      → ((check v >> run_adapter w shell cmd ctx) r).1.ucer ≡ r.ucer
  checked-ucer shell cmd r (ok _) = refl
  checked-ucer shell cmd r (err d) = refl

  -- An adapter call leaves the record alone.
  pub unified_execute-ucer :
      (shell : Adapter) (cmd : Text) (r : Run) → (unified_execute w shell cmd ctx r).1.ucer ≡ r.ucer
  unfolding unified_execute
  unified_execute-ucer shell cmd r = elim (Bool-cases (is_registered shell)) [
    | inl e ↦ rw e (checked-ucer shell cmd r _)
    | inr e ↦ rw e
  ]

  record_step_more :
      (a : Adapter) (s : ExecutionStep) (started : ℕ) (x : RunResult) (r : Run)
      → (record_step w a ctx s started x r).0 ≡ ok true
      → (t : ExecutionTrace) × Succeeded a s t
        × ((record_step w a ctx s started x r).1.ucer ≡ (append_trace t r).ucer)
  unfolding record_step
  record_step_more a s started x r h = (
    make_trace s a x started (w.clock r.log),
    record { step = refl; command = refl; shell = refl; exit = ground arith },
    ground arith,
  )

  record_step_stop :
      (a : Adapter) (s : ExecutionStep) (started : ℕ) (x : RunResult) (r : Run)
      → (record_step w a ctx s started x r).0 ≡ ok false
      → (record_step w a ctx s started x r).1.ucer.status ≡ failed
  unfolding record_step
  record_step_stop a s started x r h = ground arith

  attempt_step-ok :
      (a : Adapter) (s : ExecutionStep) (r : Run) {b : Bool}
      → (attempt_step w a ctx s r).0 ≡ ok b
      → (x : RunResult) × (r' : Run) × (r'.ucer ≡ r.ucer)
        × (attempt_step w a ctx s r ≡ record_step w a ctx s (w.clock r.log) x r')
  unfolding attempt_step
  attempt_step-ok a s r h =
      let called = unified_execute w a s.command ctx r in
      let (x, _, e) = continue-eq-ok called.0 (record_step w a ctx s (w.clock r.log)) called.1 h in
      (x, called.1, unified_execute-ucer a s.command r, e)

  record_step-cases :
      (a : Adapter) (s : ExecutionStep) (started : ℕ) (x : RunResult) (r : Run) (b : Bool)
      → (record_step w a ctx s started x r).0 ≡ ok b
      → ((b ≡ false) × ((record_step w a ctx s started x r).1.ucer.status ≡ failed))
        ⊎ ((b ≡ true)
            × ((t : ExecutionTrace) × Succeeded a s t
                × ((record_step w a ctx s started x r).1.ucer ≡ (append_trace t r).ucer)))
  record_step-cases a s started x r true h = inr (refl, record_step_more a s started x r h)
  record_step-cases a s started x r false h = inl (refl, record_step_stop a s started x r h)

  -- A step that raised nothing has marked the record as failed and leaves the loop, or has
  -- appended its trace.
  engine_step-cases :
      (level : Level) (s : ExecutionStep) (r : Run) (b : Bool)
      → (engine_step w level ctx s r).0 ≡ ok b
      → ((b ≡ false) × ((engine_step w level ctx s r).1.ucer.status ≡ failed))
        ⊎ ((b ≡ true)
            × ((t : ExecutionTrace) × Succeeded (step_adapter level s.adapter) s t
                × ((engine_step w level ctx s r).1.ucer ≡ (append_trace t r).ucer)))
  unfolding engine_step
  engine_step-cases level s r b h =
      let a = step_adapter level s.adapter in
      let same = rescue-eq-ok (step_failed w a) (attempt_step w a ctx s r) h in
      let (x, r', kept, e) = attempt_step-ok a s r (rw same at h) in
      let started = w.clock r.log in
      elim (record_step-cases a s started x r' b (rw (same, e) at h)) [
        | inl (f, k) ↦ inl (f, rw (same, e) k)
        | inr (f, (t, good, k)) ↦ inr (
          f,
          (
            t,
            good,
            rw (same, e, k) (ap (λ (u : Ucer). record u { traces = u.traces ++ t ∷ [] }) kept),
          ),
        )
      ]

  -- A loop that ends without an exception has marked the record as failed, or has appended a trace
  -- of success for each step and changed nothing else.
  pub engine_steps-ok :
      (level : Level) (ss : List ExecutionStep) (r : Run)
      → (engine_steps w level ctx ss r).0 ≡ ok tt
      → let u' = (engine_steps w level ctx ss r).1.ucer in
        (u'.status ≡ failed)
        ⊎ ((ts : List ExecutionTrace) × AllSucceeded level ss ts
            × (u' ≡ record r.ucer { traces = r.ucer.traces ++ ts }))
  unfolding engine_steps
  engine_steps-ok level [] r h = inr ([], none_left, rw append-nil)
  engine_steps-ok level (s ∷ ss) r h =
      let step = engine_step w level ctx s r in
      let (more, em, e) =
        continue-eq-ok step.0 (λ m. if m then engine_steps w level ctx ss else pure tt) step.1 h in
      elim (engine_step-cases level s r more em) [
        | inl (f, k) ↦ inl (rw (e, f) k)
        | inr (f, (t, good, k)) ↦ elim (engine_steps-ok level ss step.1 (rw (e, f) at h)) [
          | inl bad ↦ inl (rw (e, f) bad)
          | inr (ts, all, u) ↦ inr (t ∷ ts, succeeded good all, rw (e, f, u, k) (rw append_assoc))
        ]
      ]
