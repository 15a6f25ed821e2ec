-- ===== src/Pipeline/Safety.antt =====
-- Nothing runs that the gate would not let through.
use universal_cross_shell_ex.Prelude.{
  ℕ, String, ◌≡◌, refl, true, List, [], ◌∷◌, Option, none, some, arith, Bool-cases, inl, inr,
}
use universal_cross_shell_ex.Prelude.Text.{Text}
use universal_cross_shell_ex.Prelude.Result.{Result, ok, err}
use universal_cross_shell_ex.Prelude.Sets.{Included}
use universal_cross_shell_ex.Types.{ExecutionContext}
use universal_cross_shell_ex.Ucer.{Adapter, ExecutionStep}
use universal_cross_shell_ex.Policy.{Verdict, audit, evaluate}
use universal_cross_shell_ex.Policy.Gate.{evaluate_iff}
use universal_cross_shell_ex.Isolation.{Level}
use universal_cross_shell_ex.Pipeline.{
  Error, ran, saved, metric, Log, RunResult, World, Run, Exec, continue, ◌>>=◌, ◌>>◌, Handler,
  check, temp_ucer, run_adapter, is_registered, unified_execute, attempt_step, engine_step,
  record_step, engine_steps, engine, noop, save, close, run_and_close, enter, read_key, add_key,
  persistence, policy, authenticate, crypto, pipeline, with_status, step_adapter, starting,
  final_status,
}

-- The action keeps a property of the log, whether it returns or raises.
pub record Keeps (P : Log → Type 0) {A : Type 0} (m : Exec A) : Type 0 where
  pub at : (r : Run) → P r.log → P (m r).1.log

continue-Keeps :
    (P : Log → Type 0) {A B : Type 0} (x : Result Error A) (f : A → Exec B) (r : Run)
    → ((a : A) → Keeps P (f a))
    → P r.log
    → P (continue x f r).1.log
continue-Keeps P (ok a) f r k h = (k a).at r h
continue-Keeps P (err e) f r k h = h

pub Keeps-bind :
    (P : Log → Type 0) {A B : Type 0} (m : Exec A) (f : A → Exec B)
    → Keeps P m
    → ((a : A) → Keeps P (f a))
    → Keeps P (m >>= f)
Keeps-bind P m f km kf = record { at = λ r h. continue-Keeps P (m r).0 f (m r).1 kf (km.at r h) }

module _ (w : World) (ctx : ExecutionContext) where
  -- Every adapter call in the log was audited just before, on the same command and for the same
  -- shell, as safe and within the context's capabilities.
  abbrev pub Justified : Log → Type 0
  Justified [] = Unit
  Justified (ran a cmd ∷ l) =
      Included (audit (w.tools l) a cmd).capabilities ctx.capabilities
      × ((audit (w.tools l) a cmd).is_safe ≡ true)
      × Justified l
  Justified (saved u ∷ l) = Justified l
  Justified (metric u a d s ∷ l) = Justified l

  checked_run :
      (shell : Adapter) (cmd : Text) (r : Run) (v : Verdict)
      → (evaluate (w.tools r.log) (temp_ucer w shell cmd r.log) (some ctx) none).0 ≡ v
      → Justified r.log
      → Justified ((check v >> run_adapter w shell cmd ctx) r).1.log
  checked_run shell cmd r (ok _) e h =
      let (_, _, ((sub, safe), _)) =
        (evaluate_iff (w.tools r.log) (temp_ucer w shell cmd r.log) ctx none).0 e in
      (sub, safe, h)
  checked_run shell cmd r (err d) e h = h

  pub unified_execute-Keeps :
      (shell : Adapter) (cmd : Text) → Keeps Justified (unified_execute w shell cmd ctx)
  unfolding unified_execute
  unified_execute-Keeps shell cmd = record {
    at = λ r h. elim (Bool-cases (is_registered shell)) [
      | inl e ↦ rw e (checked_run shell cmd r _ refl h)
      | inr e ↦ rw e h
    ];
  }

  record_step-Keeps :
      (a : Adapter) (s : ExecutionStep) (started : ℕ) (x : RunResult)
      → Keeps Justified (record_step w a ctx s started x)
  unfolding record_step
  record_step-Keeps a s started x = record { at = λ r h. ground arith }

  attempt_step-Keeps : (a : Adapter) (s : ExecutionStep) → Keeps Justified (attempt_step w a ctx s)
  unfolding attempt_step
  attempt_step-Keeps a s = record {
    at = λ r h.
        (Keeps-bind Justified (unified_execute w a s.command ctx)
            (record_step w a ctx s (w.clock r.log)) (unified_execute-Keeps a s.command)
            (record_step-Keeps a s (w.clock r.log))).at
          r h;
  }

  engine_step-Keeps :
      (level : Level) (s : ExecutionStep) → Keeps Justified (engine_step w level ctx s)
  unfolding engine_step
  engine_step-Keeps level s = record {
    at = λ r h. ground (arith, (attempt_step-Keeps (step_adapter level s.adapter) s).at r h);
  }

  engine_steps-Keeps :
      (level : Level) (ss : List ExecutionStep) → Keeps Justified (engine_steps w level ctx ss)
  unfolding engine_steps
  engine_steps-Keeps level [] = record { at = λ r h. h }
  engine_steps-Keeps level (s ∷ ss) =
      Keeps-bind Justified (engine_step w level ctx s) _ (engine_step-Keeps level s)
        (λ more. record { at = λ r h. ground (arith, (engine_steps-Keeps level ss).at r h) })

  engine-Keeps : (next : Handler) → Keeps Justified (engine w next ctx)
  unfolding engine
  engine-Keeps next = record { at = λ r h. (engine_steps-Keeps _ r.ucer.steps).at r h }

  save-Keeps : Keeps Justified (save w)
  unfolding save
  save-Keeps = record { at = λ r h. ground arith }

  close-Keeps : (x : Result Error (Unit {0})) → Keeps Justified (close w x)
  unfolding close
  close-Keeps x = record {
    at = λ r h. ground (arith, save-Keeps.at (with_status (final_status x r.ucer.status) r) h);
  }

  run_and_close-Keeps :
      (next : Handler) → Keeps Justified (next ctx) → Keeps Justified (run_and_close w next ctx)
  unfolding run_and_close
  run_and_close-Keeps next k = record {
    at = λ r h. (close-Keeps (next ctx r).0).at (next ctx r).1 (k.at r h);
  }

  persistence-Keeps :
      (next : Handler) → Keeps Justified (next ctx) → Keeps Justified (persistence w next ctx)
  unfolding persistence
  persistence-Keeps next k = record {
    at = λ r h.
        (Keeps-bind Justified (save w) (λ _. run_and_close w next ctx) save-Keeps
            (λ _. run_and_close-Keeps next k)).at
          (starting r) h;
  }

  check-Keeps :
      (next : Handler) (v : Verdict)
      → Keeps Justified (next ctx)
      → Keeps Justified (check v >> next ctx)
  check-Keeps next (ok _) k = k
  check-Keeps next (err d) k = record { at = λ r h. h }

  policy-Keeps : (next : Handler) → Keeps Justified (next ctx) → Keeps Justified (policy w next ctx)
  unfolding policy
  policy-Keeps next k = record {
    at = λ r h.
        let (v, u) = evaluate (w.tools r.log) r.ucer (some ctx) none in
        (check-Keeps next v k).at (record r { ucer = u }) h;
  }

  authenticate-Keeps :
      (private_key public_key : String) → Keeps Justified (authenticate w private_key public_key)
  unfolding authenticate
  authenticate-Keeps private_key public_key = record { at = λ r h. ground arith }

  enter-Keeps :
      (private_key public_key : String) (next : Handler)
      → Keeps Justified (next ctx)
      → Keeps Justified (enter w private_key next ctx public_key)
  unfolding enter
  enter-Keeps private_key public_key next k =
      Keeps-bind Justified (authenticate w private_key public_key) _
        (authenticate-Keeps private_key public_key)
        (λ _. record { at = λ r h. k.at (add_key w r) h })

  read-Keeps :
      (key : String) (next : Handler) (found : Option String)
      → Keeps Justified (next ctx)
      → Keeps Justified (read_key found >>= enter w key next ctx)
  read-Keeps key next none k = record { at = λ r h. h }
  read-Keeps key next (some p) k = enter-Keeps key p next k

  crypto-Keeps :
      (key : String) (next : Handler)
      → Keeps Justified (next ctx)
      → Keeps Justified (crypto w key next ctx)
  unfolding crypto
  crypto-Keeps key next k = record {
    at = λ r h. (read-Keeps key next (w.public_key r.log) k).at r h;
  }

  -- Whatever the outcome, every adapter call of a run of the pipeline was audited just before as
  -- safe and within the context's capabilities, if that held of the calls before the run.
  pub pipeline-Justified :
      (key : String) (r : Run) → Justified r.log → Justified (pipeline w key ctx r).1.log
  unfolding pipeline
  pipeline-Justified key r h =
      let last = engine w noop in
      let save_around = persistence w last in
      (crypto-Keeps key (policy w save_around)
          (policy-Keeps save_around (persistence-Keeps last (engine-Keeps noop)))).at
        r h
