-- ===== src/Pipeline/Stages.antt =====
-- The four stages and their chain.
use universal_cross_shell_ex.Prelude.{
  ℕ, ◌-◌, String, Bool, true, false, not, List, [], ◌∷◌, ◌++◌, Option, none, some, if◌then◌else◌,
}
use universal_cross_shell_ex.Prelude.Text.{Text}
use universal_cross_shell_ex.Prelude.Json.{end}
use universal_cross_shell_ex.Prelude.Result.{Result, ok, err}
use universal_cross_shell_ex.Prelude.Sets.{empty}
use universal_cross_shell_ex.Types.{Caps, caps_of, exec, fs_read, ExecutionContext}
use universal_cross_shell_ex.Ucer.{
  Adapter, python, microvm, Status, pending, running, completed, failed, killed, is_zero,
  ExecutionStep, ExecutionTrace, Ucer, truthy, sign_intent, verify_integrity,
}
use universal_cross_shell_ex.Policy.{Verdict, evaluate}
use universal_cross_shell_ex.Isolation.{Level, negotiate_isolation}
use universal_cross_shell_ex.Sentinel.{get_audit_log, inspect_trace}
use universal_cross_shell_ex.Output.{normalize_output}
use universal_cross_shell_ex.Pipeline.Monad.{
  Error, tampered, malformed_signature, key_error, db_error, adapter_error, denied, unsupported,
  blocked, ran, saved, metric, Log, RunResult, World, Run, Exec, pure, raise, gets, on_error, ◌>>=◌,
  ◌>>◌, modify, raise_if, note, Handler,
}

abbrev pub with_status : Status → Run → Run
with_status s r = record r { ucer = record r.ucer { status = s } }

abbrev pub get_or {ℓ} : {A : Type ℓ} → Option A → A → A
get_or none d = d
get_or (some a) d = a

-- Shells that have both an auditor and an adapter.
abbrev pub is_registered : Adapter → Bool
is_registered python = false
is_registered _ = true

-- `BaseMiddleware.process` with no next handler.
abbrev pub noop : Handler
noop ctx = pure tt

-- `PipelineBuilder.build`: each stage gets the next one as its handler.
unfoldable pub build : List (Handler → Handler) → Handler
build [] = noop
build (m ∷ ms) = m (build ms)

abbrev pub check : Verdict → Exec (Unit {0})
check (ok _) = pure tt
check (err d) = raise (denied d)

abbrev pub answered : Option RunResult → Result Error RunResult
answered none = err adapter_error
answered (some x) = ok x

abbrev pub step_adapter : Level → Adapter → Adapter
step_adapter Level.microvm a = microvm
step_adapter Level.docker a = a

abbrev pub make_trace : ExecutionStep → Adapter → RunResult → ℕ → ℕ → ExecutionTrace
make_trace s a x started now = record {
  step_id = s.step_id;
  adapter = a;
  command = s.command;
  stdout = normalize_output (get_or x.stdout []);
  stderr = normalize_output (get_or x.stderr []);
  exit_code = get_or x.exit_code (killed 0);
  duration_ms = now - started;
  side_effects = get_or x.side_effects end;
  timestamp = now;
}

abbrev pub append_trace : ExecutionTrace → Run → Run
append_trace t r = record r { ucer = record r.ucer { traces = r.ucer.traces ++ t ∷ [] } }

-- The sentinel's refusal marks the record before it raises.
abbrev pub raise_unless : Bool → String → Exec (Unit {0})
raise_unless true id r = (ok tt, r)
raise_unless false id r = (err (blocked id), with_status failed r)

abbrev pub final_status : Result Error (Unit {0}) → Status → Status
final_status (err e) s = failed
final_status (ok _) failed = failed
final_status (ok _) _ = completed

abbrev pub starting : Run → Run
starting r = record r { ucer = record r.ucer { status = running; traces = [] } }

abbrev pub read_key : Option String → Exec String
read_key none = raise key_error
read_key (some k) = pure k

abbrev pub restrict : Option Caps → ExecutionContext → ExecutionContext
restrict none ctx = ctx
restrict (some caps) ctx = record ctx { capabilities = caps }

module _ (w : World) where
  -- The temporary record that `UnifiedExecutor.execute` makes for the gate.
  abbrev pub temp_ucer : Adapter → Text → Log → Ucer
  temp_ucer shell cmd log = record {
    command_id = w.fresh_id log;
    timestamp = w.clock log;
    intent = "unified_exec";
    steps =
        record {
          step_id = w.fresh_id log;
          adapter = shell;
          command = cmd;
          expected_state_changes = none;
        }
        ∷ [];
    traces = [];
    required_capabilities = empty;
    state_hash = none;
    status = pending;
    canonical_hash = none;
    control_signature = none;
    execution_signature = none;
    execution_pub_key = none;
  }

  -- `adapters[shell].run`
  abbrev pub run_adapter : Adapter → Text → ExecutionContext → Exec RunResult
  run_adapter shell cmd ctx r = (answered (w.respond r.log shell cmd ctx), note (ran shell cmd) r)

  -- `UnifiedExecutor.execute`: the rewriting of both auditors returns the command itself.
  unfoldable pub unified_execute : Adapter → Text → ExecutionContext → Exec RunResult
  unified_execute shell cmd ctx = do
    raise_if (not (is_registered shell)) (unsupported shell)
    log ← gets (λ r. r.log)
    check (evaluate (w.tools log) (temp_ucer shell cmd log) (some ctx) none).0
    run_adapter shell cmd ctx

  -- What follows the trace: `false` leaves the loop.
  abbrev pub finish_step : ExecutionTrace → Exec Bool
  finish_step t r =
      let r' = append_trace t r in
      if is_zero t.exit_code
      then (ok true, note (metric r.ucer.command_id t.adapter t.duration_ms true) r')
      else (ok false, with_status failed r')

  -- What follows a call that returned.
  unfoldable pub record_step :
      Adapter → ExecutionContext → ExecutionStep → ℕ → RunResult → Exec Bool
  record_step a ctx s started x = do
    now ← gets (λ r. w.clock r.log)
    let t = make_trace s a x started now
    raise_unless (inspect_trace get_audit_log t ctx) s.step_id
    finish_step t

  -- The body of the loop of `EngineMiddleware.process`, inside its `try`.
  unfoldable pub attempt_step : Adapter → ExecutionContext → ExecutionStep → Exec Bool
  unfolding unified_execute record_step
  attempt_step a ctx s = do
    started ← gets (λ r. w.clock r.log)
    x ← unified_execute a s.command ctx
    record_step a ctx s started x

  abbrev pub step_failed : Adapter → Run → Run
  step_failed a r = note (metric r.ucer.command_id a 0 false) (with_status failed r)

  unfoldable pub engine_step : Level → ExecutionContext → ExecutionStep → Exec Bool
  unfolding attempt_step
  engine_step level ctx s =
      let a = step_adapter level s.adapter in on_error (attempt_step a ctx s) (step_failed a)

  unfoldable pub engine_steps : Level → ExecutionContext → List ExecutionStep → Exec (Unit {0})
  unfolding engine_step
  engine_steps level ctx [] = pure tt
  engine_steps level ctx (s ∷ ss) = do
    more ← engine_step level ctx s
    if more then engine_steps level ctx ss else pure tt

  -- `EngineMiddleware.process`, the last stage: it calls no next handler.
  unfoldable pub engine : Handler → Handler
  unfolding engine_steps negotiate_isolation
  engine next ctx r =
      engine_steps (negotiate_isolation r.ucer.required_capabilities) ctx r.ucer.steps r

  -- `db.save_ucer`
  unfoldable pub save : Exec (Unit {0})
  save r = if w.storable r.log r.ucer then (ok tt, note (saved r.ucer) r) else (err db_error, r)

  -- The `finally` of `PersistenceMiddleware.process`: an exception of the save takes the place of
  -- what the handler returned or raised.
  unfoldable pub close : Result Error (Unit {0}) → Exec (Unit {0})
  unfolding save
  close x r =
      let (y, r') = save (with_status (final_status x r.ucer.status) r) in
      elim y [ ok _ ↦ (x, r') | err e ↦ (err e, r') ]

  -- The `try` of `PersistenceMiddleware.process`.
  unfoldable pub run_and_close : Handler → Handler
  unfolding close
  run_and_close next ctx r = let (x, r') = next ctx r in close x r'

  -- `PersistenceMiddleware.process`
  unfoldable pub persistence : Handler → Handler
  unfolding run_and_close
  persistence next ctx = do modify starting; save; run_and_close next ctx

  -- `PolicyMiddleware.process`
  unfoldable pub policy : Handler → Handler
  policy next ctx r =
      let (v, u) = evaluate (w.tools r.log) r.ucer (some ctx) none in
      (check v >> next ctx) (record r { ucer = u })

  -- `CryptoMiddleware.process`, before it hands on.
  unfoldable pub authenticate : (private_key public_key : String) → Exec (Unit {0})
  authenticate private_key public_key r =
      if truthy r.ucer.control_signature
      then elim (verify_integrity w.crypto public_key r.ucer) [
        | none ↦ (err malformed_signature, r)
        | some is_intact ↦ if is_intact then (ok tt, r) else (err tampered, with_status failed r)
      ]
      else (ok tt, record r { ucer = sign_intent w.crypto private_key r.ucer })

  abbrev pub add_key : Run → Run
  add_key r = record r { ucer = record r.ucer { execution_pub_key = some (w.new_key r.log) } }

  -- What follows the reading of the public key.
  unfoldable pub enter : String → Handler → ExecutionContext → String → Exec (Unit {0})
  unfolding authenticate
  enter private_key next ctx public_key = do
    authenticate private_key public_key
    modify add_key
    next ctx

  unfoldable pub crypto : String → Handler → Handler
  unfolding enter
  crypto private_key next ctx r = (read_key (w.public_key r.log) >>= enter private_key next ctx) r

  -- The pipeline of `UniversalExecutorFacade.__init__`.
  unfoldable pub pipeline : String → Handler
  unfolding build crypto policy persistence engine
  pipeline private_key = build (crypto private_key ∷ policy ∷ persistence ∷ engine ∷ [])

  abbrev pub new_context : Caps → Log → ExecutionContext
  new_context caps log = record {
    execution_id = w.fresh_id log;
    user_id = "default";
    environment = [];
    working_dir = "/tmp";
    created_at = w.clock log;
    capabilities = caps;
  }

  abbrev pub active_context : Option ExecutionContext → Log → ExecutionContext
  active_context none log = new_context (caps_of (exec ∷ fs_read ∷ [])) log
  active_context (some ctx) log = ctx

  -- `UniversalExecutorFacade.execute_ucer`
  unfoldable pub execute_ucer : String → Option ExecutionContext → Option Caps → Exec (Unit {0})
  unfolding pipeline
  execute_ucer private_key context allowed_caps r =
      pipeline private_key (restrict allowed_caps (active_context context r.log)) r
