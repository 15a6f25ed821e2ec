-- ===== src/Pipeline/Replay.antt =====
-- `UniversalExecutorFacade.replay` of core/executor.py: a stored record is run again. The snapshot of
-- the workspace is a parameter.
pub mod Again
use Prim.Native.String.{◌++◌}
use universal_cross_shell_ex.Prelude.{
  ℕ, String, ◌≡◌, refl, Bool, true, false, any, List, [], ◌∷◌, Option, none, some, if◌then◌else◌,
}
use universal_cross_shell_ex.Prelude.Json.{end}
use universal_cross_shell_ex.Prelude.Text.{Text}
use universal_cross_shell_ex.Prelude.Result.{Result, ok, err}
use universal_cross_shell_ex.Prelude.Sets.{empty}
use universal_cross_shell_ex.Types.{Capability, capabilities, Caps, caps_of, exec, ExecutionContext}
use universal_cross_shell_ex.Ucer.{
  Adapter, running, completed, killed, ExecutionStep, ExecutionTrace, Ucer,
}
use universal_cross_shell_ex.Isolation.{Level, negotiate_isolation}
use universal_cross_shell_ex.Output.{normalize_output}
use universal_cross_shell_ex.Pipeline.Monad.{
  Error, Log, RunResult, World, Run, Exec, pure, gets, continue, ◌>>=◌, ◌>>◌, modify,
}
use universal_cross_shell_ex.Pipeline.Stages.{
  unified_execute, step_adapter, append_trace, get_or, with_status,
}

-- Whether the snapshot is taken and whether it is restored (`false`: it raises).
pub record Snapshots : Type 0 where
  pub captures : Log → Bool
  pub restores : Log → Bool

pub data SnapshotCall : Type 0 where
  captured restored : SnapshotCall

pub data ReplayError : Type 0 where
  not_found capture_error restore_error : ReplayError
  step_error : Error → ReplayError

-- The record that is run, the events, and the calls of the snapshot, the newest first.
pub record Replayed : Type 0 where
  pub run : Run
  pub snapshots : List SnapshotCall

-- `original.required_capabilities.copy()`, or `EXEC` where there is none.
unfoldable pub replay_caps : Caps → Caps
unfolding caps_of
replay_caps required = if any required capabilities then required else caps_of (exec ∷ [])

abbrev pub started : Ucer → Log → Run
started u log = record { ucer = record u { traces = []; status = running }; log = log }

module _ (w : World) (duration_ms : RunResult → ℕ) where
  -- The `duration_ms` of the result, or 0, is the parameter; the trace has no side effects.
  abbrev pub replay_trace : ExecutionStep → Adapter → RunResult → ℕ → ExecutionTrace
  replay_trace s a x now = record {
    step_id = s.step_id;
    adapter = a;
    command = s.command;
    stdout = normalize_output (get_or x.stdout []);
    stderr = normalize_output (get_or x.stderr []);
    exit_code = get_or x.exit_code (killed 0);
    duration_ms = duration_ms x;
    side_effects = end;
    timestamp = now;
  }

  abbrev pub add_replay : ExecutionStep → Adapter → RunResult → Run → Run
  add_replay s a x r = append_trace (replay_trace s a x (w.clock r.log)) r

  unfoldable pub replay_steps : Level → ExecutionContext → List ExecutionStep → Exec (Unit {0})
  unfolding unified_execute
  replay_steps level ctx [] = pure tt
  replay_steps level ctx (s ∷ ss) = do
    x ← unified_execute w (step_adapter level s.adapter) s.command ctx
    modify (add_replay s (step_adapter level s.adapter) x)
    replay_steps level ctx ss

  -- The `try`.
  unfoldable pub replay_all : Level → ExecutionContext → List ExecutionStep → Exec (Unit {0})
  unfolding replay_steps
  replay_all level ctx ss = do replay_steps level ctx ss; modify (with_status completed)

  abbrev pub replay_context : Option ExecutionContext → Ucer → Log → ExecutionContext
  replay_context (some ctx) u log = ctx
  replay_context none u log = record {
    execution_id = "replay-" ++ u.command_id;
    user_id = "default";
    environment = [];
    working_dir = "/tmp";
    created_at = w.clock log;
    capabilities = replay_caps u.required_capabilities;
  }

  abbrev pub after_try : Result Error (Unit {0}) → Result ReplayError (Unit {0})
  after_try (ok _) = ok tt
  after_try (err e) = err (step_error e)

  -- The `finally`: an exception of the restoration takes the place of the outcome.
  unfoldable pub finish :
      Snapshots → Result Error (Unit {0}) × Run → Result ReplayError (Unit {0}) × Replayed
  finish snap (x, r) =
      if snap.restores r.log
      then (after_try x, record { run = r; snapshots = restored ∷ captured ∷ [] })
      else (err restore_error, record { run = r; snapshots = captured ∷ [] })

  -- `UniversalExecutorFacade.replay`, on what `db.get_ucer` returned.
  unfoldable pub replay :
      Snapshots
      → Option ExecutionContext
      → Run
      → Option Ucer
      → Result ReplayError (Unit {0}) × Replayed
  unfolding replay_all finish negotiate_isolation replay_caps
  replay snap context r none = (err not_found, record { run = r; snapshots = [] })
  replay snap context r (some u) =
      let ctx = replay_context context u r.log in
      let level = negotiate_isolation u.required_capabilities in
      let done = finish snap (replay_all level ctx u.steps (started u r.log)) in
      if snap.captures r.log then done else (err capture_error, record { run = r; snapshots = [] })
