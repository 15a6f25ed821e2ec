-- ===== src/Server/Tasks.antt =====
-- api/rest_server.py: the background tasks of the dashboard, which put events on a queue and save
-- records. Waiting is left out; random identifiers are parameters.
use universal_cross_shell_ex.Server.Events.{
  audit_blocked, audit_complete, Cockpit, Tokens, Act, ◌>>◌, put, log_to_dashboard, save, guarded,
}
use universal_cross_shell_ex.Prelude.{
  ℕ, String, Bool, List, [], ◌∷◌, ◌++◌, none, some, if◌then◌else◌,
}
use Prim.Native.String.{◌++◌ as concat}
use universal_cross_shell_ex.Prelude.Text.{Text, codes}
use universal_cross_shell_ex.Prelude.Json.{end}
use universal_cross_shell_ex.Prelude.Result.{Result, ok, err}
use universal_cross_shell_ex.Prelude.Sets.{empty}
use universal_cross_shell_ex.Types.{
  caps_of, exec, fs_read, write_fs, ExecutionContext, Capability-discrete,
}
use universal_cross_shell_ex.Ucer.{
  Adapter, bash, powershell, Status, pending, running, completed, failed, blocked, exited,
  ExecutionStep, ExecutionTrace, Ucer,
}
use universal_cross_shell_ex.Auditor.{add_if}
use universal_cross_shell_ex.Pipeline.{Error, Log, World, Run}
use universal_cross_shell_ex.Pipeline.{execute_ucer}

abbrev pub shell_of : Bool → Adapter
shell_of is_powershell = if is_powershell then powershell else bash

abbrev pub shell_text : Bool → Text
shell_text is_powershell = if is_powershell then codes "powershell" else codes "bash"

abbrev pub status_text : Status → Text
status_text pending = codes "pending"
status_text running = codes "running"
status_text completed = codes "completed"
status_text failed = codes "failed"
status_text blocked = codes "blocked"

-- A record that is not signed and has no traces.
abbrev pub new_ucer : String → ℕ → String → List ExecutionStep → Status → Ucer
new_ucer id now intent steps status = record {
  command_id = id;
  timestamp = now;
  intent = intent;
  steps = steps;
  traces = [];
  required_capabilities = empty;
  state_hash = none;
  status = status;
  canonical_hash = none;
  control_signature = none;
  execution_signature = none;
  execution_pub_key = none;
}

abbrev pub new_step : String → Adapter → Text → ExecutionStep
new_step id adapter command = record {
  step_id = id;
  adapter = adapter;
  command = command;
  expected_state_changes = none;
}

abbrev pub mock_stdout : Bool → Text
mock_stdout is_powershell =
    if is_powershell
    then codes "Handles  NPM(K)    PM(K)      WS(K)     CPU(s)     Id  SI ProcessName\n"
      ++ (codes "-------  ------    -----      -----     ------     --  -- -----------\n"
          ++ (codes "    312      19     4320       9540       0.12    405   1 pwsh\n"
              ++ (codes "    512      32    12540      24120       1.45   1204   1 uvicorn\n"
                  ++ codes "    145      12     1850       4510       0.05   3904   1 conhost")))
    else codes "Promoted workspace path runtime_space/job_1.log"

-- `w` is the executor's world, `hashlib_sim` the hash of a record's JSON text.
module _ (w : World) (private_key : String) (hashlib_sim : Ucer → String) (tokens : Tokens) where
  module _ (intent : String) (command : Text) (command_id : String) where
    abbrev pub reason : Text
    reason =
        codes "Security Gate Blocked Execution: Command '"
        ++ (command
            ++ codes "' violates ISO 27001 policy. Use of forbidden binary 'rm' is restricted.")

    abbrev pub blocked_ucer : Log → Ucer
    blocked_ucer log =
        let step = new_step tokens.first_step bash command in
        record (new_ucer command_id (w.clock log) intent (step ∷ []) blocked) {
          control_signature = some (concat "sig_block_err_" tokens.control);
        }

    -- The branch of a violation.
    unfoldable pub block : Act
    unfolding save
    block c =
        let u = blocked_ucer c.log in
        (do
          log_to_dashboard (codes "AST Audit detected forbidden command: 'rm'") "warn"
          log_to_dashboard reason "alert"
          save w u
          put (audit_blocked reason u))
          c

    module _ (is_powershell : Bool) where
      unfoldable pub task_context : Log → ExecutionContext
      unfolding caps_of Capability-discrete
      task_context log = record {
        execution_id = command_id;
        user_id = "default";
        environment = [];
        working_dir = "/tmp";
        created_at = w.clock log;
        capabilities = add_if is_powershell write_fs (caps_of (fs_read ∷ exec ∷ []));
      }

      abbrev pub task_ucer : Log → Ucer
      task_ucer log =
          let step = new_step tokens.first_step (shell_of is_powershell) command in
          new_ucer command_id (w.clock log) intent (step ∷ []) pending

      abbrev pub mock_trace : String → ℕ → ExecutionTrace
      mock_trace step_id now = record {
        step_id = step_id;
        adapter = shell_of is_powershell;
        command = command;
        stdout = mock_stdout is_powershell;
        stderr = [];
        exit_code = exited 0;
        duration_ms = if is_powershell then 82 else 45;
        side_effects = end;
        timestamp = now;
      }

      -- The record of a fallback: what is left of the record gets a trace and signatures.
      unfoldable pub simulated : Log → String → Ucer → Ucer
      simulated log step_id u =
          let traced = record u {
            traces = u.traces ++ (mock_trace step_id (w.clock log) ∷ []);
            status = completed;
          } in
          record traced {
            state_hash = some (hashlib_sim traced);
            control_signature = some (concat "sig_valid_" tokens.control);
            execution_signature = some (concat "sig_exec_" tokens.execution);
            execution_pub_key = some (concat "pub_key_" tokens.pub_key);
          }

      -- The handler of any exception of the executor.
      unfoldable pub fall_back : String → Ucer → Act
      unfolding save simulated
      fall_back step_id u c =
          let u' = simulated c.log step_id u in
          (do
            log_to_dashboard
                (codes "Docker sandbox or Powershell environment not available. "
                  ++ codes "Falling back to secure simulated telemetry...")
                "warn"
            save w u'
            log_to_dashboard (codes "Execution trace generated and signed. State promoted.") "info"
            put (audit_complete u'))
            c

      abbrev pub report : Ucer → Act
      report u = do
        log_to_dashboard (codes "Execution completed. Status: " ++ status_text u.status) "info"
        put (audit_complete u)

      abbrev pub on_outcome : String → Result Error (Unit {0}) → Ucer → Act
      on_outcome step_id (ok _) u = report u
      on_outcome step_id (err e) u = fall_back step_id u

      -- The call of the executor, and what follows it.
      unfoldable pub attempt : Act
      unfolding execute_ucer fall_back task_context
      attempt c =
          let start : Run = record { ucer = task_ucer c.log; log = c.log } in
          let (x, r) = execute_ucer w private_key (some (task_context c.log)) none start in
          on_outcome tokens.first_step x r.ucer (record c { log = r.log })

      abbrev pub run_benign : Act
      run_benign = do
        log_to_dashboard
            (codes "AST Audit PASSED. No forbidden cmdlets or dangerous flags detected.") "info"
        log_to_dashboard
            (codes "Spawning child isolated sandbox for adapter: "
              ++ (shell_text is_powershell ++ codes "..."))
            "info"
        attempt

      unfoldable pub steps : Bool → Act
      unfolding block attempt
      steps is_violation = do
        log_to_dashboard (codes "Parsing natural language intent: '" ++ (codes intent ++ codes "'"))
            "info"
        log_to_dashboard (codes "Compiled to UCER shell command: " ++ command) "info"
        log_to_dashboard (codes "Evaluating security policy gate...") "info"
        if is_violation then block else run_benign

  unfoldable pub execute_workflow_task :
      (Error → Text)
      → String
      → Text
      → String
      → (is_violation is_powershell : Bool) → Cockpit
      → Cockpit
  unfolding steps
  execute_workflow_task str intent command command_id is_violation is_powershell c =
      guarded str (codes "Orchestration Error: ")
        (steps intent command command_id is_powershell is_violation c)
