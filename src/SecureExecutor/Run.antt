-- ===== src/SecureExecutor/Run.antt =====
-- `SecureExecutor.execute`: the audit record and the run of a command that is accepted.
use universal_cross_shell_ex.Prelude.{
  ℕ, String, Bool, true, false, not, List, [], ◌∷◌, Option, none, some, if◌then◌else◌,
}
use universal_cross_shell_ex.Prelude.Text.{Text, codes}
use universal_cross_shell_ex.Prelude.Dict.{Dict, insert}
use universal_cross_shell_ex.Prelude.Result.{Result, ok, err}
use universal_cross_shell_ex.Ucer.{ExitCode, killed}
use universal_cross_shell_ex.SecureExecutor.{
  CommandSeverity, Shell, bash, powershell, sh, zsh, SecureContext, is_valid_context, Reason,
  Validation, validate,
}

pub record ExecutionAuditRecord : Type 0 where
  pub audit_id : String
  pub timestamp : ℕ
  pub command_hash : String
  pub policy_tags : List String
  pub severity : CommandSeverity
  pub exit_code : ExitCode
  pub stdout_hash : String
  pub stderr_hash : String
  pub duration_seconds : ℕ
  pub executor_user : String
  pub executor_hostname : String
  pub digital_signature : String
  pub merkle_root : String

-- What `subprocess.run` gives.
pub data Completed : Type 0 where
  exited_with : ExitCode → Text → Text → Completed
  timeout_expired os_error : Completed

pub data Event : Type 0 where
  execution_start execution_end : ExecutionAuditRecord → Event
  executed : List Text → Event

-- The policy engine gives the reason of a denial, and may be missing, as the logger may. `hmac` and
-- `merkle` are the digests of the concatenation of their arguments.
pub record Machine : Type 0 where
  pub resolve : Text → Option Text
  pub split : Text → Option (List Text)
  pub policy_engine : Option (Text → List String → CommandSeverity → Option String)
  pub has_audit_logger : Bool
  pub sha256 : Text → String
  pub hmac : (cmd_hash stdout_hash stderr_hash : String) → ExitCode → String
  pub merkle : (cmd_hash signature : String) → String
  pub now : ℕ
  pub user : String
  pub hostname : String
  pub getcwd : Text
  pub environ : Dict String
  pub subprocess_run : List Text → (cwd : Text) → (env : Dict String) → (timeout : ℕ) → Completed

pub data Failure : Type 0 where
  invalid_context execution_timeout execution_error : Failure
  rejected : Option Reason → Failure
  policy_denial : String → Failure

abbrev pub shell_name : Shell → Text
shell_name bash = codes "bash"
shell_name powershell = codes "powershell"
shell_name sh = codes "sh"
shell_name zsh = codes "zsh"

abbrev pub arguments : Shell → Text → List Text
arguments powershell c = codes "powershell" ∷ codes "-NoProfile" ∷ codes "-Command" ∷ c ∷ []
arguments s c = shell_name s ∷ codes "-c" ∷ c ∷ []

-- `env.update(...)`
unfoldable pub updated : Dict String → Dict String → Dict String
unfolding insert
updated env [] = env
updated env ((k, v) ∷ d) = updated (insert k v env) d

abbrev pub dir_or : Text → Option Text → Text
dir_or cwd none = cwd
dir_or cwd (some []) = cwd
dir_or cwd (some (c ∷ cs)) = c ∷ cs

-- The answer of `SecureExecutor.execute`, and the events of the call, the newest first.
abbrev pub Finished : Type 0
Finished = Result Failure (ExitCode × Text × Text × ExecutionAuditRecord) × List Event

module _ (m : Machine) where
  unfoldable pub execute_sandboxed : SecureContext → Completed
  unfolding updated
  execute_sandboxed ctx =
      m.subprocess_run (arguments ctx.shell ctx.command) (dir_or m.getcwd ctx.working_dir)
        (updated m.environ ctx.environment) ctx.timeout_seconds

  abbrev pub logged : Event → List Event → List Event
  logged e l = if m.has_audit_logger then e ∷ l else l

  abbrev pub first_record : SecureContext → CommandSeverity → ExecutionAuditRecord
  first_record ctx severity = record {
    audit_id = ctx.audit_id;
    timestamp = m.now;
    command_hash = m.sha256 ctx.command;
    policy_tags = ctx.policy_tags;
    severity = severity;
    exit_code = killed 0;
    stdout_hash = "";
    stderr_hash = "";
    duration_seconds = 0;
    executor_user = m.user;
    executor_hostname = m.hostname;
    digital_signature = "";
    merkle_root = "";
  }

  abbrev pub final_record : ExecutionAuditRecord → ExitCode → Text → Text → ExecutionAuditRecord
  final_record r code out errors =
      let signature = m.hmac r.command_hash (m.sha256 out) (m.sha256 errors) code in
      record r {
        exit_code = code;
        stdout_hash = m.sha256 out;
        stderr_hash = m.sha256 errors;
        digital_signature = signature;
        merkle_root = m.merkle r.command_hash signature;
      }

  abbrev pub finalize : ExecutionAuditRecord → Completed → List Event → Finished
  finalize r timeout_expired l = (err execution_timeout, l)
  finalize r os_error l = (err execution_error, l)
  finalize r (exited_with code out errors) l =
      let r' = final_record r code out errors in
      (ok (code, out, errors, r'), logged (execution_end r') l)

  -- Steps 4 to 6: the audit record, the run and the final record.
  unfoldable pub run_audited : SecureContext → CommandSeverity → Finished
  unfolding execute_sandboxed
  run_audited ctx severity =
      let r = first_record ctx severity in
      finalize r (execute_sandboxed ctx)
        (executed (arguments ctx.shell ctx.command) ∷ logged (execution_start r) [])

  abbrev pub denial :
      Option (Text → List String → CommandSeverity → Option String)
      → SecureContext
      → CommandSeverity
      → Option String
  denial none ctx severity = none
  denial (some evaluate) ctx severity = evaluate ctx.command ctx.policy_tags severity

  abbrev pub unless_denied : Option String → SecureContext → CommandSeverity → Finished
  unless_denied (some reason) ctx severity = (err (policy_denial reason), [])
  unless_denied none ctx severity = run_audited ctx severity

  abbrev pub on_validation : Validation → SecureContext → Finished
  on_validation (false, reason, severity) ctx = (err (rejected reason), [])
  on_validation (true, reason, severity) ctx =
      unless_denied (denial m.policy_engine ctx severity) ctx severity

  -- `SecureExecutor.execute`
  unfoldable pub execute : SecureContext → Finished
  unfolding is_valid_context validate run_audited
  execute ctx =
      if not (is_valid_context m.resolve ctx)
      then (err invalid_context, [])
      else on_validation (validate (m.split ctx.command) ctx) ctx
