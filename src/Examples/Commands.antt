-- ===== src/Examples/Commands.antt =====
-- The secure executor and the textual auditor of PowerShell.
use universal_cross_shell_ex.Prelude.{◌≡◌, ◌↔◌, ◌⊎◌, refl, true, [], ◌∷◌, none, some}
use universal_cross_shell_ex.Prelude.Text.{codes, lower, contains_any}
use universal_cross_shell_ex.Types.{exec, write_fs}
use universal_cross_shell_ex.Auditor.{reported}
use universal_cross_shell_ex.Auditor.PowerShell.{findings, legacy_audit, legacy_audit-is_safe}
use universal_cross_shell_ex.Prelude.Regex.{search_in}
use universal_cross_shell_ex.Prelude.Result.{err}
use universal_cross_shell_ex.Ucer.{exited}
use universal_cross_shell_ex.SecureExecutor.{SecureContext, bash, first_match, dangerous_patterns}
use universal_cross_shell_ex.SecureExecutor.Run.{Failure, Machine, exited_with, execute}
use universal_cross_shell_ex.SecureExecutor.Refusals.{execute-refuses}

abbrev greeting : SecureContext
greeting = record {
  command = codes "echo a";
  shell = bash;
  timeout_seconds = 300;
  working_dir = none;
  environment = [];
  policy_tags = [];
  audit_id = "a1";
}

abbrev machine : Machine
machine = record {
  resolve = λ d. some d;
  split = λ c. some (c ∷ []);
  policy_engine = none;
  has_audit_logger = true;
  sha256 = λ t. "hash";
  hmac = λ a b c code. "signature";
  merkle = λ a b. "root";
  now = 0;
  user = "unknown";
  hostname = "unknown";
  getcwd = codes "/srv";
  environ = [];
  subprocess_run = λ args cwd env timeout. exited_with (exited 0) (codes "a") [];
}

execute-refuses_example : (e : Failure) × (execute machine greeting ≡ (err e, []))
execute-refuses_example = execute-refuses machine greeting

-- The other patterns do not find a greeting, and the fourth finds what it is for.
greeting-last : first_match (codes "echo a") 0 dangerous_patterns ≡ some 6
unfolding search_in
greeting-last = refl

removal-fourth : first_match (codes "RM  -rf x") 0 dangerous_patterns ≡ some 3
unfolding search_in
removal-fourth = refl

quiet-safe : (legacy_audit (codes "Remove-Item a")).is_safe ≡ true
unfolding legacy_audit
quiet-safe = refl

legacy_audit-is_safe_test :
    ((legacy_audit (codes "Remove-Item a")).capabilities write_fs ≡ true) ↔ (
      (write_fs ≡ exec)
      ⊎ ((contains_any
              (codes "remove-item"
                ∷ codes "del "
                ∷ codes "erase "
                ∷ codes "rm "
                ∷ codes "shred"
                ∷ [])
              (lower (codes "Remove-Item a"))
            ≡ true)
          × (write_fs ≡ write_fs)))
legacy_audit-is_safe_test = legacy_audit-is_safe (codes "Remove-Item a") write_fs quiet-safe

-- The two forms of an indirect invocation, in any case, and with quotes around the whole.
joined-found : findings (codes "& ( 'I' +'eX')") ≡ reported "Indirect invocation detected" ∷ []
unfolding findings
joined-found = refl

variable-found : findings (codes "&$a_1") ≡ reported "Indirect invocation detected" ∷ []
unfolding findings
variable-found = refl

fetch-found : findings (codes "I`WR x") ≡ reported "Risky command detected: Invoke-WebRequest" ∷ []
unfolding findings
fetch-found = refl
