-- ===== src/Sentinel.antt =====
-- security/sentinel.py, with the audit log of security/network.py.
pub mod Leaks
use universal_cross_shell_ex.Prelude.{
  String, Bool, true, false, not, ◌&&◌, List, [], ◌∷◌, ◌++◌, any, if◌then◌else◌,
}
use universal_cross_shell_ex.Prelude.Text.{Text, codes, lower, contains, contains_any}
use universal_cross_shell_ex.Types.{network, ExecutionContext}
use universal_cross_shell_ex.Ucer.{ExecutionTrace}

-- `NetworkAuditor.get_audit_log`, which is a mock: no entry, whatever the execution.
unfoldable pub get_audit_log : String → List String
get_audit_log execution_id = []

abbrev pub sensitive_patterns : List Text
sensitive_patterns =
    codes "password=" ∷ codes "secret=" ∷ codes "key=" ∷ codes "BEGIN RSA PRIVATE KEY" ∷ []

-- The truth value of a list.
abbrev pub non_empty {ℓ} : {A : Type ℓ} → List A → Bool
non_empty [] = false
non_empty (x ∷ xs) = true

-- `SecuritySentinel.inspect_trace`, over the network auditor's log; a failed exit code is only
-- logged there.
unfoldable pub inspect_trace : (String → List String) → ExecutionTrace → ExecutionContext → Bool
unfolding contains_any lower
inspect_trace log trace context =
    if not (context.capabilities network) && non_empty (log context.execution_id)
    then false
    else not (contains_any sensitive_patterns (lower (trace.stdout ++ trace.stderr)))
