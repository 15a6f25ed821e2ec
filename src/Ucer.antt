-- ===== src/Ucer.antt =====
-- core/ucer.py: the Universal Cross-Execution Record, its canonical form, signing and verifying.
-- JSON encoding, SHA-256 and RSA are the parameter `Crypto`; keys, hashes and signatures are
-- strings. Times and durations are counts of clock ticks.
pub mod Integrity
use universal_cross_shell_ex.Prelude.{
  ℕ, zero, suc, String, ◌≡◌, Bool, true, false, not, ◌&&◌, ◌||◌, List, [], Option, none, some,
  if◌then◌else◌,
}
use universal_cross_shell_ex.Prelude.Text.{Text}
use universal_cross_shell_ex.Prelude.Json.{Fields}
use universal_cross_shell_ex.Prelude.Dict.{same}
use universal_cross_shell_ex.Types.{Caps, sorted_values}

pub data Adapter : Type 0 where
  bash powershell ps linux python microvm : Adapter

pub data Status : Type 0 where
  pending running completed failed blocked : Status

-- An exit code: `exited n` is n, `killed n` is -(n + 1).
pub data ExitCode : Type 0 where
  exited killed : ℕ → ExitCode

-- `code == 0`
abbrev pub is_zero : ExitCode → Bool
is_zero (exited zero) = true
is_zero (exited (suc n)) = false
is_zero (killed n) = false

pub record ExecutionStep : Type 0 where
  pub step_id : String
  pub adapter : Adapter
  pub command : Text
  pub expected_state_changes : Option Fields

pub record ExecutionTrace : Type 0 where
  pub step_id : String
  pub adapter : Adapter
  pub command : Text
  pub stdout : Text
  pub stderr : Text
  pub exit_code : ExitCode
  pub duration_ms : ℕ
  pub side_effects : Fields
  pub timestamp : ℕ

pub record Ucer : Type 0 where
  pub command_id : String
  pub timestamp : ℕ
  pub intent : String
  pub steps : List ExecutionStep
  pub traces : List ExecutionTrace
  pub required_capabilities : Caps
  pub state_hash : Option String
  pub status : Status
  pub canonical_hash : Option String
  pub control_signature : Option String
  pub execution_signature : Option String
  pub execution_pub_key : Option String

-- The dict of `model_dump_canonical`: what is left of a record without its signatures, hashes,
-- traces, status and timestamp.
pub record Canonical : Type 0 where
  pub command_id : String
  pub intent : String
  pub steps : List ExecutionStep
  pub required_capabilities : List String
  pub state_hash : Option String

unfoldable pub model_dump_canonical : Ucer → Canonical
model_dump_canonical u = record {
  command_id = u.command_id;
  intent = u.intent;
  steps = u.steps;
  required_capabilities = sorted_values u.required_capabilities;
  state_hash = u.state_hash;
}

-- `hash` is SHA-256 over canonical JSON, `sign` and `verify` are RSA-PSS; `verify` gives `none` where
-- it raises, as it does on a signature that is not base 64.
pub record Crypto : Type 0 where
  pub hash : Canonical → String
  pub sign : (private_key payload : String) → String
  pub verify : (public_key payload signature : String) → Option Bool

-- The truth value of an optional string: `None` and the empty string are false.
abbrev pub truthy : Option String → Bool
truthy none = false
truthy (some s) = not (same s "")

abbrev pub or_empty : Option String → String
or_empty none = ""
or_empty (some s) = s

module _ (crypto : Crypto) where
  unfoldable pub get_canonical_hash : Ucer → String
  unfolding model_dump_canonical
  get_canonical_hash u = crypto.hash (model_dump_canonical u)

  unfoldable pub sign_intent : String → Ucer → Ucer
  unfolding get_canonical_hash
  sign_intent private_key u =
      let h = get_canonical_hash u in
      record u { canonical_hash = some h; control_signature = some (crypto.sign private_key h) }

  unfoldable pub verify_integrity : String → Ucer → Option Bool
  unfolding get_canonical_hash
  verify_integrity public_key u =
      if not (truthy u.control_signature) || not (truthy u.canonical_hash)
      then some false
      else if not (same (get_canonical_hash u) (or_empty u.canonical_hash))
      then some false
      else crypto.verify public_key (or_empty u.canonical_hash) (or_empty u.control_signature)
