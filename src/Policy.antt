-- ===== src/Policy.antt =====
-- security/contract.py and security/policy.py: the capability contract and the policy gate.
pub mod Gate
use universal_cross_shell_ex.Prelude.{
  ◌≡◌, Bool, true, false, not, List, [], ◌∷◌, Option, none, some, if◌then◌else◌,
}
use universal_cross_shell_ex.Prelude.Text.{Text}
use universal_cross_shell_ex.Prelude.Sets.{union, diff, empty}
use universal_cross_shell_ex.Prelude.Result.{Result, ok, err}
use universal_cross_shell_ex.Types.{
  Caps, caps_of, issubset, exec, fs_read, execute_read, ExecutionContext,
}
use universal_cross_shell_ex.Ucer.{Adapter, bash, linux, ExecutionStep, Ucer}
use universal_cross_shell_ex.Auditor.{Node, Reason, Reply, AuditResult, bash_audit, ps_audit}

-- The parsers that the auditors call: each answers for a command, or fails.
pub record Tools : Type 0 where
  pub parse : Text → Option (List Node)
  pub daemon : Text → Option Reply

-- The `PermissionError`s, with the set or the reasons that each message names.
pub data Denied : Type 0 where
  no_context : Denied
  missing exceeds unauthorized : Caps → Denied
  not_safe : List Reason → Denied

abbrev pub Verdict : Type 0
Verdict = Result Denied (Unit {0})

-- `FormalContract.requires`
unfoldable pub requires : Caps → Option ExecutionContext → Verdict
requires required none = err no_context
requires required (some ctx) =
    if not (issubset required ctx.capabilities)
    then err (missing (diff required ctx.capabilities))
    else ok tt

abbrev pub is_bash : Adapter → Bool
is_bash bash = true
is_bash linux = true
is_bash _ = false

module _ (tools : Tools) where
  -- The choice of the auditor and its answer.
  unfoldable pub audit : Adapter → Text → AuditResult
  audit adapter command =
      if is_bash adapter
      then bash_audit (tools.parse command) command
      else ps_audit (tools.daemon command)

  -- The loop over the steps, on the capabilities gathered so far.
  unfoldable pub evaluate_steps : Caps → List ExecutionStep → Caps → Verdict × Caps
  unfolding audit
  evaluate_steps allowed [] gathered = (ok tt, gathered)
  evaluate_steps allowed (step ∷ steps) gathered =
      let result = audit step.adapter step.command in
      let gathered' = union gathered result.capabilities in
      let rest = evaluate_steps allowed steps gathered' in
      if not (issubset result.capabilities allowed)
      then (err (unauthorized (diff result.capabilities allowed)), gathered')
      else if not result.is_safe
      then (err (not_safe result.reasons), gathered')
      else rest

  -- `context.capabilities if context else set()`
  abbrev context_caps : Option ExecutionContext → Caps
  context_caps none = empty
  context_caps (some ctx) = ctx.capabilities

  abbrev default_caps : Option ExecutionContext → Caps
  default_caps none = caps_of (fs_read ∷ exec ∷ execute_read ∷ [])
  default_caps (some ctx) = ctx.capabilities

  -- The boundary that the steps are held to.
  unfoldable pub boundary : Option ExecutionContext → Option Caps → Result Denied Caps
  boundary context none = ok (default_caps context)
  boundary context (some allowed) =
      if not (issubset allowed (context_caps context))
      then err (exceeds (diff allowed (context_caps context)))
      else ok allowed

  evaluate_within : Result Denied Caps → Ucer → Verdict × Ucer
  unfolding evaluate_steps
  evaluate_within (err e) u = (err e, u)
  evaluate_within (ok allowed) u =
      let (verdict, gathered) = evaluate_steps allowed u.steps u.required_capabilities in
      (verdict, record u { required_capabilities = gathered })

  guarded : Verdict → Result Denied Caps → Ucer → Verdict × Ucer
  unfolding evaluate_within
  guarded (err e) limit u = (err e, u)
  guarded (ok _) limit u = evaluate_within limit u

  -- `PolicyGate.evaluate` under its contract, with the record that it updates.
  unfoldable pub evaluate : Ucer → Option ExecutionContext → Option Caps → Verdict × Ucer
  unfolding guarded requires boundary caps_of
  evaluate u context allowed_caps =
      guarded (requires (caps_of (exec ∷ [])) context) (boundary context allowed_caps) u
