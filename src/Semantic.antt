-- ===== src/Semantic.antt =====
-- semantic: the capability mapper, the compiler from intents to records, the client for tests and
-- the planner. What a language model answers is a parameter.
pub mod Compiled
pub mod Planned
pub mod Parser
pub mod Pipelines
use universal_cross_shell_ex.Prelude.{
  ℕ, zero, suc, String, Bool, true, false, ◌&&◌, List, [], ◌∷◌, Option, none, some, if◌then◌else◌,
}
use universal_cross_shell_ex.Prelude.Text.{Text, codes, lower, contains, contains_any}
use universal_cross_shell_ex.Prelude.Json.{Fields, end}
use universal_cross_shell_ex.Prelude.Sets.{union, empty}
use universal_cross_shell_ex.Prelude.Result.{Result, ok, err}
use universal_cross_shell_ex.Types.{Caps, caps_of, exec, fs_read, ExecutionContext}
use universal_cross_shell_ex.Ucer.{Adapter, bash, powershell, ExecutionStep, Ucer}
use universal_cross_shell_ex.Dag.{pending, DagNode, UcerGraph, add_node}
use universal_cross_shell_ex.Policy.{Tools, Denied, Verdict, audit, evaluate}

-- What one call of the client and the check of its answer give: a record, a `ValidationError` or
-- `ValueError`, or another exception.
pub data Draft : Type 0 where
  drafted : Ucer → Draft
  invalid failed : Draft

-- Why no record is compiled.
pub data Refused : Type 0 where
  exhausted client_error : Refused
  violation : Denied → Refused

abbrev pub powershell_tokens : List Text
powershell_tokens = codes "get-" ∷ codes "set-" ∷ codes "invoke-" ∷ codes "foreach-object" ∷ []

abbrev pub shell_for : Option Adapter → Text → Adapter
shell_for (some a) command = a
shell_for none command = if contains_any powershell_tokens (lower command) then powershell else bash

module _ (mapper : Tools) where
  -- `CapabilityMapper.resolve_for_command`: the auditor is chosen as by the gate.
  unfoldable pub resolve_for_command : Text → Option Adapter → Caps
  unfolding audit contains_any lower
  resolve_for_command command adapter =
      (audit mapper (shell_for adapter command) command).capabilities

  -- The loop of `resolve_ucer_capabilities`, on what was gathered so far.
  unfoldable pub resolve_steps : List ExecutionStep → Caps → Caps
  unfolding resolve_for_command
  resolve_steps [] total = total
  resolve_steps (s ∷ ss) total =
      resolve_steps ss (union total (resolve_for_command s.command (some s.adapter)))

  unfoldable pub resolve_ucer_capabilities : Ucer → Caps
  unfolding resolve_steps
  resolve_ucer_capabilities u = resolve_steps u.steps empty

abbrev pub next_draft : Draft → Result Refused Ucer → Result Refused Ucer
next_draft (drafted u) rest = ok u
next_draft invalid rest = rest
next_draft failed rest = err client_error

-- The attempts that are left: tenacity calls again after an invalid answer.
unfoldable pub attempts : (ℕ → String → Draft) → String → ℕ → Result Refused Ucer
attempts draft intent zero = err exhausted
attempts draft intent (suc left) = next_draft (draft left intent) (attempts draft intent left)

-- `ResilientSemanticCompiler.compile_intent`, with `stop_after_attempt(3)`.
unfoldable pub compile_intent : (ℕ → String → Draft) → String → Result Refused Ucer
unfolding attempts
compile_intent draft intent = attempts draft intent 3

-- A new context of `compile`, with a new identifier and the present time.
abbrev pub compile_context :
    (fresh_id : String) (now : ℕ) → Option ExecutionContext → ExecutionContext
compile_context fresh_id now (some ctx) = ctx
compile_context fresh_id now none = record {
  execution_id = fresh_id;
  user_id = "default";
  environment = [];
  working_dir = "/tmp";
  created_at = now;
  capabilities = caps_of (exec ∷ fs_read ∷ []);
}

abbrev pub gated : Verdict × Ucer → Result Refused Ucer
gated (ok _, u) = ok u
gated (err d, u) = err (violation d)

abbrev pub resolved : Tools → Ucer → Ucer
resolved mapper u = record u { required_capabilities = resolve_ucer_capabilities mapper u }

module _ (mapper gate : Tools) where
  abbrev pub gate_draft : ExecutionContext → Result Refused Ucer → Result Refused Ucer
  gate_draft ctx (err e) = err e
  gate_draft ctx (ok u) = gated (evaluate gate (resolved mapper u) (some ctx) none)

  -- `SemanticCompilerFacade.compile`
  unfoldable pub compile : (ℕ → String → Draft) → ExecutionContext → String → Result Refused Ucer
  unfolding compile_intent resolve_ucer_capabilities evaluate
  compile draft ctx intent = gate_draft ctx (compile_intent draft intent)

-- `MockLLMClient.to_ucer`: the adapter and the command for an intent.
unfoldable pub mock_step : Text → Adapter × Text
unfolding contains lower
mock_step intent =
    if contains (codes "log") (lower intent)
    then (bash, codes "find /var/log -type f -mtime -1")
    else if contains (codes "process") (lower intent) && contains (codes "windows") (lower intent)
    then (powershell, codes "Get-Process")
    else (bash, codes "echo 'default'")

-- An entry of the planner's JSON.
pub record RawNode : Type 0 where
  pub id : String
  pub name : String
  pub intent : String
  pub depends_on : Option (List String)

abbrev pub or_no_deps : Option (List String) → List String
or_no_deps none = []
or_no_deps (some ds) = ds

abbrev pub node_of : RawNode → DagNode
node_of raw = record {
  node_id = raw.id;
  name = raw.name;
  intent = raw.intent;
  depends_on = or_no_deps raw.depends_on;
  fallback_intent = none;
  status = pending;
  ucer_id = none;
  result_data = none;
}

-- The nodes of the simulated plan.
abbrev pub mock_nodes : List RawNode
mock_nodes =
    record { id = "n1"; name = "Setup"; intent = "Initialize workspace"; depends_on = some [] }
    ∷ record { id = "n2"; name = "Build"; intent = "Compile binary"; depends_on = some ("n1" ∷ []) }
    ∷ record {
      id = "n3";
      name = "Deploy";
      intent = "Deploy binary to server";
      depends_on = some ("n2" ∷ []);
    }
    ∷ []

unfoldable pub add_nodes : List RawNode → UcerGraph → UcerGraph
unfolding add_node
add_nodes [] g = g
add_nodes (raw ∷ rest) g = add_nodes rest (add_node (node_of raw) g)

-- `AutonomousPlanner.plan_workflow`, on the nodes that the model or its simulation answered.
unfoldable pub plan_workflow : (graph_id goal : String) → List RawNode → UcerGraph
unfolding add_nodes
plan_workflow graph_id goal raw_nodes =
    add_nodes raw_nodes (record { graph_id = graph_id; goal = goal; nodes = [] })
