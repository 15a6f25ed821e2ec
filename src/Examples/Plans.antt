-- ===== src/Examples/Plans.antt =====
-- Compiled intents and planned workflows.
use universal_cross_shell_ex.Prelude.{
  ℕ, String, ◌≡◌, ◌↔◌, ◌⊎◌, refl, true, all, none, some, ◌==◌, if◌then◌else◌,
}
use universal_cross_shell_ex.Prelude.Text.{codes, starts_with}
use universal_cross_shell_ex.Prelude.Dict.{lookup, values}
use universal_cross_shell_ex.Prelude.Result.{ok, err}
use universal_cross_shell_ex.Types.{Capability, issubset}
use universal_cross_shell_ex.Ucer.{Ucer, powershell}
use universal_cross_shell_ex.Auditor.{bash_audit}
use universal_cross_shell_ex.Dag.{is_pending}
use universal_cross_shell_ex.Policy.{Tools, evaluate}
use universal_cross_shell_ex.Policy.Gate.{Found}
use universal_cross_shell_ex.Dag.Graph.{IsKeyed}
use universal_cross_shell_ex.Semantic.{
  Draft, drafted, invalid, exhausted, resolve_ucer_capabilities, compile_intent, compile, mock_step,
  mock_nodes, plan_workflow,
}
use universal_cross_shell_ex.Semantic.Compiled.{compile_lem}
use universal_cross_shell_ex.Semantic.Planned.{Planned, last_with, plan_workflow-Planned}
use universal_cross_shell_ex.Examples.{context, listing, tools_of, ucer}

-- The second attempt gives a record.
abbrev draft : ℕ → String → Draft
draft n intent = if n == 2 then invalid else drafted ucer

abbrev tools : Tools
tools = tools_of listing

abbrev compiled : Ucer
compiled =
    (evaluate tools (record ucer { required_capabilities = resolve_ucer_capabilities tools ucer })
      (some context) none).1

compile_lem_example :
    (u : Ucer) × (compile_intent draft "list" ≡ ok u)
    × (compiled ≡ record u { required_capabilities = compiled.required_capabilities })
    × ((evaluate tools compiled (some context) none).0 ≡ ok tt)
    × ((c : Capability)
        → (compiled.required_capabilities c ≡ true)
          ↔ (Found tools u.steps c ⊎ Found tools u.steps c))
unfolding compile issubset bash_audit
compile_lem_example = compile_lem tools tools draft context "list" compiled refl

plan_workflow-Planned_example :
    let g = plan_workflow "g1" "ship" mock_nodes in
    ((id : String) → Planned (last_with id mock_nodes) (lookup id g.nodes))
    × IsKeyed g.nodes
    × (all (λ n. is_pending n.status) (values g.nodes) ≡ true)
plan_workflow-Planned_example = plan_workflow-Planned "g1" "ship" mock_nodes

-- Three invalid answers are enough.
exhausted_test : compile_intent (λ n intent. invalid) "list" ≡ err exhausted
unfolding compile_intent
exhausted_test = refl

mock_step_test : mock_step (codes "Show Processes on Windows") ≡ (powershell, codes "Get-Process")
unfolding mock_step starts_with
mock_step_test = refl
