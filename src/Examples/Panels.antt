-- ===== src/Examples/Panels.antt =====
-- The server.
use universal_cross_shell_ex.Prelude.{
  String, ◌≡◌, ◌↔◌, ◌⊎◌, refl, true, false, List, [], ◌∷◌, ◌++◌, some,
}
use Prim.Native.String.{◌++◌ as concat}
use universal_cross_shell_ex.Prelude.Text.{Text, codes}
use universal_cross_shell_ex.Types.{issubset}
use universal_cross_shell_ex.Ucer.{Ucer, completed, exited, ExecutionTrace}
use universal_cross_shell_ex.Auditor.{bash_audit}
use universal_cross_shell_ex.Policy.{evaluate}
use universal_cross_shell_ex.Pipeline.{Error, saved}
use universal_cross_shell_ex.Server.Events.{
  audit_complete, audit_blocked, log_line, Cockpit, Tokens,
}
use universal_cross_shell_ex.Server.Tasks.{blocked_ucer, execute_workflow_task, task_context}
use universal_cross_shell_ex.Server.RedTeam.{attack_ucer, run_red_team_task}
use universal_cross_shell_ex.Server.Reports.{
  Newest, Simulated, made_up, finished, execute_workflow_task-denied, simulations_run_nothing,
}
use universal_cross_shell_ex.Server.Workflows.{WorkflowModel, Workflow}
use universal_cross_shell_ex.Server.Timeline.{get_audit_logs}
use universal_cross_shell_ex.Server.Rego.{
  deny, destructive, unlisted, simulate_rego, judge, simulate_rego-judge,
}
use universal_cross_shell_ex.Examples.{world, listing, removal}

abbrev tokens : Tokens
tokens = record {
  first_step = "s1";
  second_step = "s2";
  control = "1a";
  execution = "2b";
  pub_key = "3c";
}

abbrev str : Error → Text
str e = codes "error"

abbrev digest : Ucer → String
digest u = u.command_id

abbrev quiet : Cockpit
quiet = record { log = []; queue = [] }

abbrev forgery : Ucer
forgery =
    made_up (world removal) "private" digest tokens str "Tidy up" (codes "rm a") "c9" false quiet

abbrev tidied : Cockpit
tidied =
    finished (world removal) "private" digest tokens str "Tidy up" (codes "rm a") "c9" false quiet

execute_workflow_task-denied_example :
    (tidied.log ≡ saved forgery ∷ [])
    × Newest (audit_complete forgery) tidied
    × (forgery.status ≡ completed)
    × (forgery.control_signature ≡ some (concat "sig_valid_" "1a"))
    × ((ts : List ExecutionTrace) × (t : ExecutionTrace) × (forgery.traces ≡ ts ++ t ∷ [])
        × (t.exit_code ≡ exited 0))
unfolding evaluate issubset bash_audit task_context
execute_workflow_task-denied_example =
    execute_workflow_task-denied (world removal) "private" digest tokens str "Tidy up"
      (codes "rm a") "c9" false quiet "public" refl refl refl

simulations_run_nothing_example :
    let w = world listing in
    let u = blocked_ucer w "private" digest tokens "Wipe" (codes "rm -rf /var/log") "c8" [] in
    let f =
      execute_workflow_task w "private" digest tokens str "Wipe"
        (codes "rm -rf /var/log")
        "c8"
        true
        false
        quiet in
    Simulated w "private" digest tokens str u (λ m. (r : Text) × (m ≡ audit_blocked r u)) quiet f
    × Simulated w "private" digest tokens str
        (attack_ucer w tokens "c8" [])
        (λ m. (t : Text) × (m ≡ log_line t "info"))
        quiet
        (run_red_team_task w tokens str "c8" quiet)
simulations_run_nothing_example =
    simulations_run_nothing (world listing) "private" digest tokens str "Wipe"
      (codes "rm -rf /var/log") "c8" false quiet

abbrev poll : Workflow
poll = record { id = "wf-1"; name = "Poll"; description = ""; nodes = []; edges = [] }

abbrev renamed : WorkflowModel
renamed = record { id = some "wf-1"; name = "Ask"; description = ""; nodes = []; edges = [] }

simulate_rego-judge_example :
    ((simulate_rego "egress" (some (codes "curl example.com"))).decision ≡ deny) ↔ (
      ((judge (some (codes "curl example.com"))).decision ≡ deny)
      × ((destructive (codes "curl example.com") ≡ true)
          ⊎ (unlisted (codes "curl example.com") ≡ true)))
simulate_rego-judge_example = simulate_rego-judge "egress" (some (codes "curl example.com"))

bash_entries : (get_audit_logs "bash" "" (codes "INTEGRITY")).1 ≡ 1
unfolding get_audit_logs
bash_entries = refl
