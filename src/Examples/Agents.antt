-- ===== src/Examples/Agents.antt =====
-- The tools of an agent and the command line.
use universal_cross_shell_ex.Prelude.{◌≡◌, ◌⊎◌, refl, true, false, [], ◌∷◌, none, some, String}
use universal_cross_shell_ex.Prelude.Dict.{Dict}
use universal_cross_shell_ex.Prelude.Result.{err}
use universal_cross_shell_ex.Types.{value, exec, fs_read}
use universal_cross_shell_ex.Semantic.{drafted}
use universal_cross_shell_ex.Agent.{
  Deployment, handle_call_tool, exec_intent, run_cli, unknown_tool, failed_with, unknown_capability,
}
use universal_cross_shell_ex.Agent.Confined.{
  AuditedWithin, handle_call_tool-Justified, run_cli-Justified,
}
use universal_cross_shell_ex.Agent.Grants.{Granted}
use universal_cross_shell_ex.Examples.{listing, tools_of, world, ucer}

abbrev deployment : Deployment
deployment = record {
  world = world listing;
  private_key = "private";
  mapper = tools_of listing;
  gate = tools_of listing;
  draft = λ n intent. drafted ucer;
  duration_ms = λ x. 0;
  snapshots = record { captures = λ log. true; restores = λ log. true };
  stored = λ log id. none;
  listed = λ log. [];
  dispatch = λ log u ctx. some 7;
}

abbrev call_arguments : Dict String
call_arguments = ("intent", "list the files") ∷ []

handle_call_tool-Justified_example :
    AuditedWithin
      (world listing)
      (λ c. (c ≡ exec) ⊎ (c ≡ fs_read))
      (handle_call_tool deployment "execute_intent" (some call_arguments) []).1
handle_call_tool-Justified_example =
    handle_call_tool-Justified deployment (some call_arguments) [] tt

run_cli-Justified_example :
    AuditedWithin
      (world listing)
      (Granted ("exec" ∷ []))
      (run_cli deployment (exec_intent "list the files" true ("exec" ∷ [])) []).1
    × ((run_cli deployment (exec_intent "list the files" false ("exec" ∷ [])) []).1 ≡ [])
run_cli-Justified_example = run_cli-Justified deployment "list the files" true ("exec" ∷ []) [] tt

unknown :
    handle_call_tool deployment "shell" (some call_arguments) [] ≡ (err (unknown_tool "shell"), [])
unfolding handle_call_tool
unknown = refl

misspelt :
    run_cli deployment (exec_intent "a" true ("root" ∷ [])) []
    ≡ (failed_with unknown_capability ∷ [], [])
unfolding run_cli value
misspelt = refl
