-- ===== src/Examples/Pipes.antt =====
-- Pipelines of raw commands.
use universal_cross_shell_ex.Prelude.{◌≡◌, refl, true, [], ◌∷◌, map}
use universal_cross_shell_ex.Prelude.Text.{codes}
use universal_cross_shell_ex.Output.{strip}
use universal_cross_shell_ex.Ucer.{bash, powershell}
use universal_cross_shell_ex.Semantic.Parser.{
  raw_step, parse_raw_pipeline, steps_of, split_pipeline, is_separator, determine_shell, clean,
  resolve_adapter_for_command,
}
use universal_cross_shell_ex.Semantic.Pipelines.{
  Stage, on_bash, on_powershell, IsPlain, stage_step, print_stages, parse_raw_pipeline-print_stages,
}
use universal_cross_shell_ex.Examples.{listing, tools_of}

abbrev first : Stage
first = record { shell = on_powershell; command = codes "ls" }

abbrev second : Stage
second = record { shell = on_bash; command = codes "wc" }

first-IsPlain : IsPlain first
unfolding strip
first-IsPlain = record { no_bar = (refl, (refl, tt)); stripped = refl; whole = refl }

second-IsPlain : IsPlain second
unfolding strip
second-IsPlain = record { no_bar = (refl, (refl, tt)); stripped = refl; whole = refl }

parse_raw_pipeline-print_stages_example :
    (parse_raw_pipeline
      (tools_of listing)
      (codes "count")
      (print_stages (first ∷ second ∷ []))).execution_steps
    ≡ map stage_step (first ∷ second ∷ [])
parse_raw_pipeline-print_stages_example =
    parse_raw_pipeline-print_stages (tools_of listing) (codes "count") (first ∷ second ∷ [])
      (first-IsPlain, (second-IsPlain, tt))

-- A bar that no prefix follows stays in the command.
inner_bar :
    steps_of (split_pipeline 0 (codes "bash:ls | wc |  ps:sort"))
    ≡ raw_step bash (codes "ls | wc") ∷ raw_step powershell (codes "sort") ∷ []
unfolding steps_of split_pipeline is_separator determine_shell clean strip
inner_bar = refl

native : resolve_adapter_for_command true (codes "echo a") ≡ powershell
unfolding resolve_adapter_for_command
native = refl
