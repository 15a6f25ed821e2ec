-- ===== src/Semantic/Parser.antt =====
-- semantic/parser.py: a pipeline of raw commands as steps, and the record of a deletion; and the
-- choice of a shell in semantic/resolver.py.
use universal_cross_shell_ex.Prelude.{
  ℕ, zero, suc, Bool, true, false, ◌&&◌, List, [], ◌∷◌, ◌++◌, Option, none, some, any, ◌==◌,
  if◌then◌else◌,
}
use universal_cross_shell_ex.Prelude.Text.{Text, codes, starts_with, contains_any}
use universal_cross_shell_ex.Prelude.Sets.{union, empty}
use universal_cross_shell_ex.Types.{Caps}
use universal_cross_shell_ex.Ucer.{Adapter, bash, powershell, python}
use universal_cross_shell_ex.Policy.{Tools}
use universal_cross_shell_ex.Output.{is_space, strip}
use universal_cross_shell_ex.Semantic.{resolve_for_command}

-- A step of semantic/ucer.py, without its random identifier.
pub record RawStep : Type 0 where
  pub shell : Adapter
  pub command : Text
  pub timeout_ms : ℕ
  pub ignore_errors : Bool

pub record RawUcer : Type 0 where
  pub intent : Text
  pub required_capabilities : Caps
  pub execution_steps : List RawStep
  pub rollback_steps : List RawStep

abbrev pub raw_step : Adapter → Text → RawStep
raw_step shell command = record {
  shell = shell;
  command = command;
  timeout_ms = 30000;
  ignore_errors = false;
}

-- The prefixes, `ps:`, `bash:` and `python:`.
abbrev pub prefixes : List Text
prefixes = codes "bash:" ∷ codes "ps:" ∷ codes "python:" ∷ []

abbrev pub cmdlet_tokens : List Text
cmdlet_tokens = codes "Get-" ∷ codes "Set-" ∷ codes "Invoke-" ∷ codes "ForEach-Object" ∷ []

unfoldable pub determine_shell : Text → Adapter
unfolding starts_with contains_any
determine_shell command =
    if starts_with (codes "ps:") command
    then powershell
    else if starts_with (codes "bash:") command
    then bash
    else if starts_with (codes "python:") command
    then python
    else if contains_any cmdlet_tokens command
    then powershell
    else bash

abbrev pub drop : ℕ → Text → Text
drop zero t = t
drop (suc n) [] = []
drop (suc n) (c ∷ t) = drop n t

-- The part without its prefix.
unfoldable pub clean : Text → Text
unfolding starts_with strip
clean part =
    if starts_with (codes "ps:") part
    then strip (drop 3 part)
    else if starts_with (codes "bash:") part
    then strip (drop 5 part)
    else if starts_with (codes "python:") part
    then strip (drop 7 part)
    else part

-- The white space at the front of a text: how much, and what follows it.
abbrev pub count_spaces : Text → ℕ
count_spaces [] = 0
count_spaces (c ∷ t) = if is_space c then suc (count_spaces t) else 0

abbrev pub after_spaces : Text → Text
after_spaces [] = []
after_spaces (c ∷ t) = if is_space c then after_spaces t else c ∷ t

-- `\|\s*(?=bash:|ps:|python:)` at this place, a bar being 124.
unfoldable pub is_separator : ℕ → Text → Bool
unfolding starts_with
is_separator c t = c == 124 && any (λ p. starts_with p (after_spaces t)) prefixes

abbrev pub to_first : ℕ → List Text → List Text
to_first c [] = (c ∷ []) ∷ []
to_first c (p ∷ ps) = (c ∷ p) ∷ ps

-- `re.split` at the separators; `n` characters are still to be skipped.
unfoldable pub split_pipeline : ℕ → Text → List Text
split_pipeline n [] = [] ∷ []
split_pipeline (suc n) (c ∷ t) = split_pipeline n t
split_pipeline zero (c ∷ t) = elim (is_separator c t) [
  | true ↦ [] ∷ split_pipeline (count_spaces t) t
  | false ↦ to_first c (split_pipeline zero t)
]

-- The loop over the parts: an empty one is skipped.
abbrev pub step_of : Text → Option RawStep
step_of [] = none
step_of (c ∷ t) = some (raw_step (determine_shell (c ∷ t)) (clean (c ∷ t)))

abbrev pub maybe_cons : Option RawStep → List RawStep → List RawStep
maybe_cons none ss = ss
maybe_cons (some s) ss = s ∷ ss

unfoldable pub steps_of : List Text → List RawStep
steps_of [] = []
steps_of (part ∷ parts) = maybe_cons (step_of (strip part)) (steps_of parts)

-- `os.path.join` on POSIX, where an absolute path takes the place of what is before it.
abbrev pub join_path : Text → Text → Text
join_path base [] = base ++ codes "/"
join_path base (c ∷ t) = if c == b'/' then c ∷ t else base ++ (b'/' ∷ c ∷ t)

abbrev pub quoted_path : Text → Text
quoted_path path = codes "'" ++ (path ++ codes "'")

module _ (mapper : Tools) where
  unfoldable pub caps_of_steps : List RawStep → Caps → Caps
  unfolding resolve_for_command
  caps_of_steps [] total = total
  caps_of_steps (s ∷ ss) total =
      caps_of_steps ss (union total (resolve_for_command mapper s.command none))

  unfoldable pub parse_raw_pipeline : Text → Text → RawUcer
  unfolding split_pipeline steps_of caps_of_steps is_separator determine_shell clean
  parse_raw_pipeline intent command =
      let steps = steps_of (split_pipeline 0 command) in
      record {
        intent = intent;
        required_capabilities = caps_of_steps steps empty;
        execution_steps = steps;
        rollback_steps = [];
      }

  unfoldable pub build_intent_delete : (backup_dir target : Text) → (is_windows : Bool) → RawUcer
  unfolding resolve_for_command
  build_intent_delete backup_dir target is_windows =
      let saved = quoted_path (join_path backup_dir target) in
      let path = quoted_path target in
      let shell = if is_windows then powershell else bash in
      let del =
        if is_windows
        then codes "Remove-Item -Path " ++ (path ++ codes " -Recurse -Force")
        else codes "rm -rf " ++ path in
      let rb =
        if is_windows
        then codes "Copy-Item -Path " ++ (saved ++ (codes " -Destination " ++ path))
        else codes "cp -r " ++ (saved ++ (codes " " ++ path)) in
      record {
        intent = codes "Delete file/directory: " ++ target;
        required_capabilities = resolve_for_command mapper del none;
        execution_steps = raw_step shell del ∷ [];
        rollback_steps = record (raw_step shell rb) { ignore_errors = true } ∷ [];
      }

abbrev pub powershell_signatures : List Text
powershell_signatures =
    codes "Get-" ∷ codes "Set-" ∷ codes "Invoke-" ∷ codes "Start-" ∷ codes "$env:" ∷ []

abbrev pub bash_signatures : List Text
bash_signatures = codes "ls -" ∷ codes "grep " ∷ codes "sudo " ∷ codes "apt-get" ∷ []

-- `SemanticResolver`, on whether the system is Windows.
abbrev pub preferred_adapter : Bool → Adapter
preferred_adapter is_windows = if is_windows then powershell else bash

unfoldable pub resolve_adapter_for_command : (is_windows : Bool) → Text → Adapter
unfolding contains_any
resolve_adapter_for_command is_windows command =
    if contains_any powershell_signatures command
    then powershell
    else if contains_any bash_signatures command
    then bash
    else preferred_adapter is_windows
