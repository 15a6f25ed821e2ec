-- ===== src/Semantic/Pipelines.antt =====
-- A pipeline that is printed and stage_step.
use universal_cross_shell_ex.Prelude.{
  ℕ, ◌≡◌, refl, ap, sym, ◌∙◌, true, false, List, [], ◌∷◌, ◌++◌, All, ◌==◌, some, map, subst,
}
use mathlib.Core.List.{append_assoc, append-nil}
use universal_cross_shell_ex.Prelude.Text.{Text, codes, starts_with}
use universal_cross_shell_ex.Ucer.{Adapter, bash, powershell, python}
use universal_cross_shell_ex.Output.{strip}
use universal_cross_shell_ex.Semantic.Parser.{
  RawStep, raw_step, is_separator, to_first, split_pipeline, steps_of, step_of, maybe_cons, clean,
  determine_shell, parse_raw_pipeline, build_intent_delete, quoted_path,
}
use universal_cross_shell_ex.Policy.{Tools}

-- The shells that a prefix names.
pub data Shell : Type 0 where
  on_bash on_powershell on_python : Shell

abbrev pub prefix : Shell → Text
prefix on_bash = codes "bash:"
prefix on_powershell = codes "ps:"
prefix on_python = codes "python:"

abbrev pub adapter : Shell → Adapter
adapter on_bash = bash
adapter on_powershell = powershell
adapter on_python = python

pub record Stage : Type 0 where
  pub shell : Shell
  pub command : Text

abbrev pub shown : Stage → Text
shown s = prefix s.shell ++ s.command

-- The stages with a bar and a blank between them.
abbrev pub print_stages : List Stage → Text
print_stages [] = []
print_stages (s ∷ []) = shown s
print_stages (s ∷ t ∷ ss) = shown s ++ (124 ∷ 32 ∷ print_stages (t ∷ ss))

abbrev pub stage_step : Stage → RawStep
stage_step s = raw_step (adapter s.shell) s.command

abbrev first_empty : List Text → List Text
first_empty [] = [] ∷ []
first_empty (p ∷ ps) = p ∷ ps

-- No bar in the command, and no white space around it.
pub record IsPlain (s : Stage) : Type 0 where
  pub no_bar : All (λ c. (c == 124) ≡ false) s.command
  pub stripped : strip s.command ≡ s.command
  pub whole : strip (shown s) ≡ shown s

-- A text without a bar goes to the first part.
abbrev to_first_all : Text → List Text → List Text
to_first_all [] ps = ps
to_first_all (c ∷ t) ps = to_first c (to_first_all t ps)

is_separator-plain : (c : ℕ) (t : Text) → (c == 124) ≡ false → is_separator c t ≡ false
unfolding is_separator
is_separator-plain c t h = rw h

split-step :
    (c : ℕ) (t : Text)
    → is_separator c t ≡ false
    → split_pipeline 0 (c ∷ t) ≡ to_first c (split_pipeline 0 t)
unfolding split_pipeline
split-step c t h = rw (h, split_pipeline)

split-plain :
    (t rest : Text)
    → All (λ c. (c == 124) ≡ false) t
    → split_pipeline 0 (t ++ rest) ≡ to_first_all t (split_pipeline 0 rest)
split-plain [] rest h = refl
split-plain (c ∷ t) rest h =
    split-step c (t ++ rest) (is_separator-plain c (t ++ rest) h.0)
    ∙ ap (to_first c) (split-plain t rest h.1)

to_first_all-cons : (t p : Text) (ps : List Text) → to_first_all t (p ∷ ps) ≡ (t ++ p) ∷ ps
to_first_all-cons [] p ps = refl
to_first_all-cons (c ∷ t) p ps = rw (to_first_all-cons t p ps)

prefix-plain :
    (sh : Shell) (cmd : Text)
    → All (λ c. (c == 124) ≡ false) cmd
    → All (λ c. (c == 124) ≡ false) (prefix sh ++ cmd)
prefix-plain on_bash cmd h = (refl, (refl, (refl, (refl, (refl, h)))))
prefix-plain on_powershell cmd h = (refl, (refl, (refl, h)))
prefix-plain on_python cmd h = (refl, (refl, (refl, (refl, (refl, (refl, (refl, h)))))))

-- The separator before a stage.
split-bar :
    (sh : Shell) (rest : Text)
    → split_pipeline 0 (124 ∷ 32 ∷ (prefix sh ++ rest)) ≡ [] ∷ split_pipeline 0 (prefix sh ++ rest)
unfolding split_pipeline is_separator starts_with
split-bar on_bash rest = refl
split-bar on_powershell rest = refl
split-bar on_python rest = refl

step_of-shown :
    (sh : Shell) (cmd : Text)
    → strip cmd ≡ cmd
    → step_of (prefix sh ++ cmd) ≡ some (raw_step (adapter sh) cmd)
unfolding determine_shell clean starts_with
step_of-shown on_bash cmd h = rw h
step_of-shown on_powershell cmd h = rw h
step_of-shown on_python cmd h = rw h

split-one : (t : Text) → All (λ c. (c == 124) ≡ false) t → split_pipeline 0 t ≡ t ∷ []
unfolding split_pipeline
split-one t h =
    ap (split_pipeline 0) (sym (append-nil t))
    ∙ (split-plain t [] h ∙ (to_first_all-cons t [] [] ∙ ap (λ x. x ∷ []) (append-nil t)))

-- A printed pipeline begins with the prefix of its first stage.
print-head :
    (s : Stage) (ss : List Stage) → (rest : Text) × (print_stages (s ∷ ss) ≡ prefix s.shell ++ rest)
print-head s [] = (s.command, refl)
print-head s (t ∷ ss) =
    let tail : Text = 124 ∷ 32 ∷ print_stages (t ∷ ss) in
    (s.command ++ tail, append_assoc (prefix s.shell) s.command tail)

split-next :
    (s : Stage) (ss : List Stage)
    → split_pipeline 0 (124 ∷ 32 ∷ print_stages (s ∷ ss))
      ≡ [] ∷ split_pipeline 0 (print_stages (s ∷ ss))
split-next s ss =
    let (rest, e) = print-head s ss in
    subst (λ x. split_pipeline 0 (124 ∷ 32 ∷ x) ≡ [] ∷ split_pipeline 0 x) (sym e)
      (split-bar s.shell rest)

split-print :
    (ss : List Stage)
    → All IsPlain ss
    → split_pipeline 0 (print_stages ss) ≡ first_empty (map shown ss)
unfolding split_pipeline
split-print [] h = refl
split-print (s ∷ []) h = split-one (shown s) (prefix-plain s.shell s.command h.0.no_bar)
split-print (s ∷ t ∷ ss) h =
    let rest = map shown (t ∷ ss) in
    split-plain (shown s) (124 ∷ 32 ∷ print_stages (t ∷ ss))
      (prefix-plain s.shell s.command h.0.no_bar)
    ∙ (ap (to_first_all (shown s)) (split-next t ss ∙ ap (λ x. [] ∷ x) (split-print (t ∷ ss) h.1))
        ∙ (to_first_all-cons (shown s) [] rest ∙ ap (λ x. x ∷ rest) (append-nil (shown s))))

steps_of-shown : (ss : List Stage) → All IsPlain ss → steps_of (map shown ss) ≡ map stage_step ss
unfolding steps_of
steps_of-shown [] h = refl
steps_of-shown (s ∷ ss) h =
    ap (λ x. maybe_cons (step_of x) (steps_of (map shown ss))) h.0.whole
    ∙ (ap (λ x. maybe_cons x (steps_of (map shown ss)))
          (step_of-shown s.shell s.command h.0.stripped)
        ∙ ap (λ x. stage_step s ∷ x) (steps_of-shown ss h.1))

steps_of-first_empty : (ps : List Text) → steps_of (first_empty ps) ≡ steps_of ps
unfolding steps_of strip
steps_of-first_empty [] = refl
steps_of-first_empty (p ∷ ps) = refl

-- The steps of a printed pipeline are its stages, in order, each with its shell and its command: for
-- commands with no bar in them and no white space around them.
pub parse_raw_pipeline-print_stages :
    (mapper : Tools) (intent : Text) (ss : List Stage)
    → All IsPlain ss
    → (parse_raw_pipeline mapper intent (print_stages ss)).execution_steps ≡ map stage_step ss
unfolding parse_raw_pipeline
parse_raw_pipeline-print_stages mapper intent ss h =
    ap steps_of (split-print ss h) ∙ (steps_of-first_empty (map shown ss) ∙ steps_of-shown ss h)

-- On POSIX the rollback of the deletion of an absolute path copies the path onto itself: the directory
-- of the backups does not stand in the command.
pub build_intent_delete-absolute :
    (mapper : Tools) (backup_dir : Text) (path : Text)
    → (build_intent_delete mapper backup_dir (b'/' ∷ path) false).rollback_steps
      ≡ (record (raw_step bash (
          codes "cp -r "
          ++ (quoted_path (b'/' ∷ path) ++ (codes " " ++ quoted_path (b'/' ∷ path))))) {
            ignore_errors = true;
          })
        ∷ []
unfolding build_intent_delete
build_intent_delete-absolute mapper backup_dir path = refl
