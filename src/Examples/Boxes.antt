-- ===== src/Examples/Boxes.antt =====
-- The sandbox.
use universal_cross_shell_ex.Prelude.{
  List, Bool, ◌≡◌, ◌↔◌, refl, subst, ap, true, false, [], ◌∷◌, some, none, In,
}
use universal_cross_shell_ex.Prelude.Text.{Text, codes, starts_with}
use universal_cross_shell_ex.Prelude.Dict.{same}
use universal_cross_shell_ex.Ucer.{exited}
use universal_cross_shell_ex.Output.{lstrip}
use universal_cross_shell_ex.Sandbox.{
  Handles, Answers, line, idle, died, run, exit_code_of, side_effects,
}
use universal_cross_shell_ex.Sandbox.Effects.{Reported, side_effects_iff}
use universal_cross_shell_ex.Sandbox.Others.{SameFor, run-others}

abbrev handles : Handles
handles = record {
  active_containers = ("e1", "ucser_e1") ∷ ("e2", "ucser_e2") ∷ [];
  workspaces = [];
  processes = ("e1", "ucser_e1") ∷ ("e2", "ucser_e2") ∷ [];
  queues = ("e1", "ucser_e1") ∷ ("e2", "ucser_e2") ∷ [];
}

abbrev marker : Text
marker = codes "__END__"

abbrev diff_lines : List Text
diff_lines = codes "A /tmp/x" ∷ codes "C /proc/1" ∷ []

-- A command that prints one line and whose shell then ends.
abbrev answers : Answers
answers = record {
  started = true;
  opened = true;
  alive = true;
  writable = true;
  ticks = idle ∷ line (codes "out") ∷ died ∷ [];
  exit_line = none;
  diff = some diff_lines;
  errors = [];
  message = [];
}

abbrev Holds : Bool → Type 0
Holds true = Unit
Holds false = ⊥

run-others_test : SameFor "e2" handles (run answers "e1" "ucser_e1" marker handles).1
run-others_test =
    run-others "e1" "e2" (λ q. subst Holds (ap (same "e1") q) tt) answers "ucser_e1" marker handles

side_effects_iff_test :
    let e = side_effects diff_lines in
    (In (codes "/tmp/x") e.files_added ↔ Reported (codes "A") (codes "/tmp/x") diff_lines)
    × (In (codes "/tmp/x") e.files_modified ↔ Reported (codes "C") (codes "/tmp/x") diff_lines)
    × (In (codes "/tmp/x") e.files_deleted ↔ Reported (codes "D") (codes "/tmp/x") diff_lines)
side_effects_iff_test = side_effects_iff diff_lines (codes "/tmp/x")

-- The exit code after the marker, and one that is no number.
exit_code_test : exit_code_of (some (codes "__UCSER_EXIT__:3")) ≡ exited 3
unfolding exit_code_of starts_with lstrip
exit_code_test = refl

effects_test : (side_effects diff_lines).files_added ≡ codes "/tmp/x" ∷ []
unfolding side_effects lstrip
effects_test = refl
