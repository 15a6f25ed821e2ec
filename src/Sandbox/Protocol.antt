-- ===== src/Sandbox/Protocol.antt =====
-- What a command that was sent to the shell is reported to have done.
use universal_cross_shell_ex.Prelude.{
  String, ◌≡◌, true, false, List, [], ◌∷◌, ◌++◌, Option, some, none,
}
use universal_cross_shell_ex.Prelude.Text.{Text, codes, contains}
use universal_cross_shell_ex.Prelude.Dict.{Dict, has}
use universal_cross_shell_ex.Ucer.{ExitCode, exited, killed}
use universal_cross_shell_ex.Output.{strip}
use universal_cross_shell_ex.Sandbox.{
  Handles, Answer, Tick, line, idle, died, Answers, Read, push, exit_code_of, side_effects, joined,
}

-- The exit code -1.
abbrev pub as_negative_one : ExitCode
as_negative_one = killed 0

-- Lines of output, each after any number of waits for nothing, and then what follows.
pub data Printed (marker : Text) : List Text → List Tick → List Tick → Type 0 where
  over : {ts : List Tick} → Printed marker [] ts ts
  waited :
      {ls : List Text} {ts rest : List Tick}
      → Printed marker ls ts rest
      → Printed marker ls (idle ∷ ts) rest
  printed :
      {l : Text} {ls : List Text} {ts rest : List Tick}
      → contains marker l ≡ false
      → Printed marker ls ts rest
      → Printed marker (l ∷ ls) (line l ∷ ts) rest

abbrev push_all : List Text → Read → Read
push_all [] r = r
push_all (l ∷ ls) r = push l (push_all ls r)

-- How a command can end: by the marker, by the end of the shell, or not before the time-out.
pub data Ended (marker : Text) : List Tick → Type 0 where
  by_marker : {m : Text} {ts : List Tick} → contains marker m ≡ true → Ended marker (line m ∷ ts)
  by_death : {ts : List Tick} → Ended marker (died ∷ ts)
  by_timeout : Ended marker []

-- The answer to a command that went well, if `docker diff` gives its lines, and the one of an error.
abbrev pub Told : Answers → List Text → ExitCode → Option (List Text) → Answer → Type 0
Told w ls code (some diff) a =
    (a.stdout ≡ strip (joined ls))
    × (a.stderr ≡ strip w.errors)
    × (a.exit_code ≡ code)
    × (a.effects ≡ side_effects diff)
Told w ls code none a =
    (a.stdout ≡ strip (joined ls))
    × (a.stderr ≡ strip (w.errors ++ codes "[Sandbox Error] " ++ w.message))
    × (a.exit_code ≡ as_negative_one)
    × (a.effects ≡ record { files_added = []; files_modified = []; files_deleted = [] })

-- What is then reported, of the lines that were printed before.
abbrev pub Reported :
    {marker : Text} {ts : List Tick}
    → Ended marker ts
    → Answers
    → List Text
    → String
    → (before after : Handles) → Answer
    → Type 0
Reported (by_marker m) w ls exec_id before after a =
    Told w ls (exit_code_of w.exit_line) w.diff a × (after ≡ before)
Reported by_death w ls exec_id before after a = Told w ls (exited 0) w.diff a × (after ≡ before)
Reported by_timeout w ls exec_id before after a =
    Told w ls as_negative_one none a
    × (has exec_id after.active_containers ≡ false)
    × (has exec_id after.workspaces ≡ false)
    × (has exec_id after.processes ≡ false)
    × (has exec_id after.queues ≡ false)
