-- ===== src/Sandbox.antt =====
-- core/sandbox.py: `SandboxExecutor`, its handles by execution, the protocol by which it reads the
-- output and the exit code of a command, and the files that `docker diff` reports. Docker, the shell
-- process and the queues of its output are a parameter of each call.
pub mod Protocol
pub mod ExitCodes
pub mod Effects
pub mod Others
use universal_cross_shell_ex.Prelude.{
  ℕ, zero, suc, ◌+◌, ◌*◌, ◌-◌, String, Bool, true, false, not, ◌&&◌, List, [], ◌∷◌, ◌++◌, Option,
  none, some, any, leb, ◌==◌, if◌then◌else◌,
}
use universal_cross_shell_ex.Prelude.Text.{Text, codes, contains, starts_with, text_eq}
use universal_cross_shell_ex.Prelude.Dict.{Dict, lookup, insert, erase, has}
use universal_cross_shell_ex.Ucer.{ExitCode, exited, killed}
use universal_cross_shell_ex.Output.{strip}

-- The maps from executions to containers, workspaces and processes; the queues and the stop event
-- are made and dropped with the process.
pub record Handles : Type 0 where
  pub active_containers : Dict String
  pub workspaces : Dict String
  pub processes : Dict String
  pub queues : Dict String

-- What one wait for a line of output gives: a line, nothing while the process lives, or nothing
-- after it has ended.
pub data Tick : Type 0 where
  line : Text → Tick
  idle died : Tick

-- What Docker and the process answer during a call: whether `docker run` and the start of the shell
-- succeed, whether the shell lives and takes the command, the waits until the time is over, the line
-- after the marker, the lines of `docker diff` (`none`: it raises, and not as a time-out or a
-- `RuntimeError`), the error output, and the text of an exception.
pub record Answers : Type 0 where
  pub started : Bool
  pub opened : Bool
  pub alive : Bool
  pub writable : Bool
  pub ticks : List Tick
  pub exit_line : Option Text
  pub diff : Option (List Text)
  pub errors : Text
  pub message : Text

-- The loop and the lines that it gathered: it left after the marker, after the end of the process,
-- or by the time-out.
pub data Read : Type 0 where
  marked stopped timed_out : List Text → Read

abbrev pub push : Text → Read → Read
push l (marked ls) = marked (l ∷ ls)
push l (stopped ls) = stopped (l ∷ ls)
push l (timed_out ls) = timed_out (l ∷ ls)

unfoldable pub collect : Text → List Tick → Read
unfolding contains
collect marker [] = timed_out []
collect marker (idle ∷ ts) = collect marker ts
collect marker (died ∷ ts) = stopped []
collect marker (line l ∷ ts) =
    let rest = collect marker ts in if contains marker l then marked [] else push l rest

-- The digits of a number, after those that were read.
unfoldable pub digits : ℕ → Text → Option ℕ
digits n [] = some n
digits n (c ∷ t) =
    let rest = digits (n * 10 + (c - b'0')) t in if leb b'0' c && leb c b'9' then rest else none

abbrev pub as_positive : Option ℕ → Option ExitCode
as_positive none = none
as_positive (some n) = some (exited n)

abbrev pub as_negative : Option ℕ → Option ExitCode
as_negative none = none
as_negative (some zero) = some (exited 0)
as_negative (some (suc n)) = some (killed n)

-- `int(s)` on a text that was stripped; `none` is the `ValueError`.
unfoldable pub int_of : Text → Option ExitCode
unfolding digits
int_of [] = none
int_of (c ∷ []) = as_positive (digits 0 (c ∷ []))
int_of (c ∷ d ∷ t) =
    if c == b'-' then as_negative (digits 0 (d ∷ t)) else as_positive (digits 0 (c ∷ d ∷ t))

-- `s.split(":")[1]`: what stands between the first colon and the next.
unfoldable pub until_colon : Text → Text
until_colon [] = []
until_colon (c ∷ t) = let rest = until_colon t in if c == b':' then [] else c ∷ rest

unfoldable pub second_part : Text → Option Text
unfolding until_colon
second_part [] = none
second_part (c ∷ t) = let rest = second_part t in if c == b':' then some (until_colon t) else rest

abbrev pub exit_tag : Text
exit_tag = codes "__UCSER_EXIT__:"

abbrev pub or_zero : Option ExitCode → ExitCode
or_zero none = exited 0
or_zero (some c) = c

abbrev pub read_part : Option Text → Option ExitCode
read_part none = none
read_part (some p) = int_of (strip p)

-- The exit code after the marker; whatever goes wrong leaves 0.
unfoldable pub exit_code_of : Option Text → ExitCode
unfolding contains int_of second_part strip
exit_code_of none = exited 0
exit_code_of (some l) =
    if contains exit_tag l then or_zero (read_part (second_part l)) else exited 0

pub record SideEffects : Type 0 where
  pub files_added : List Text
  pub files_modified : List Text
  pub files_deleted : List Text

abbrev pub ignored_prefixes : List Text
ignored_prefixes =
    codes "/proc"
    ∷ codes "/sys"
    ∷ codes "/dev"
    ∷ codes "/.dockerenv"
    ∷ codes "/etc/hostname"
    ∷ codes "/etc/hosts"
    ∷ codes "/etc/resolv.conf"
    ∷ codes "/run"
    ∷ codes "/root/.bash_history"
    ∷ codes "/root/.ash_history"
    ∷ []

unfoldable pub is_ignored : Text → Bool
unfolding starts_with
is_ignored path = any (λ prefix. starts_with prefix path) ignored_prefixes

abbrev pub before_space : ℕ → Option (Text × Text) → Option (Text × Text)
before_space c none = none
before_space c (some (a, b)) = some (c ∷ a, b)

-- `line.split(" ", 1)`, where there are two parts.
unfoldable pub split_space : Text → Option (Text × Text)
split_space [] = none
split_space (c ∷ t) =
    let rest = before_space c (split_space t) in if c == b' ' then some ([], t) else rest

abbrev pub no_effects : SideEffects
no_effects = record { files_added = []; files_modified = []; files_deleted = [] }

abbrev pub add_effect : Text → Text → SideEffects → SideEffects
add_effect code path e =
    if text_eq code (codes "A")
    then record e { files_added = path ∷ e.files_added }
    else if text_eq code (codes "C")
    then record e { files_modified = path ∷ e.files_modified }
    else if text_eq code (codes "D")
    then record e { files_deleted = path ∷ e.files_deleted }
    else e

abbrev pub add_parts : Option (Text × Text) → SideEffects → SideEffects
add_parts none e = e
add_parts (some (code, path)) e = if is_ignored path then e else add_effect code path e

abbrev pub is_blank : Text → Bool
is_blank l = text_eq (strip l) []

-- The loop over the lines of `docker diff`.
unfoldable pub side_effects : List Text → SideEffects
unfolding split_space is_ignored text_eq strip
side_effects [] = no_effects
side_effects (l ∷ ls) =
    let rest = side_effects ls in if is_blank l then rest else add_parts (split_space l) rest

pub record Answer : Type 0 where
  pub stdout : Text
  pub stderr : Text
  pub exit_code : ExitCode
  pub effects : SideEffects

-- `"".join(lines)`
abbrev pub joined : List Text → Text
joined [] = []
joined (l ∷ ls) = l ++ joined ls

abbrev pub answer : Answers → List Text → ExitCode → (diff : List Text) → Answer
answer w ls code diff = record {
  stdout = strip (joined ls);
  stderr = strip w.errors;
  exit_code = code;
  effects = side_effects diff;
}

-- The answer of the `except`.
abbrev pub failure : Answers → List Text → Answer
failure w ls = record {
  stdout = strip (joined ls);
  stderr = strip (w.errors ++ codes "[Sandbox Error] " ++ w.message);
  exit_code = killed 0;
  effects = no_effects;
}

-- `_get_or_start_container`; `false` is an exception, which leaves what was registered before.
unfoldable pub get_or_start : Answers → (exec_id name : String) → Handles → Bool × Handles
unfolding has insert
get_or_start w exec_id name h =
    let h1 = record h { workspaces = insert exec_id exec_id h.workspaces } in
    let h2 = record h1 { active_containers = insert exec_id name h1.active_containers } in
    let h3 = record h2 {
      processes = insert exec_id name h2.processes;
      queues = insert exec_id name h2.queues;
    } in
    if has exec_id h.active_containers
    then (true, h)
    else if not w.started
    then (false, h1)
    else if not w.opened
    then (false, h2)
    else (true, h3)

-- `cleanup`
unfoldable pub cleanup : String → Handles → Handles
unfolding erase
cleanup exec_id h = record {
  active_containers = erase exec_id h.active_containers;
  workspaces = erase exec_id h.workspaces;
  processes = erase exec_id h.processes;
  queues = erase exec_id h.queues;
}

-- Without the lines of `docker diff` the `except` answers, and nothing is cleaned up.
abbrev pub after_diff : Answers → List Text → ExitCode → Option (List Text) → Answer
after_diff w ls code none = failure w ls
after_diff w ls code (some diff) = answer w ls code diff

abbrev pub after_read : Answers → String → Handles → Read → Option Answer × Handles
after_read w exec_id h (marked ls) = (some (after_diff w ls (exit_code_of w.exit_line) w.diff), h)
after_read w exec_id h (stopped ls) = (some (after_diff w ls (exited 0) w.diff), h)
after_read w exec_id h (timed_out ls) = (some (failure w ls), cleanup exec_id h)

-- The `try` and its `except`: a write that fails is an `OSError`, after which nothing is cleaned up.
unfoldable pub attempt : Answers → String → Text → Handles → Option Answer × Handles
unfolding collect exit_code_of side_effects cleanup
attempt w exec_id marker h =
    if not w.alive
    then (some (failure w []), cleanup exec_id h)
    else if not w.writable
    then (some (failure w []), h)
    else after_read w exec_id h (collect marker w.ticks)

abbrev pub when_started : Answers → String → Text → Bool × Handles → Option Answer × Handles
when_started w exec_id marker (false, h) = (none, h)
when_started w exec_id marker (true, h) =
    if has exec_id h.processes then attempt w exec_id marker h else (none, h)

-- `run`; `none` is an exception that leaves it.
unfoldable pub run : Answers → (exec_id name : String) → Text → Handles → Option Answer × Handles
unfolding get_or_start attempt
run w exec_id name marker h = when_started w exec_id marker (get_or_start w exec_id name h)
