-- ===== src/Pipeline/Prefix.antt =====
-- `UniversalExecutorFacade.execute` of core/executor.py: the prefix of a command names its shell.
use universal_cross_shell_ex.Prelude.{
  ℕ, String, List, [], ◌∷◌, Option, none, some, if◌then◌else◌, ◌==◌,
}
use universal_cross_shell_ex.Prelude.Text.{Text, codes, text_eq}
use universal_cross_shell_ex.Prelude.Result.{Result, ok, err}
use universal_cross_shell_ex.Prelude.Sets.{empty}
use universal_cross_shell_ex.Types.{caps_of, exec}
use universal_cross_shell_ex.Ucer.{Adapter, bash, powershell, ps, pending, ExecutionTrace, Ucer}
use universal_cross_shell_ex.Pipeline.Monad.{Error, Log, World, Run}
use universal_cross_shell_ex.Pipeline.Stages.{new_context, execute_ucer}

abbrev cons_first : ℕ → Option (Text × Text) → Option (Text × Text)
cons_first c none = none
cons_first c (some (a, b)) = some (c ∷ a, b)

-- `command.split(":", 1)`, where there is a colon.
unfoldable pub split_colon : Text → Option (Text × Text)
split_colon [] = none
split_colon (c ∷ t) =
    let rest = cons_first c (split_colon t) in if c == b':' then some ([], t) else rest

-- The prefixes that are read, and the shells that they name.
abbrev pub shell_named : Text → Option Adapter
shell_named name =
    if text_eq name (codes "ps")
    then some ps
    else if text_eq name (codes "powershell")
    then some powershell
    else if text_eq name (codes "bash")
    then some bash
    else none

abbrev pub with_shell : Text → Option Adapter → Text → Adapter × Text
with_shell command none rest = (bash, command)
with_shell command (some a) rest = (a, rest)

abbrev pub of_parts : Text → Option (Text × Text) → Adapter × Text
of_parts command none = (bash, command)
of_parts command (some (name, rest)) = with_shell command (shell_named name) rest

unfoldable pub parse_command : Text → Adapter × Text
unfolding split_colon text_eq
parse_command command = of_parts command (split_colon command)

-- What the generator yields for the traces: their output that is not empty.
pub data Chunk : Type 0 where
  out errors : Text → Chunk

abbrev pub chunk_if : (Text → Chunk) → Text → List Chunk → List Chunk
chunk_if f [] rest = rest
chunk_if f (c ∷ t) rest = f (c ∷ t) ∷ rest

unfoldable pub chunks_of : List ExecutionTrace → List Chunk
chunks_of [] = []
chunks_of (t ∷ ts) = chunk_if out t.stdout (chunk_if errors t.stderr (chunks_of ts))

module _ (w : World) where
  -- The record of one step that `execute` makes.
  abbrev pub command_ucer : Adapter × Text → Log → Ucer
  command_ucer (shell, cmd) log = record {
    command_id = w.fresh_id log;
    timestamp = w.clock log;
    intent = "synchronous_exec";
    steps =
        record {
          step_id = w.fresh_id log;
          adapter = shell;
          command = cmd;
          expected_state_changes = none;
        }
        ∷ [];
    traces = [];
    required_capabilities = empty;
    state_hash = none;
    status = pending;
    canonical_hash = none;
    control_signature = none;
    execution_signature = none;
    execution_pub_key = none;
  }

  abbrev pub yielded : Result Error (Unit {0}) × Run → Result Error (List Chunk) × Log
  yielded (ok _, r) = (ok (chunks_of r.ucer.traces), r.log)
  yielded (err e, r) = (err e, r.log)

  unfoldable pub execute : String → Text → Log → Result Error (List Chunk) × Log
  unfolding parse_command chunks_of execute_ucer caps_of
  execute private_key command log = yielded (
      execute_ucer w private_key (some (new_context w (caps_of (exec ∷ [])) log)) none
        (record { ucer = command_ucer (parse_command command) log; log = log }))
