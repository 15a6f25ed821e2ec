-- ===== src/Agent.antt =====
-- api/mcp_server.py and cli/sder_cli.py: the tools that an agent calls and the commands of a user.
-- Both compile an intent and run the record in one context. The protocol and the parser of the
-- command line are left out; a line that is printed is a value.
pub mod Grants
pub mod Confined
use Prim.Native.String.{◌++◌ as concat}
use universal_cross_shell_ex.Prelude.{
  ℕ, String, Bool, true, false, List, [], ◌∷◌, ◌++◌, Option, none, some, if◌then◌else◌,
}
use universal_cross_shell_ex.Prelude.Text.{Text, codes}
use universal_cross_shell_ex.Prelude.Dict.{Dict, same, lookup}
use universal_cross_shell_ex.Prelude.Sets.{empty, insert}
use universal_cross_shell_ex.Prelude.Result.{Result, ok, err}
use universal_cross_shell_ex.Types.{
  Capability, Caps, caps_of, exec, fs_read, value, capabilities, Capability-discrete,
  ExecutionContext,
}
use universal_cross_shell_ex.Ucer.{pending, ExecutionTrace, Ucer}
use universal_cross_shell_ex.Policy.{Tools}
use universal_cross_shell_ex.Pipeline.{Error, Log, RunResult, World, Run, execute_ucer, new_context}
use universal_cross_shell_ex.Pipeline.Replay.{Snapshots, ReplayError, Replayed, replay}
use universal_cross_shell_ex.Semantic.{Draft, Refused, compile}
use universal_cross_shell_ex.Server.Tasks.{new_ucer, status_text}

pub data Problem : Type 0 where
  no_arguments : Problem
  missing_argument unknown_tool : String → Problem
  unknown_capability : Problem
  not_compiled : Refused → Problem
  not_run : Error → Problem
  not_replayed : ReplayError → Problem
  not_dispatched : Problem

-- Everything that the two entry points call: the executor's world, the compiler's auditors and
-- client, the stored records and the queue.
pub record Deployment : Type 0 where
  pub world : World
  pub private_key : String
  pub mapper : Tools
  pub gate : Tools
  pub draft : ℕ → String → Draft
  pub duration_ms : RunResult → ℕ
  pub snapshots : Snapshots
  pub stored : Log → String → Option Ucer
  pub listed : Log → List Ucer
  pub dispatch : Log → Ucer → ExecutionContext → Option ℕ

abbrev pub output_of : Text → Text → List Text
output_of label [] = []
output_of label (c ∷ cs) = (label ++ (c ∷ cs)) ∷ []

-- The loop over the traces.
abbrev pub outputs : List ExecutionTrace → List Text
outputs [] = []
outputs (t ∷ ts) =
    output_of (codes "[stdout] ") t.stdout ++ (output_of (codes "[stderr] ") t.stderr ++ outputs ts)

-- `"\\n".join(lines)`
abbrev pub join_lines : List Text → Text
join_lines [] = []
join_lines (l ∷ []) = l
join_lines (l ∷ k ∷ ls) = l ++ (10 ∷ join_lines (k ∷ ls))

abbrev pub response_text : Ucer → Text
response_text u =
    codes "Executed UCER "
    ++ (codes u.command_id
        ++ (codes ". Status: "
            ++ (status_text u.status ++ (10 ∷ 10 ∷ join_lines (outputs u.traces)))))

module _ (d : Deployment) where
  abbrev pub tool_context : Log → ExecutionContext
  tool_context log = new_context d.world (caps_of (exec ∷ fs_read ∷ [])) log

  abbrev pub run_compiled : ExecutionContext → Log → Result Refused Ucer → Result Problem Ucer × Log
  run_compiled ctx log (err e) = (err (not_compiled e), log)
  run_compiled ctx log (ok u) =
      let (x, r) =
        execute_ucer d.world d.private_key (some ctx) none (record { ucer = u; log = log }) in
      (elim x [ ok _ ↦ ok r.ucer | err e ↦ err (not_run e) ], r.log)

  -- An intent is compiled and its record run, both in one context.
  unfoldable pub compile_and_run : ExecutionContext → String → Log → Result Problem Ucer × Log
  unfolding compile execute_ucer
  compile_and_run ctx intent log = run_compiled ctx log (compile d.mapper d.gate d.draft ctx intent)

  abbrev pub blank : String → Log → Run
  blank id log = record { ucer = new_ucer id 0 "" [] pending; log = log }

  abbrev pub replayed : Result ReplayError (Unit {0}) × Replayed → Result Problem Ucer × Log
  replayed (ok _, r) = (ok r.run.ucer, r.run.log)
  replayed (err e, r) = (err (not_replayed e), r.run.log)

  unfoldable pub replay_stored : String → Log → Result Problem Ucer × Log
  unfolding replay
  replay_stored id log =
      replayed (replay d.world d.duration_ms d.snapshots none (blank id log) (d.stored log id))

  abbrev pub answered : (Ucer → Text) → Result Problem Ucer × Log → Result Problem Text × Log
  answered text (ok u, log) = (ok (text u), log)
  answered text (err e, log) = (err e, log)

  -- `arguments[key]`
  abbrev pub with_argument :
      String
      → Option String
      → Log
      → (String → Result Problem Text × Log)
      → Result Problem Text × Log
  with_argument key none log k = (err (missing_argument key), log)
  with_argument key (some v) log k = k v

  abbrev pub execute_intent : Dict String → Log → Result Problem Text × Log
  execute_intent arguments log =
      with_argument "intent" (lookup "intent" arguments) log
        λ intent. answered response_text (compile_and_run (tool_context log) intent log)

  abbrev pub replay_execution : Dict String → Log → Result Problem Text × Log
  replay_execution arguments log = with_argument "ucer_id" (lookup "ucer_id" arguments) log λ id.
      answered (λ u. codes "Replayed UCER " ++ (codes id ++ codes ". PARITY VERIFIED."))
        (replay_stored id log)

  unfoldable pub handle_call_tool :
      (name : String) → (arguments : Option (Dict String)) → Log → Result Problem Text × Log
  unfolding compile_and_run replay_stored
  handle_call_tool name none log = (err no_arguments, log)
  handle_call_tool name (some []) log = (err no_arguments, log)
  handle_call_tool name (some (a ∷ arguments)) log =
      if same name "execute_intent"
      then execute_intent (a ∷ arguments) log
      else if same name "replay_execution"
      then replay_execution (a ∷ arguments) log
      else (err (unknown_tool name), log)

-- `Capability(s)`
abbrev pub named : String → List Capability → Option Capability
named s [] = none
named s (c ∷ cs) = if same (value c) s then some c else named s cs

abbrev pub add_named : Option Capability → Option Caps → Option Caps
add_named (some c) (some s) = some (insert Capability-discrete c s)
add_named _ _ = none

abbrev pub parse_caps : List String → Option Caps
parse_caps [] = some empty
parse_caps (s ∷ ss) = add_named (named s capabilities) (parse_caps ss)

-- What the parser of the command line gives.
pub data Command : Type 0 where
  exec_intent : (intent : String) → (is_local : Bool) → (caps : List String) → Command
  replay_ucer : (ucer_id : String) → Command
  list_records : Command

-- What is printed.
pub data Line : Type 0 where
  compiling replaying : String → Line
  executing dispatching : Line
  shown : Ucer → Line
  dispatched : ℕ → Line
  records : List Ucer → Line
  failed_with : Problem → Line

module _ (d : Deployment) where
  -- `{…} if args.caps else {EXEC, FS_READ}`
  abbrev pub chosen_caps : List String → Option Caps
  chosen_caps [] = some (caps_of (exec ∷ fs_read ∷ []))
  chosen_caps (c ∷ cs) = parse_caps (c ∷ cs)

  abbrev pub shown_result : List Line → Result Problem Ucer × Log → List Line × Log
  shown_result before (ok u, log) = (before ++ (shown u ∷ []), log)
  shown_result before (err e, log) = (before ++ (failed_with e ∷ []), log)

  abbrev pub dispatch_result : List Line → Log → Option ℕ → List Line × Log
  dispatch_result before log none = (before ++ (failed_with not_dispatched ∷ []), log)
  dispatch_result before log (some seq) = (before ++ (dispatched seq ∷ []), log)

  abbrev pub run_local : ExecutionContext → String → Log → Ucer → List Line × Log
  run_local ctx intent log u =
      shown_result (compiling intent ∷ executing ∷ []) (run_compiled d ctx log (ok u))

  abbrev pub on_compiled :
      ExecutionContext → String → Bool → Log → Result Refused Ucer → List Line × Log
  on_compiled ctx intent is_local log (err e) =
      (compiling intent ∷ failed_with (not_compiled e) ∷ [], log)
  on_compiled ctx intent is_local log (ok u) =
      if is_local
      then run_local ctx intent log u
      else dispatch_result (compiling intent ∷ dispatching ∷ []) log (d.dispatch log u ctx)

  abbrev pub with_caps : String → Bool → Log → Option Caps → List Line × Log
  with_caps intent is_local log none = (failed_with unknown_capability ∷ [], log)
  with_caps intent is_local log (some caps) =
      let ctx = new_context d.world caps log in
      on_compiled ctx intent is_local log (compile d.mapper d.gate d.draft ctx intent)

  -- `run_cli`, after the arguments are parsed.
  unfoldable pub run_cli : Command → Log → List Line × Log
  unfolding compile execute_ucer replay_stored Capability-discrete
  run_cli (exec_intent intent is_local caps) log = with_caps intent is_local log (chosen_caps caps)
  run_cli (replay_ucer id) log = shown_result (replaying id ∷ []) (replay_stored d id log)
  run_cli list_records log = (records (d.listed log) ∷ [], log)
