-- ===== src/Engine.antt =====
-- engine/state_manager.py and engine/manager.py: the snapshot of a directory by hard links, and the
-- manager that runs steps and rolls back. A file is a path with an inode; the contents belong to the
-- inodes, so that two paths can share them. What a command does to the disk is a parameter.
pub mod Rollback
pub mod Mutation
use universal_cross_shell_ex.Prelude.{
  ℕ, zero, suc, String, Bool, true, false, List, [], ◌∷◌, Option, none, some, all, any,
  if◌then◌else◌, ◌==◌,
}
use universal_cross_shell_ex.Prelude.Text.{Text}
use universal_cross_shell_ex.Prelude.Dict.{Dict, lookup, same}
use universal_cross_shell_ex.Prelude.Result.{Result, ok, err}
use universal_cross_shell_ex.Types.{caps_of, exec, ExecutionContext}
use universal_cross_shell_ex.Ucer.{ExitCode}
use universal_cross_shell_ex.Policy.{Denied, Verdict, requires}

-- The paths below the working directory and below the backup, each with its inode.
pub record Disk : Type 0 where
  pub root : Dict ℕ
  pub backup : Option (Dict ℕ)
  pub contents : ℕ → Text
  pub next_inode : ℕ
  pub environ : Dict String

-- `FastHardlinkSnapshot.capture` on Linux: an old backup is removed, and `cp -al` links the files.
unfoldable pub capture : Disk → Disk
capture d = record d { backup = some d.root }

abbrev pub write_inode : ℕ → Text → (ℕ → Text) → ℕ → Text
write_inode i t contents j = if j == i then t else contents j

pub record Copied : Type 0 where
  pub files : Dict ℕ
  pub contents : ℕ → Text
  pub next_inode : ℕ

abbrev pub add_file : String → ℕ → Copied → Copied
add_file path inode c = record c { files = (path, inode) ∷ c.files }

-- `shutil.copytree`: each file is written to a new inode.
unfoldable pub copytree : Dict ℕ → (ℕ → Text) → ℕ → Copied
copytree [] contents next = record { files = []; contents = contents; next_inode = next }
copytree ((path, i) ∷ rest) contents next =
    add_file path next (copytree rest (write_inode next (contents i) contents) (suc next))

abbrev pub with_files : Disk → Copied → Disk
with_files d c = record d { root = c.files; contents = c.contents; next_inode = c.next_inode }

abbrev pub restored_files : Option (Dict ℕ) → Disk → Disk
restored_files none d = d
restored_files (some files) d = with_files d (copytree files d.contents d.next_inode)

-- `FastHardlinkSnapshot.restore`, with the environment of the snapshot.
unfoldable pub restore : (env_snapshot : Dict String) → Disk → Disk
unfolding copytree
restore env_snapshot d = record (restored_files d.backup d) { environ = env_snapshot }

unfoldable pub cleanup : Disk → Disk
cleanup d = record d { backup = none }

pub record ExecutionResult : Type 0 where
  pub command_id : String
  pub adapter : String
  pub success : Bool
  pub stdout : Text
  pub stderr : Text
  pub exit_code : ExitCode

pub record Step : Type 0 where
  pub step_id : String
  pub adapter : String
  pub command : Text

-- What leaves `execute_ucer` as an exception.
pub data Fault : Type 0 where
  denied : Denied → Fault
  capture_failed unsupported type_error : Fault

-- `cp` succeeds; `run_subprocess` answers and changes the disk.
pub record Machine : Type 0 where
  pub cp : Disk → Bool
  pub run_subprocess : String → String → Text → Disk → ExecutionResult × Disk

-- `self.adapters`
abbrev pub adapters : List String
adapters = "powershell" ∷ "bash" ∷ "python" ∷ []

-- The parameters of `execute` of each of the adapters, and the keyword of the manager's call.
abbrev pub execute_parameters : List String
execute_parameters = "command_id" ∷ "command" ∷ "timeout" ∷ []

abbrev pub call_keywords : List String
call_keywords = "cwd" ∷ []

abbrev pub is_member : List String → String → Bool
is_member xs x = any (same x) xs

module _ (m : Machine) where
  -- `adapter.execute(command_id, command, cwd=…)`: an unknown keyword is a `TypeError`.
  unfoldable pub execute_adapter : String → Step → Disk → Result Fault ExecutionResult × Disk
  execute_adapter command_id s d =
      let (x, d') = m.run_subprocess command_id s.adapter s.command d in
      if all (is_member execute_parameters) call_keywords then (ok x, d') else (err type_error, d)

  unfoldable pub run_step : String → Step → Disk → Result Fault ExecutionResult × Disk
  unfolding execute_adapter
  run_step command_id s d =
      if is_member adapters s.adapter then execute_adapter command_id s d else (err unsupported, d)

  abbrev pub Outcome : Type 0
  Outcome = Result Fault (List ExecutionResult) × Disk

  abbrev pub push : ExecutionResult → Outcome → Outcome
  push x (ok xs, d) = (ok (x ∷ xs), d)
  push x (err e, d) = (err e, d)

  -- What follows a step: a result that is no success restores the snapshot and leaves the loop.
  abbrev pub after_step :
      Dict String → Result Fault ExecutionResult × Disk → (Disk → Outcome) → Outcome
  after_step env (err e, d) rest = (err e, d)
  after_step env (ok x, d) rest =
      if x.success then push x (rest d) else (ok (x ∷ []), restore env d)

  -- The loop.
  unfoldable pub run_steps : Dict String → String → List Step → Disk → Outcome
  unfolding run_step restore
  run_steps env command_id [] d = (ok [], d)
  run_steps env command_id (s ∷ ss) d =
      after_step env (run_step command_id s d) (run_steps env command_id ss)

  -- The end of the `try`, and its `except`.
  unfoldable pub settle : Dict String → Outcome → Outcome
  unfolding restore cleanup
  settle env (ok xs, d) = (ok xs, if all (λ x. x.success) xs then cleanup d else d)
  settle env (err e, d) = (err e, restore env d)

  abbrev pub transact : String → List Step → Disk → Outcome
  transact command_id ss d = settle d.environ (run_steps d.environ command_id ss (capture d))

  abbrev pub granted : Verdict → Outcome → Disk → Outcome
  granted (ok _) done d = done
  granted (err e) done d = (err (denied e), d)

  -- `ExecutionManager.execute_ucer`
  unfoldable pub execute_ucer : Option ExecutionContext → String → List Step → Disk → Outcome
  unfolding requires capture run_steps settle caps_of
  execute_ucer context command_id ss d =
      granted (requires (caps_of (exec ∷ [])) context)
        (if m.cp d then transact command_id ss d else (err capture_failed, d)) d
