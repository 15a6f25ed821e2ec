-- ===== src/Examples/Disks.antt =====
-- Snapshots of a directory and the manager.
use universal_cross_shell_ex.Prelude.{◌≡◌, refl, true, List, [], ◌∷◌, some, none, arith}
use universal_cross_shell_ex.Prelude.Text.{codes}
use universal_cross_shell_ex.Prelude.Dict.{lookup}
use universal_cross_shell_ex.Prelude.Result.{is_ok}
use universal_cross_shell_ex.Types.{caps_of}
use universal_cross_shell_ex.Ucer.{exited}
use universal_cross_shell_ex.Engine.{
  Disk, Machine, Step, capture, restore, write_inode, execute_ucer,
}
use universal_cross_shell_ex.Engine.Rollback.{view, is_empty, restore-capture, execute_ucer_lem}
use universal_cross_shell_ex.Engine.Mutation.{Hashes, run_cycle, run_cycle_drifts}
use universal_cross_shell_ex.Examples.{context}

abbrev disk : Disk
disk = record {
  root = ("a.txt", 0) ∷ [];
  backup = none;
  contents = λ i. codes "old";
  next_inode = 1;
  environ = [];
}

-- A command that writes to the file in place.
abbrev overwrite : Disk → Disk
overwrite d = record d { contents = write_inode 0 (codes "new") d.contents }

restore-capture_example :
    let r = restore [] (overwrite (capture disk)) in
    (view r.root r.contents "a.txt" ≡ view disk.root (overwrite (capture disk)).contents "a.txt")
    × (r.environ ≡ [])
unfolding capture
restore-capture_example =
    restore-capture disk overwrite [] "a.txt" (omega arith, tt) refl (omega arith)

-- What was written in place is still there.
overwritten_test :
    let r = restore [] (overwrite (capture disk)) in
    view r.root r.contents "a.txt" ≡ some (codes "new")
unfolding capture restore lookup
overwritten_test = refl

abbrev machine : Machine
machine = record {
  cp = λ d. true;
  run_subprocess = λ id adapter command d. (
    record {
      command_id = id;
      adapter = adapter;
      success = true;
      stdout = [];
      stderr = [];
      exit_code = exited 0;
    },
    overwrite d,
  );
}

abbrev steps : List Step
steps = record { step_id = "s1"; adapter = "bash"; command = codes "ls" } ∷ []

execute_ucer_lem_example :
    let (x, e) = execute_ucer machine (some context) "c1" steps disk in
    (is_ok x ≡ is_empty steps)
    × (view e.root e.contents "a.txt" ≡ view disk.root disk.contents "a.txt")
unfolding caps_of
execute_ucer_lem_example =
    execute_ucer_lem machine context "c1" steps disk "a.txt" refl refl (omega arith, tt)

abbrev hashes : Hashes
hashes = record { core = λ d. "aa"; workspace = λ d. "bb"; cp = λ d. true }

run_cycle_drifts_test :
    let d' = (run_cycle hashes disk).1 in
    (d'.backup ≡ some disk.root)
    × (view d'.root d'.contents "a.txt" ≡ view disk.root disk.contents "a.txt")
run_cycle_drifts_test = run_cycle_drifts hashes disk "a.txt" refl refl (omega arith, tt)
