-- ===== src/Examples/Repeats.antt =====
-- A record that is run again.
use universal_cross_shell_ex.Prelude.{◌≡◌, refl, true, [], ◌∷◌, map, some}
use universal_cross_shell_ex.Types.{issubset}
use universal_cross_shell_ex.Ucer.{completed}
use universal_cross_shell_ex.Auditor.{bash_audit}
use universal_cross_shell_ex.Policy.{evaluate}
use universal_cross_shell_ex.Pipeline.Replay.{Snapshots, captured, restored, Replayed, replay}
use universal_cross_shell_ex.Pipeline.Replay.Again.{trace_ids, replay-returns}
use universal_cross_shell_ex.Examples.{context, listing, world, run, ucer}

abbrev snapshots : Snapshots
snapshots = record { captures = λ log. true; restores = λ log. true }

abbrev replayed : Replayed
replayed = (replay (world listing) (λ x. 0) snapshots (some context) run (some ucer)).1

replay-returns_example :
    (replayed.run.ucer.status ≡ completed)
    × (trace_ids replayed.run.ucer ≡ map (λ s. s.step_id) ucer.steps)
    × (replayed.snapshots ≡ restored ∷ captured ∷ [])
unfolding replay evaluate issubset bash_audit
replay-returns_example =
    replay-returns (world listing) (λ x. 0) snapshots (some context) run ucer replayed refl
