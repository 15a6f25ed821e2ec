-- ===== src/Engine/Mutation.antt =====
-- security/mutation_controller.py: one cycle of the verification loop, which mutates nothing so far.
-- The hashes of the directory ./core and of the workspace, which holds it, are parameters.
use universal_cross_shell_ex.Prelude.{
  String, ◌≡◌, refl, Bool, true, false, not, some, if◌then◌else◌, arith,
}
use universal_cross_shell_ex.Prelude.Dict.{same}
use universal_cross_shell_ex.Prelude.Result.{Result, ok, err}
use universal_cross_shell_ex.Engine.{Disk, capture, restore, cleanup}
use universal_cross_shell_ex.Engine.Rollback.{Below, view, restore-unwritten}

-- A line of autonomous_audit.log, without its time.
pub record Entry : Type 0 where
  pub mutation_id : String
  pub test_result : String
  pub remediation_logic : String
  pub hash_pre : String
  pub hash_post : String
  pub drift_detected : Bool

abbrev pub log_event : (id result remediation pre post : String) → Entry
log_event id result remediation pre post = record {
  mutation_id = id;
  test_result = result;
  remediation_logic = remediation;
  hash_pre = pre;
  hash_post = post;
  drift_detected = not (same pre post);
}

-- The hash of ./core, that of the workspace, and whether `cp` succeeds.
pub record Hashes : Type 0 where
  pub core : Disk → String
  pub workspace : Disk → String
  pub cp : Disk → Bool

pub data Failed : Type 0 where
  cp_failed : Failed

module _ (h : Hashes) where
  -- The `finally` block, with the hash that was taken before.
  unfoldable pub verify_post : (hash_pre : String) → Disk → Entry × Disk
  unfolding restore cleanup
  verify_post hash_pre d =
      if not (same hash_pre (h.workspace d))
      then (let d' = restore d.environ d in
          (log_event "INIT" "Setup" "None" hash_pre (h.workspace d'), d'))
      else (log_event "INIT" "Setup" "None" hash_pre (h.workspace d), cleanup d)

  unfoldable pub run_cycle : Disk → Result Failed Entry × Disk
  unfolding capture verify_post
  run_cycle d =
      if h.cp d
      then (let (entry, d') = verify_post (h.core d) (capture d) in (ok entry, d'))
      else (err cp_failed, d)

  -- Where the hash of ./core is not that of the workspace, a cycle that changes nothing takes this for
  -- a drift: it restores every file, with the text that it had, and leaves its backup on the disk.
  pub run_cycle_drifts :
      (d : Disk) (path : String)
      → h.cp d ≡ true
      → same (h.core d) (h.workspace (capture d)) ≡ false
      → Below d.next_inode d.root
      → let d' = (run_cycle d).1 in
        (d'.backup ≡ some d.root) × (view d'.root d'.contents path ≡ view d.root d.contents path)
  unfolding run_cycle
  run_cycle_drifts d path c drift below =
      let back =
        restore-unwritten d (λ x. x) d.environ path below refl (omega arith) (λ i k. refl) in
      rw (c, drift) (refl, back)
