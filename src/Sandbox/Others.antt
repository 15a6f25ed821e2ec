-- ===== src/Sandbox/Others.antt =====
-- A run concerns the handles of its own execution.
use universal_cross_shell_ex.Prelude.{
  String, ◌≡◌, ◌≢◌, refl, ◌∙◌, Bool, true, false, Bool-cases, inl, inr,
}
use universal_cross_shell_ex.Prelude.Text.{Text}
use universal_cross_shell_ex.Prelude.Dict.{
  Dict, lookup, erase, has, same-eq_false, lookup-insert_ne, lookup-erase,
}
use universal_cross_shell_ex.Sandbox.{
  Handles, Answers, Read, marked, stopped, timed_out, after_read, when_started, cleanup,
  get_or_start, attempt, run,
}

-- The handles of an execution are the same in two states.
pub record SameFor (exec_id : String) (h h' : Handles) : Type 0 where
  pub container : lookup exec_id h'.active_containers ≡ lookup exec_id h.active_containers
  pub workspace : lookup exec_id h'.workspaces ≡ lookup exec_id h.workspaces
  pub process : lookup exec_id h'.processes ≡ lookup exec_id h.processes
  pub queue : lookup exec_id h'.queues ≡ lookup exec_id h.queues

SameFor-refl : (o : String) (h : Handles) → SameFor o h h
SameFor-refl o h = record { container = refl; workspace = refl; process = refl; queue = refl }

SameFor-trans : {o : String} {a b c : Handles} → SameFor o a b → SameFor o b c → SameFor o a c
SameFor-trans s t = record {
  container = t.container ∙ s.container;
  workspace = t.workspace ∙ s.workspace;
  process = t.process ∙ s.process;
  queue = t.queue ∙ s.queue;
}

module _ (exec_id other : String) (ne : exec_id ≢ other) where
  erase_ne : (d : Dict String) → lookup other (erase exec_id d) ≡ lookup other d
  erase_ne d = lookup-erase exec_id other d ∙ rw (same-eq_false exec_id other ne)

  cleanup-others : (h : Handles) → SameFor other h (cleanup exec_id h)
  unfolding cleanup
  cleanup-others h = record {
    container = erase_ne h.active_containers;
    workspace = erase_ne h.workspaces;
    process = erase_ne h.processes;
    queue = erase_ne h.queues;
  }

  get_or_start-others :
      (w : Answers) (name : String) (h : Handles)
      → SameFor other h (get_or_start w exec_id name h).1
  unfolding get_or_start
  get_or_start-others w name h = elim (Bool-cases (has exec_id h.active_containers)) [
    | inl e ↦ rw e (SameFor-refl other h)
    | inr e ↦ elim (Bool-cases w.started) [
      | inr f ↦
          rw (e, f)
            (record {
              container = refl;
              workspace = lookup-insert_ne exec_id other exec_id h.workspaces ne;
              process = refl;
              queue = refl;
            })
      | inl f ↦ elim (Bool-cases w.opened) [
        | inr g ↦
            rw (e, f, g)
              (record {
                container = lookup-insert_ne exec_id other name h.active_containers ne;
                workspace = lookup-insert_ne exec_id other exec_id h.workspaces ne;
                process = refl;
                queue = refl;
              })
        | inl g ↦
            rw (e, f, g)
              (record {
                container = lookup-insert_ne exec_id other name h.active_containers ne;
                workspace = lookup-insert_ne exec_id other exec_id h.workspaces ne;
                process = lookup-insert_ne exec_id other name h.processes ne;
                queue = lookup-insert_ne exec_id other name h.queues ne;
              })
      ]
    ]
  ]

  after_read-others :
      (w : Answers) (h : Handles) (r : Read) → SameFor other h (after_read w exec_id h r).1
  after_read-others w h (marked ls) = SameFor-refl other h
  after_read-others w h (stopped ls) = SameFor-refl other h
  after_read-others w h (timed_out ls) = cleanup-others h

  attempt-others :
      (w : Answers) (marker : Text) (h : Handles) → SameFor other h (attempt w exec_id marker h).1
  unfolding attempt
  attempt-others w marker h = elim (Bool-cases w.alive) [
    | inr e ↦ rw e (cleanup-others h)
    | inl e ↦ elim (Bool-cases w.writable) [
      | inr f ↦ rw (e, f) (SameFor-refl other h)
      | inl f ↦ rw (e, f) (after_read-others w h _)
    ]
  ]

  when_started-others :
      (w : Answers) (marker : Text) (up : Bool) (h : Handles)
      → SameFor other h (when_started w exec_id marker (up, h)).1
  when_started-others w marker false h = SameFor-refl other h
  when_started-others w marker true h = elim (Bool-cases (has exec_id h.processes)) [
    | inr e ↦ rw e (SameFor-refl other h)
    | inl e ↦ rw e (attempt-others w marker h)
  ]

  -- However a run ends, the container, the workspace, the process and the queues of every other
  -- execution are as before.
  pub run-others :
      (w : Answers) (name : String) (marker : Text) (h : Handles)
      → SameFor other h (run w exec_id name marker h).1
  unfolding run
  run-others w name marker h =
      let (up, h') = get_or_start w exec_id name h in
      SameFor-trans (get_or_start-others w name h) (when_started-others w marker up h')
