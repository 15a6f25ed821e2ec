-- ===== src/Server/Reports.antt =====
-- What the background tasks report, and what they do not run.
use universal_cross_shell_ex.Prelude.{
  String, ◌≡◌, ◌⊎◌, inl, inr, refl, ap, ◌∙◌, Bool, true, false, List, [], ◌∷◌, ◌++◌, some, none,
  Bool-cases,
}
use Prim.Native.String.{◌++◌ as concat}
use universal_cross_shell_ex.Prelude.Text.{Text, codes}
use universal_cross_shell_ex.Prelude.Result.{Result, ok, err}
use universal_cross_shell_ex.Ucer.{Ucer, completed, exited, ExecutionTrace}
use universal_cross_shell_ex.Policy.{Denied, evaluate}
use universal_cross_shell_ex.Pipeline.{Error, saved, World, Run, execute_ucer}
use universal_cross_shell_ex.Pipeline.Refusal.{pipeline_denied}
use universal_cross_shell_ex.Server.Events.{
  Message, log_line, audit_complete, audit_blocked, Cockpit, Tokens, save, guarded,
}
use universal_cross_shell_ex.Server.Tasks.{
  blocked_ucer, task_ucer, task_context, mock_trace, simulated, fall_back, on_outcome,
  execute_workflow_task, block,
}
use universal_cross_shell_ex.Server.RedTeam.{attack_ucer, run_red_team_task}

-- The newest event of the queue.
abbrev pub Newest : Message → Cockpit → Type 0
Newest m c = (ms : List Message) × (c.queue ≡ m ∷ ms)

module _ (w : World) (key : String) (hash : Ucer → String) (tokens : Tokens)
    (str : Error → Text) where
  module _ (intent : String) (command : Text) (id : String) (is_ps : Bool) (c : Cockpit) where
    -- The run of the executor in the task.
    abbrev pub outcome : Result Error (Unit {0}) × Run
    outcome =
        execute_ucer w key (some (task_context w key hash tokens intent command id is_ps c.log))
          none
          (record { ucer = task_ucer w key hash tokens intent command id is_ps c.log; log = c.log })

    -- What the task makes of a record when the executor raises.
    abbrev pub made_up : Ucer
    made_up =
        simulated w key hash tokens intent command id is_ps outcome.1.log tokens.first_step
          outcome.1.ucer

    abbrev pub finished : Cockpit
    finished = execute_workflow_task w key hash tokens str intent command id false is_ps c

    settle : Result Error (Unit {0}) → Run → Cockpit → Result Error (Unit {0}) × Cockpit
    settle x r d = on_outcome w key hash tokens intent command id is_ps tokens.first_step x r.ucer d

    remake : Run → Ucer
    remake r = simulated w key hash tokens intent command id is_ps r.log tokens.first_step r.ucer

    returned :
        (pre : Text) (x : Result Error (Unit {0})) (r : Run) (q : List Message)
        → x ≡ ok tt
        → let f = guarded str pre (settle x r (record { log = r.log; queue = q })) in
          (f.log ≡ r.log) × Newest (audit_complete r.ucer) f
    unfolding settle
    returned pre (ok _) r q h = (refl, (_, refl))
    returned pre (err e) r q h = cc

    raised :
        (pre : Text) (x : Result Error (Unit {0})) (r : Run) (q : List Message) {e : Error}
        → x ≡ err e
        → w.storable r.log (remake r) ≡ true
        → let f = guarded str pre (settle x r (record { log = r.log; queue = q })) in
          (f.log ≡ saved (remake r) ∷ r.log) × Newest (audit_complete (remake r)) f
    unfolding settle remake fall_back
    raised pre (ok _) r q h k = cc
    raised pre (err e) r q h k = rw k (refl, (_, refl))

    -- Where the task is no violation and the executor returns, the newest event of the queue is the
    -- completion of its record, and nothing is saved beyond what the executor did.
    pub execute_workflow_task-returns :
        outcome.0 ≡ ok tt
        → (finished.log ≡ outcome.1.log) × Newest (audit_complete outcome.1.ucer) finished
    unfolding execute_workflow_task settle
    execute_workflow_task-returns h =
        returned (codes "Orchestration Error: ") outcome.0 outcome.1 _ h

    -- Where the executor raises, whatever the reason, and the database takes the record that is made
    -- up, that record is saved and reported as complete.
    pub execute_workflow_task-raises :
        {e : Error}
        → outcome.0 ≡ err e
        → w.storable outcome.1.log made_up ≡ true
        → (finished.log ≡ saved made_up ∷ outcome.1.log) × Newest (audit_complete made_up) finished
    unfolding execute_workflow_task remake settle
    execute_workflow_task-raises h k =
        raised (codes "Orchestration Error: ") outcome.0 outcome.1 _ h k

    -- A command that the policy gate denies is reported as complete: nothing runs, and the record
    -- that is saved is completed, carries a control signature "sig_valid_…", and has a trace with the exit code 0.
    pub execute_workflow_task-denied :
        (public_key : String) {d : Denied}
        → w.public_key c.log ≡ some public_key
        → (evaluate
            (w.tools c.log)
            (task_ucer w key hash tokens intent command id is_ps c.log)
            (some (task_context w key hash tokens intent command id is_ps c.log))
            none).0
          ≡ err d
        → w.storable outcome.1.log made_up ≡ true
        → (finished.log ≡ saved made_up ∷ c.log)
          × Newest (audit_complete made_up) finished
          × (made_up.status ≡ completed)
          × (made_up.control_signature ≡ some (concat "sig_valid_" tokens.control))
          × ((ts : List ExecutionTrace) × (t : ExecutionTrace) × (made_up.traces ≡ ts ++ t ∷ [])
              × (t.exit_code ≡ exited 0))
    unfolding execute_ucer simulated
    execute_workflow_task-denied public_key found no_way stored =
        let start : Run = record {
          ucer = task_ucer w key hash tokens intent command id is_ps c.log;
          log = c.log;
        } in
        let ctx = task_context w key hash tokens intent command id is_ps c.log in
        let (refused, same_log) =
          pipeline_denied w ctx key public_key start found (inl refl) no_way in
        let (saved_log, newest) = execute_workflow_task-raises refused stored in
        (
          saved_log ∙ ap (λ l. saved made_up ∷ l) same_log,
          newest,
          refl,
          refl,
          (
            outcome.1.ucer.traces,
            mock_trace w key hash tokens intent command id is_ps tokens.first_step
                (w.clock outcome.1.log),
            refl,
            refl,
          ),
        )

  -- The end of a simulated task: its record is saved and its last event stands on the queue, or the
  -- database refuses the record and only an error is reported. Nothing is run.
  abbrev pub Simulated : Ucer → (Message → Type 0) → Cockpit → Cockpit → Type 0
  Simulated u Last c f =
      ((f.log ≡ saved u ∷ c.log) × ((m : Message) × Last m × Newest m f))
      ⊎ ((w.storable c.log u ≡ false)
          × (f.log ≡ c.log)
          × ((m : Text) × Newest (log_line m "alert") f))

  -- The task of a violation and the simulated intrusion never reach the executor: beyond the saved
  -- record the log of events is as before, whatever the command is.
  pub simulations_run_nothing :
      (intent : String) (command : Text) (id : String) (is_ps : Bool) (c : Cockpit)
      → let u = blocked_ucer w key hash tokens intent command id c.log in
        let f = execute_workflow_task w key hash tokens str intent command id true is_ps c in
        let v = attack_ucer w tokens id c.log in
        Simulated u (λ m. (r : Text) × (m ≡ audit_blocked r u)) c f
        × Simulated v
            (λ m. (t : Text) × (m ≡ log_line t "info"))
            c
            (run_red_team_task w tokens str id c)
  unfolding execute_workflow_task block run_red_team_task save
  simulations_run_nothing intent command id is_ps c =
      let u = blocked_ucer w key hash tokens intent command id c.log in
      let v = attack_ucer w tokens id c.log in
      (
        elim (Bool-cases (w.storable c.log u)) [
          | inl e ↦ rw e (inl (refl, (_, (_, refl), (_, refl))))
          | inr e ↦ rw e (inr (refl, refl, (_, (_, refl))))
        ],
        elim (Bool-cases (w.storable c.log v)) [
          | inl e ↦ rw e (inl (refl, (_, (_, refl), (_, refl))))
          | inr e ↦ rw e (inr (refl, refl, (_, (_, refl))))
        ],
      )
