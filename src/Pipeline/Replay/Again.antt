-- ===== src/Pipeline/Replay/Again.antt =====
-- What a replay runs and leaves.
use universal_cross_shell_ex.Prelude.{
  ℕ, String, ◌≡◌, refl, sym, ap, subst, ◌∙◌, List, [], ◌∷◌, ◌++◌, map, Option, some, Bool-cases,
  inl, inr,
}
use universal_cross_shell_ex.Prelude.Result.{Result, ok, err, Result-cases}
use universal_cross_shell_ex.Types.{ExecutionContext}
use universal_cross_shell_ex.Ucer.{completed, ExecutionStep, ExecutionTrace, Ucer}
use universal_cross_shell_ex.Isolation.{Level, negotiate_isolation}
use universal_cross_shell_ex.Pipeline.{Error, RunResult, World, Run, unified_execute, step_adapter}
use universal_cross_shell_ex.Pipeline.Replay.{
  Snapshots, captured, restored, Replayed, started, add_replay, replay_steps, replay_all,
  replay_context, finish, replay,
}
use universal_cross_shell_ex.Pipeline.Outcome.{unified_execute-ucer}

abbrev step_ids : List ExecutionStep → List String
step_ids ss = map (λ s. s.step_id) ss

abbrev pub trace_ids : Ucer → List String
trace_ids u = map (λ t. t.step_id) u.traces

trace_ids-append :
    (ts : List ExecutionTrace) (t : ExecutionTrace) (is : List String)
    → map (λ x. x.step_id) (ts ++ t ∷ []) ++ is ≡ map (λ x. x.step_id) ts ++ t.step_id ∷ is
trace_ids-append [] t is = refl
trace_ids-append (x ∷ ts) t is = ap (λ l. x.step_id ∷ l) (trace_ids-append ts t is)

nil-append : (is : List String) → is ++ [] ≡ is
nil-append [] = refl
nil-append (i ∷ is) = ap (λ l. i ∷ l) (nil-append is)

module _ (w : World) (duration_ms : RunResult → ℕ) where
  replay_steps-traces :
      (ctx : ExecutionContext) (level : Level) (ss : List ExecutionStep) (r : Run)
      → (replay_steps w duration_ms level ctx ss r).0 ≡ ok tt
      → trace_ids (replay_steps w duration_ms level ctx ss r).1.ucer
        ≡ trace_ids r.ucer ++ step_ids ss
  unfolding replay_steps
  replay_steps-traces ctx level [] r h = sym (nil-append (trace_ids r.ucer))
  replay_steps-traces ctx level (s ∷ ss) r h =
      let a = step_adapter level s.adapter in
      let called = unified_execute w a s.command ctx r in
      elim (Result-cases called.0) [
        | inr (e, f) ↦ cc (rw f at h)
        | inl (x, f) ↦
            let q = add_replay w duration_ms s a x called.1 in
            let same : called.1.ucer ≡ r.ucer = unified_execute-ucer w ctx a s.command r in
            rw f (
              replay_steps-traces ctx level ss q (rw f at h)
              ∙ trace_ids-append called.1.ucer.traces _ (step_ids ss)
              ∙ ap (λ u. trace_ids u ++ s.step_id ∷ step_ids ss) same)
      ]

  -- A `finally` that returns.
  finish-returned :
      (snap : Snapshots) (y : Result Error (Unit {0})) (r : Run) (x : Replayed)
      → finish w duration_ms snap (y, r) ≡ (ok tt, x)
      → (y ≡ ok tt) × (r ≡ x.run) × (x.snapshots ≡ restored ∷ captured ∷ [])
  unfolding finish
  finish-returned snap (err e) r x h = elim (Bool-cases (snap.restores r.log)) [
    | inl f ↦ cc (ap (λ p. p.0) (rw f at h))
    | inr f ↦ cc (ap (λ p. p.0) (rw f at h))
  ]
  finish-returned snap (ok t) r x h = elim (Bool-cases (snap.restores r.log)) [
    | inr f ↦ cc (ap (λ p. p.0) (rw f at h))
    | inl f ↦
        let e = ap (λ p. p.1) (rw f at h) in
        (refl, ap (λ z. z.run) e, sym (ap (λ z. z.snapshots) e))
  ]

  replay_all-traces :
      (ctx : ExecutionContext) (level : Level) (ss : List ExecutionStep) (r : Run)
      → (replay_all w duration_ms level ctx ss r).0 ≡ ok tt
      → ((replay_all w duration_ms level ctx ss r).1.ucer.status ≡ completed)
        × (trace_ids (replay_all w duration_ms level ctx ss r).1.ucer
            ≡ trace_ids r.ucer ++ step_ids ss)
  unfolding replay_all
  replay_all-traces ctx level ss r h =
      let steps = replay_steps w duration_ms level ctx ss r in
      elim (Result-cases steps.0) [
        | inr (d, f) ↦ cc (rw f at h)
        | inl (t, f) ↦ rw f (refl, replay_steps-traces ctx level ss r f)
      ]

  -- A replay that returns leaves a completed record with one trace for each step, in order, and has
  -- restored the snapshot that it took.
  pub replay-returns :
      (snap : Snapshots) (context : Option ExecutionContext) (r : Run) (u : Ucer) (x : Replayed)
      → replay w duration_ms snap context r (some u) ≡ (ok tt, x)
      → (x.run.ucer.status ≡ completed)
        × (trace_ids x.run.ucer ≡ step_ids u.steps)
        × (x.snapshots ≡ restored ∷ captured ∷ [])
  unfolding replay
  replay-returns snap context r u x h =
      let ctx = replay_context w duration_ms context u r.log in
      let level = negotiate_isolation u.required_capabilities in
      let done = replay_all w duration_ms level ctx u.steps (started u r.log) in
      elim (Bool-cases (snap.captures r.log)) [
        | inr e ↦ cc (ap (λ p. p.0) (rw e at h))
        | inl e ↦
            let (fine, left, calls) = finish-returned snap done.0 done.1 x (rw e at h) in
            let (status, ids) = replay_all-traces ctx level u.steps (started u r.log) fine in
            (
              subst (λ q. q.ucer.status ≡ completed) left status,
              subst (λ q. trace_ids q.ucer ≡ step_ids u.steps) left ids,
              calls,
            )
      ]
