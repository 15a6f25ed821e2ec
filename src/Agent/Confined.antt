-- ===== src/Agent/Confined.antt =====
-- What an agent or a user can make the executor run.
use universal_cross_shell_ex.Prelude.{
  ℕ, String, ◌≡◌, ◌⊎◌, ◌↔◌, inl, inr, refl, Bool, true, false, List, [], ◌∷◌, Option, none, some,
  Option-cases,
}
use universal_cross_shell_ex.Prelude.Text.{Text}
use universal_cross_shell_ex.Prelude.Dict.{Dict, lookup}
use universal_cross_shell_ex.Prelude.Result.{Result, ok, err}
use universal_cross_shell_ex.Types.{Capability, exec, fs_read, ExecutionContext}
use universal_cross_shell_ex.Ucer.{Ucer}
use universal_cross_shell_ex.Policy.{audit}
use universal_cross_shell_ex.Pipeline.{ran, saved, metric, World, Log, execute_ucer, new_context}
use universal_cross_shell_ex.Pipeline.Safety.{Justified, pipeline-Justified}
use universal_cross_shell_ex.Semantic.{Refused, compile}
use universal_cross_shell_ex.Agent.{
  Problem, Deployment, tool_context, run_compiled, compile_and_run, handle_call_tool, response_text,
  answered, Line, exec_intent, run_cli, chosen_caps, shown_result, on_compiled, dispatch_result,
  with_argument, compiling, executing, dispatching,
}
use universal_cross_shell_ex.Agent.Grants.{IsDefault, Granted, tool_caps_iff, chosen_caps_iff}

module _ (d : Deployment) (ctx : ExecutionContext) (log : Log)
    (before : Justified d.world ctx log) where
  run_compiled-Justified :
      (x : Result Refused Ucer) → Justified d.world ctx (run_compiled d ctx log x).1
  unfolding execute_ucer
  run_compiled-Justified (err e) = before
  run_compiled-Justified (ok u) =
      pipeline-Justified d.world ctx d.private_key (record { ucer = u; log = log }) before

  answered-log :
      (text : Ucer → Text) (x : Result Problem Ucer × Log)
      → Justified d.world ctx x.1
      → Justified d.world ctx (answered d text x).1
  answered-log text (ok u, l) h = h
  answered-log text (err e, l) h = h

  shown-log :
      (ls : List Line) (x : Result Problem Ucer × Log)
      → Justified d.world ctx x.1
      → Justified d.world ctx (shown_result d ls x).1
  shown-log ls (ok u, l) h = h
  shown-log ls (err e, l) h = h

  dispatch-log :
      (ls : List Line) (o : Option ℕ) → Justified d.world ctx (dispatch_result d ls log o).1
  dispatch-log ls none = before
  dispatch-log ls (some seq) = before

  asked-Justified :
      (o : Option String)
      → Justified d.world ctx
          (with_argument d "intent" o log
            (λ intent. answered d response_text (compile_and_run d ctx intent log))).1
  unfolding compile_and_run
  asked-Justified none = before
  asked-Justified (some intent) =
      answered-log response_text (compile_and_run d ctx intent log)
        (run_compiled-Justified (compile d.mapper d.gate d.draft ctx intent))

  compiled-Justified :
      (intent : String) (is_local : Bool) (x : Result Refused Ucer)
      → Justified d.world ctx (on_compiled d ctx intent is_local log x).1
  compiled-Justified intent is_local (err e) = before
  compiled-Justified intent true (ok u) =
      shown-log (compiling intent ∷ executing ∷ []) (run_compiled d ctx log (ok u))
        (run_compiled-Justified (ok u))
  compiled-Justified intent false (ok u) =
      dispatch-log (compiling intent ∷ dispatching ∷ []) (d.dispatch log u ctx)

-- Every adapter call in the log was audited just before, on the same command and for the same shell,
-- as safe and as needing only capabilities that `P` allows.
abbrev pub AuditedWithin : World → (Capability → Type 0) → Log → Type 0
AuditedWithin w P [] = Unit
AuditedWithin w P (ran a cmd ∷ l) =
    ((audit (w.tools l) a cmd).is_safe ≡ true)
    × ((c : Capability) → (audit (w.tools l) a cmd).capabilities c ≡ true → P c)
    × AuditedWithin w P l
AuditedWithin w P (saved u ∷ l) = AuditedWithin w P l
AuditedWithin w P (metric u a d s ∷ l) = AuditedWithin w P l

module _ (w : World) (ctx : ExecutionContext) (P : Capability → Type 0)
    (grants : (c : Capability) → (ctx.capabilities c ≡ true) ↔ P c) where
  AuditedWithin-of : (l : Log) → Justified w ctx l → AuditedWithin w P l
  AuditedWithin-of [] h = tt
  AuditedWithin-of (ran a cmd ∷ l) h =
      (h.1, (λ c e. (grants c).0 (h.0 c e)), AuditedWithin-of l h.2)
  AuditedWithin-of (saved u ∷ l) h = AuditedWithin-of l h
  AuditedWithin-of (metric u a d s ∷ l) h = AuditedWithin-of l h

  Justified-of : (l : Log) → AuditedWithin w P l → Justified w ctx l
  Justified-of [] h = tt
  Justified-of (ran a cmd ∷ l) h = ((λ c e. (grants c).1 (h.1 c e)), h.0, Justified-of l h.2)
  Justified-of (saved u ∷ l) h = Justified-of l h
  Justified-of (metric u a d s ∷ l) h = Justified-of l h

-- Whatever an agent asks `execute_intent` for, and whatever the model compiles it to: each command
-- that an adapter is called with was audited just before as safe and as needing no capability but
-- `exec` and `fs_read`, if that held of the calls before it.
pub handle_call_tool-Justified :
    (d : Deployment) (arguments : Option (Dict String)) (log : Log)
    → AuditedWithin d.world (λ c. (c ≡ exec) ⊎ (c ≡ fs_read)) log
    → AuditedWithin d.world
        (λ c. (c ≡ exec) ⊎ (c ≡ fs_read))
        (handle_call_tool d "execute_intent" arguments log).1
unfolding handle_call_tool
handle_call_tool-Justified d none log h = h
handle_call_tool-Justified d (some []) log h = h
handle_call_tool-Justified d (some (a ∷ arguments)) log h =
    let ctx = tool_context d log in
    AuditedWithin-of d.world ctx IsDefault tool_caps_iff
      (with_argument d "intent" (lookup "intent" (a ∷ arguments)) log
        (λ intent. answered d response_text (compile_and_run d ctx intent log))).1
      (asked-Justified d ctx log (Justified-of d.world ctx IsDefault tool_caps_iff log h)
        (lookup "intent" (a ∷ arguments)))

dispatched_log :
    (d : Deployment) (ctx : ExecutionContext) (intent : String) (log : Log)
    (x : Result Refused Ucer)
    → (on_compiled d ctx intent false log x).1 ≡ log
dispatched_log d ctx intent log (err e) = refl
dispatched_log d ctx intent log (ok u) = elim (Option-cases (d.dispatch log u ctx)) [
  | inl e ↦ rw e
  | inr (n, e) ↦ rw e
]

-- The `exec` of the command line, whatever the intent compiles to: each command that an adapter is
-- called with was audited just before as safe and as needing no capability but those whose values
-- the user named, or `exec` and `fs_read` where none was named, if that held of the calls before it.
-- Without the flag for a local run, no adapter is called and no record saved here.
pub run_cli-Justified :
    (d : Deployment) (intent : String) (is_local : Bool) (names : List String) (log : Log)
    → AuditedWithin d.world (Granted names) log
    → AuditedWithin d.world (Granted names) (run_cli d (exec_intent intent is_local names) log).1
      × ((run_cli d (exec_intent intent false names) log).1 ≡ log)
unfolding run_cli
run_cli-Justified d intent is_local names log h = elim (Option-cases (chosen_caps d names)) [
  | inl e ↦ rw e (h, refl)
  | inr (caps, e) ↦
      let ctx = new_context d.world caps log in
      let x = compile d.mapper d.gate d.draft ctx intent in
      let grants = chosen_caps_iff d names caps e in
      let run =
        AuditedWithin-of d.world ctx (Granted names) grants
          (on_compiled d ctx intent is_local log x).1
          (compiled-Justified d ctx log (Justified-of d.world ctx (Granted names) grants log h)
            intent is_local x) in
      rw e (run, dispatched_log d ctx intent log x)
]
