-- ===== src/Examples/Chain.antt =====
-- The pipeline.
use universal_cross_shell_ex.Prelude.{◌≡◌, ap, inl, refl, [], ◌∷◌, some}
use universal_cross_shell_ex.Prelude.Text.{codes}
use universal_cross_shell_ex.Prelude.Result.{err}
use universal_cross_shell_ex.Prelude.Dict.{same}
use universal_cross_shell_ex.Prelude.Sets.{diff}
use universal_cross_shell_ex.Types.{issubset}
use universal_cross_shell_ex.Ucer.{failed, bash, sign_intent, model_dump_canonical}
use universal_cross_shell_ex.Auditor.{bash_audit}
use universal_cross_shell_ex.Policy.{Denied, unauthorized, audit, evaluate}
use universal_cross_shell_ex.Sentinel.{inspect_trace, get_audit_log}
use universal_cross_shell_ex.Output.{normalize_output}
use universal_cross_shell_ex.Pipeline.{tampered, denied, Log, saved, Run, pipeline}
use universal_cross_shell_ex.Pipeline.Safety.{Justified, pipeline-Justified}
use universal_cross_shell_ex.Pipeline.Ending.{Ended, pipeline-Ended}
use universal_cross_shell_ex.Pipeline.Refusal.{pipeline_tampered, pipeline_denied}
use universal_cross_shell_ex.Examples.{context, tools_of, listing, removal, world, run}

pipeline-Justified_example :
    Justified (world listing) context (pipeline (world listing) "private" context run).1.log
pipeline-Justified_example = pipeline-Justified (world listing) context "private" run tt

pipeline-Ended_example :
    let r' = (pipeline (world listing) "private" context run).1 in
    Ended (world listing) context r'.ucer × ((l : Log) × (r'.log ≡ saved r'.ucer ∷ l))
unfolding pipeline evaluate issubset sign_intent bash_audit inspect_trace get_audit_log
    normalize_output
pipeline-Ended_example = pipeline-Ended (world listing) context "private" run refl

-- A record whose hash is that of another one.
abbrev forged : Run
forged = record run {
  ucer = record run.ucer { canonical_hash = some "c2"; control_signature = some "c2" };
}

pipeline_tampered_example :
    pipeline (world listing) "private" context forged
    ≡ (err tampered, record forged { ucer = record forged.ucer { status = failed } })
unfolding sign_intent model_dump_canonical
pipeline_tampered_example =
    pipeline_tampered (world listing) context "private" "public" "private"
      (record run.ucer { command_id = "c2" }) forged refl refl refl
      (λ q. cc (ap (same run.ucer.command_id) q))

abbrev refusal : Denied
refusal =
    unauthorized
      (diff (audit (tools_of removal) bash (codes "ls")).capabilities context.capabilities)

pipeline_denied_test :
    let x = pipeline (world removal) "private" context run in
    (x.0 ≡ err (denied refusal)) × (x.1.log ≡ [])
unfolding evaluate issubset bash_audit
pipeline_denied_test =
    pipeline_denied (world removal) context "private" "public" run refl (inl refl) refl
