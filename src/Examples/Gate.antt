-- ===== src/Examples/Gate.antt =====
-- The record, the auditor, the gate, the nodes and the sentinel.
use universal_cross_shell_ex.Prelude.{
  ap, ◌≡◌, ◌≢◌, ◌↔◌, ◌⊎◌, ◌≤◌, inl, refl, true, false, [], ◌∷◌, ◌++◌, none, some, In, here, there,
  All,
}
use universal_cross_shell_ex.Prelude.Text.{codes, lower, contains}
use universal_cross_shell_ex.Prelude.Json.{end}
use universal_cross_shell_ex.Prelude.Dict.{same_refl}
use universal_cross_shell_ex.Types.{
  exec, fs_read, network, delete_root, caps_of, write_fs, issubset,
}
use universal_cross_shell_ex.Ucer.{
  exited, ExecutionTrace, Ucer, truthy, or_empty, model_dump_canonical, sign_intent,
  verify_integrity, bash,
}
use universal_cross_shell_ex.Ucer.Integrity.{
  verify_integrity_iff, verify_integrity-sign_intent, verify_integrity_detects,
  verify_integrity-signed,
}
use universal_cross_shell_ex.Auditor.{bash_audit}
use universal_cross_shell_ex.Auditor.Visit.{NeedsAny, writes}
use universal_cross_shell_ex.Prelude.Result.{ok}
use universal_cross_shell_ex.Auditor.Audit.{Shows, bash_audit-capabilities, bash_audit-is_safe}
use universal_cross_shell_ex.Policy.{evaluate}
use universal_cross_shell_ex.Policy.Gate.{
  Bounded, Permitted, Found, limit, evaluate_iff, evaluate-required_capabilities, evaluate_blocks,
}
use universal_cross_shell_ex.Sentinel.{inspect_trace, get_audit_log, non_empty}
use universal_cross_shell_ex.Sentinel.Leaks.{inspect_trace_iff}
use universal_cross_shell_ex.Isolation.{
  docker, microvm, negotiate_isolation, WorkerNode, initial_nodes, eligible, allocate_node,
}
use universal_cross_shell_ex.Isolation.Nodes.{
  negotiate_isolation_iff, allocate_node-least, allocate_node-none_iff,
}
use universal_cross_shell_ex.Examples.{context, listing, removal, tools_of, crypto, list_step, ucer}

abbrev signed : Ucer
signed = sign_intent crypto "private" ucer

verify_integrity_iff_test : (verify_integrity crypto "public" signed ≡ some true) ↔ (
    (truthy signed.control_signature ≡ true)
    × (truthy signed.canonical_hash ≡ true)
    × (crypto.hash (model_dump_canonical signed) ≡ or_empty signed.canonical_hash)
    × (crypto.verify "public" (or_empty signed.canonical_hash) (or_empty signed.control_signature)
        ≡ some true))
verify_integrity_iff_test = verify_integrity_iff crypto "public" signed

-- The record as the engine leaves it.
abbrev later : Ucer
later = record (sign_intent crypto "private" ucer) { execution_pub_key = some "new"; timestamp = 9 }

verify_integrity-sign_intent_test : verify_integrity crypto "public" later ≡ some true
unfolding sign_intent model_dump_canonical
verify_integrity-sign_intent_test =
    verify_integrity-sign_intent crypto "private" "public" ucer later (λ p. ap some (same_refl p))
      (λ h. cc) (λ h. cc) refl refl refl

verify_integrity-signed_example :
    (verify_integrity crypto "public" later ≡ some true)
    ↔ (crypto.hash (model_dump_canonical later) ≡ crypto.hash (model_dump_canonical ucer))
unfolding sign_intent model_dump_canonical
verify_integrity-signed_example =
    verify_integrity-signed crypto "private" "public" ucer later (λ p. ap some (same_refl p))
      (λ h. cc) (λ h. cc) refl refl

verify_integrity_detects_test :
    crypto.hash (model_dump_canonical later) ≡ crypto.hash (model_dump_canonical ucer)
unfolding sign_intent verify_integrity model_dump_canonical
verify_integrity_detects_test =
    verify_integrity_detects crypto "private" "public" ucer later refl refl

bash_audit-capabilities_example :
    ((bash_audit (some removal) (codes "rm a")).capabilities write_fs ≡ true)
    ↔ (((write_fs ≡ exec) ⊎ NeedsAny removal write_fs) ⊎ Shows (lower (codes "rm a")) write_fs)
bash_audit-capabilities_example = bash_audit-capabilities removal (codes "rm a") write_fs

bash_audit-is_safe_test : (bash_audit (some removal) (codes "rm a")).is_safe ≡ true
bash_audit-is_safe_test = bash_audit-is_safe removal (codes "rm a")

evaluate_iff_example : ((evaluate (tools_of listing) ucer (some context) none).0 ≡ ok tt) ↔ (
    (context.capabilities exec ≡ true)
    × Bounded (tools_of listing) context none
    × All (Permitted (tools_of listing) (limit (tools_of listing) context none)) ucer.steps)
evaluate_iff_example = evaluate_iff (tools_of listing) ucer context none

evaluate-required_capabilities_example :
    let u' = (evaluate (tools_of listing) ucer (some context) none).1 in
    ((u'.required_capabilities fs_read ≡ true)
      ↔ ((ucer.required_capabilities fs_read ≡ true) ⊎ Found (tools_of listing) ucer.steps fs_read))
    × (Found (tools_of listing) ucer.steps fs_read → context.capabilities fs_read ≡ true)
    × (u' ≡ record ucer { required_capabilities = u'.required_capabilities })
unfolding evaluate issubset bash_audit
evaluate-required_capabilities_example =
    evaluate-required_capabilities (tools_of listing) ucer context none fs_read refl

evaluate_blocks_example : (evaluate (tools_of removal) ucer (some context) none).0 ≢ ok tt
unfolding caps_of
evaluate_blocks_example =
    evaluate_blocks (tools_of removal) ucer context none list_step removal write_fs here refl refl
      (inl (inl (inl (writes (there (there (there (there here)))))))) refl

abbrev printed : ExecutionTrace
printed = record {
  step_id = "s1";
  adapter = bash;
  command = codes "cat a";
  stdout = codes "Key=1";
  stderr = [];
  exit_code = exited 0;
  duration_ms = 1;
  side_effects = end;
  timestamp = 1;
}

inspect_trace_iff_example :
    let output = lower (codes "Key=1" ++ []) in
    (inspect_trace get_audit_log printed context ≡ true) ↔ (
      ((context.capabilities network ≡ true) ⊎ (non_empty (get_audit_log "e1") ≡ false))
      × (contains (codes "password=") output ≡ false)
      × (contains (codes "secret=") output ≡ false)
      × (contains (codes "key=") output ≡ false))
inspect_trace_iff_example = inspect_trace_iff get_audit_log printed context

negotiate_isolation_iff_test :
    (negotiate_isolation (caps_of (network ∷ [])) ≡ microvm)
    ↔ ((caps_of (network ∷ []) delete_root ≡ true) ⊎ (caps_of (network ∷ []) network ≡ true))
negotiate_isolation_iff_test = negotiate_isolation_iff (caps_of (network ∷ []))

allocate_node-least_test :
    (n : WorkerNode) × (n.id ≡ "worker-L1-01")
    × In n initial_nodes
    × (eligible docker n ≡ true)
    × ((m : WorkerNode) → In m initial_nodes → eligible docker m ≡ true → n.load ≤ m.load)
unfolding allocate_node
allocate_node-least_test = allocate_node-least initial_nodes docker refl

allocate_node-none_iff_test :
    (allocate_node initial_nodes microvm ≡ none)
    ↔ All (λ n. eligible microvm n ≡ false) initial_nodes
allocate_node-none_iff_test = allocate_node-none_iff initial_nodes microvm
