-- ===== src/Examples/Helpers.antt =====
-- The helpers for older callers.
use universal_cross_shell_ex.Prelude.{◌≡◌, ◌↔◌, refl, true, false, [], ◌∷◌, none, some, All}
use universal_cross_shell_ex.Prelude.Text.{codes}
use universal_cross_shell_ex.Prelude.Sets.{empty}
use universal_cross_shell_ex.Types.{Capability, caps_of, exec, fs_read, write_fs, network}
use universal_cross_shell_ex.Policy.Gate.{Permitted}
use universal_cross_shell_ex.Legacy.{
  read_file, execute_command, map_capabilities_from_dsl, is_allowed, allowed, audit_ucer,
  commands_of, map_capabilities,
}
use universal_cross_shell_ex.Legacy.Verdicts.{
  Asks, Reports, audit_ucer_iff, is_allowed_iff, map_capabilities_iff,
}
use universal_cross_shell_ex.Examples.{listing, tools_of, ucer}

audit_ucer_iff_test :
    ((audit_ucer (tools_of listing) "e2" 5 ucer).0 ≡ allowed)
    ↔ All (Permitted (tools_of listing) (caps_of (exec ∷ fs_read ∷ []))) ucer.steps
audit_ucer_iff_test = audit_ucer_iff (tools_of listing) "e2" 5 ucer

is_allowed_iff_test :
    let intents = read_file "a" ∷ execute_command "ls" [] ∷ [] in
    (is_allowed (map_capabilities_from_dsl intents empty) (caps_of (exec ∷ [])) ≡ true)
    ↔ ((c : Capability) → Asks intents c → caps_of (exec ∷ []) c ≡ true)
is_allowed_iff_test =
    is_allowed_iff (read_file "a" ∷ execute_command "ls" [] ∷ []) (caps_of (exec ∷ []))

map_capabilities_iff_test :
    let parse = (tools_of listing).parse in
    (map_capabilities parse (none ∷ some (codes "ls a") ∷ []) "bash" exec ≡ true)
    ↔ Reports parse (commands_of (none ∷ some (codes "ls a") ∷ [])) exec
map_capabilities_iff_test =
    map_capabilities_iff (tools_of listing).parse (none ∷ some (codes "ls a") ∷ []) exec

-- A shell that is not Bash: the text alone decides, and a tree without commands needs nothing.
scanned : map_capabilities (λ c. none) (some (codes "CURL a") ∷ []) "cmd" network ≡ true
unfolding map_capabilities
scanned = refl

scanned-writes : map_capabilities (λ c. none) (some (codes "CURL a") ∷ []) "cmd" write_fs ≡ false
unfolding map_capabilities
scanned-writes = refl

no_commands : map_capabilities (λ c. none) (none ∷ some [] ∷ []) "cmd" exec ≡ false
unfolding map_capabilities
no_commands = refl
