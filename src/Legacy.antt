-- ===== src/Legacy.antt =====
-- core/dsl.py, and the helpers of security/policy.py that older callers use: PolicySentinel, and the
-- mappings of intents and of parsed commands of PolicyEngine.
pub mod Verdicts
use universal_cross_shell_ex.Prelude.{
  ℕ, String, Bool, true, false, List, [], ◌∷◌, Option, none, some, ◌||◌, if◌then◌else◌,
}
use universal_cross_shell_ex.Prelude.Text.{Text, codes, lower, contains_any}
use universal_cross_shell_ex.Prelude.Sets.{union, empty}
use universal_cross_shell_ex.Prelude.Result.{Result, ok, err}
use universal_cross_shell_ex.Types.{
  Caps, caps_of, issubset, exec, fs_read, write_fs, network, ExecutionContext, Capability-discrete,
}
use universal_cross_shell_ex.Prelude.Dict.{same}
use universal_cross_shell_ex.Auditor.{Node, add_if, bash_audit}
use universal_cross_shell_ex.Ucer.{ExecutionStep, Ucer}
use universal_cross_shell_ex.Policy.{Tools, Denied, Verdict, evaluate}

pub data ExecutionIntent : Type 0 where
  write_file : (path content : String) → ExecutionIntent
  read_file : (path : String) → ExecutionIntent
  execute_command : (command : String) → (arguments : List String) → ExecutionIntent
  network_request : (url method : String) → (payload : Option String) → ExecutionIntent

abbrev pub intent_caps : ExecutionIntent → Caps
intent_caps (write_file path content) = caps_of (write_fs ∷ [])
intent_caps (read_file path) = caps_of (fs_read ∷ [])
intent_caps (execute_command command arguments) = caps_of (exec ∷ [])
intent_caps (network_request url method payload) = caps_of (network ∷ [])

-- `PolicyEngine.map_capabilities_from_dsl`: the loop adds to the set that it has.
unfoldable pub map_capabilities_from_dsl : List ExecutionIntent → Caps → Caps
unfolding caps_of
map_capabilities_from_dsl [] s = s
map_capabilities_from_dsl (i ∷ is) s = map_capabilities_from_dsl is (union s (intent_caps i))

-- The commands of the nodes of a tree; a node without one, or with an empty one, is left out.
abbrev pub commands_of : List (Option Text) → List Text
commands_of [] = []
commands_of (some (c ∷ cs) ∷ nodes) = (c ∷ cs) ∷ commands_of nodes
commands_of (_ ∷ nodes) = commands_of nodes

abbrev pub fetch_tokens : List Text
fetch_tokens =
    codes "invoke-webrequest" ∷ codes "iwr" ∷ codes "curl" ∷ codes "wget" ∷ codes "irm" ∷ []

abbrev pub erase_tokens : List Text
erase_tokens = codes "remove-item" ∷ codes "rm " ∷ codes "del " ∷ codes "erase " ∷ []

abbrev pub list_tokens : List Text
list_tokens = codes "get-process" ∷ codes "dir" ∷ codes "ls" ∷ codes "cat" ∷ []

-- What the loop adds for one command of a shell that is not Bash.
unfoldable pub add_scanned : Text → Caps → Caps
unfolding contains_any Capability-discrete
add_scanned command s = add_if true exec (
    add_if (contains_any list_tokens command) fs_read (
      add_if (contains_any erase_tokens command) write_fs
        (add_if (contains_any fetch_tokens command) network s)))

abbrev pub scan_all : List Text → Caps → Caps
scan_all [] s = s
scan_all (c ∷ cs) s = scan_all cs (add_scanned (lower c) s)

abbrev pub audit_all : (Text → Option (List Node)) → List Text → Caps → Caps
audit_all parse [] s = s
audit_all parse (c ∷ cs) s = audit_all parse cs (union s (bash_audit (parse c) c).capabilities)

-- `PolicyEngine.map_capabilities`, on the commands that the nodes of the tree carry.
unfoldable pub map_capabilities : (Text → Option (List Node)) → List (Option Text) → String → Caps
unfolding bash_audit add_scanned lower
map_capabilities parse nodes adapter =
    let commands = commands_of nodes in
    if same adapter "bash" || same adapter "linux"
    then audit_all parse commands empty
    else scan_all commands empty

-- `PolicyEngine.is_allowed`
unfoldable pub is_allowed : Caps → Caps → Bool
unfolding issubset
is_allowed requested allowed = issubset requested allowed

-- The answer of `PolicySentinel.audit_ucer`, without its texts.
pub data Answer : Type 0 where
  allowed : Answer
  destructive : Text → Answer
  refused : Denied → Answer

abbrev pub destructive_tokens : List Text
destructive_tokens =
    codes "rm " ∷ codes "rm -rf" ∷ codes "shred" ∷ codes "unlink" ∷ codes "mkfs" ∷ codes "dd" ∷ []

-- The first destructive command of the steps, after a refusal.
unfoldable pub first_destructive : Denied → List ExecutionStep → Answer
unfolding lower contains_any
first_destructive d [] = refused d
first_destructive d (s ∷ ss) =
    if contains_any destructive_tokens (lower s.command)
    then destructive s.command
    else first_destructive d ss

-- The context of the audit, with a fresh identifier.
abbrev pub audit_context : String → ℕ → ExecutionContext
audit_context id now = record {
  execution_id = id;
  user_id = "default";
  environment = [];
  working_dir = "/tmp";
  created_at = now;
  capabilities = caps_of (exec ∷ fs_read ∷ []);
}

abbrev pub answer_of : Verdict → List ExecutionStep → Answer
answer_of (ok _) steps = allowed
answer_of (err d) steps = first_destructive d steps

-- `PolicySentinel.audit_ucer`, with the record that the gate updates.
unfoldable pub audit_ucer : Tools → String → ℕ → Ucer → Answer × Ucer
unfolding evaluate first_destructive
audit_ucer tools id now u =
    let (v, u') = evaluate tools u (some (audit_context id now)) none in (answer_of v u'.steps, u')
