-- ===== src/Auditor.antt =====
-- security/auditor.py and security/ps_daemon.py: the audit of one command. The Bash parser
-- (bashlex) and the PowerShell daemon are parameters: each answers or fails.
pub mod Visit
pub mod Audit
pub mod PowerShell
pub mod Base64
pub mod Daemon
pub mod Blind
use universal_cross_shell_ex.Prelude.{
  String, ◌≡◌, Bool, true, false, ◌||◌, List, [], ◌∷◌, Option, none, some, any, if◌then◌else◌,
  length, ◌==◌,
}
use universal_cross_shell_ex.Prelude.Text.{Text, codes, lower, contains_any, text_eq}
use universal_cross_shell_ex.Prelude.Sets.{empty, insert}
use universal_cross_shell_ex.Types.{
  Capability, write_fs, network, exec, fs_read, Caps, caps_of, Capability-discrete,
}

-- A bashlex node: its `kind`, its `word` (empty where it has none) and its `parts` (none where it
-- has no such attribute).
pub data Kind : Type 0 where
  command word redirect other : Kind

mutual
  pub data Node : Type 0 where
    node : Kind → Text → Parts → Node

  pub data Parts : Type 0 where
    nil : Parts
    cons : Node → Parts → Parts

pub data Reason : Type 0 where
  parse_error connection_error : Reason
  reported : String → Reason

pub record AuditResult : Type 0 where
  pub is_safe : Bool
  pub reasons : List Reason
  pub capabilities : Caps

-- What the visitor updates in place.
pub record Findings : Type 0 where
  pub reasons : List Reason
  pub caps : Caps

abbrev pub forbidden_commands : List Text
forbidden_commands = codes "rm" ∷ codes "unlink" ∷ codes "shred" ∷ codes "mkfs" ∷ codes "dd" ∷ []

abbrev pub readers : List Text
readers = codes "cat" ∷ codes "ls" ∷ codes "grep" ∷ codes "find" ∷ codes "type" ∷ codes "dir" ∷ []

abbrev pub writers : List Text
writers =
    codes "touch"
    ∷ codes "cp"
    ∷ codes "mv"
    ∷ codes "mkdir"
    ∷ codes "rm"
    ∷ codes "unlink"
    ∷ codes "shred"
    ∷ codes "mkfs"
    ∷ codes "dd"
    ∷ []

abbrev pub fetchers : List Text
fetchers = codes "curl" ∷ codes "wget" ∷ []

-- `w in {…}`
abbrev pub is_one_of : List Text → Text → Bool
is_one_of ws w = any (text_eq w) ws

-- `if test: caps.add(c)`
abbrev pub add_if : Bool → Capability → Caps → Caps
add_if b c s = if b then insert Capability-discrete c s else s

unfoldable pub add_named : Text → Caps → Caps
unfolding text_eq Capability-discrete
add_named w s = add_if (is_one_of fetchers w) network (
    add_if (is_one_of writers w) write_fs
      (add_if (is_one_of readers w) fs_read (add_if (is_one_of forbidden_commands w) write_fs s)))

unfoldable pub check_command : Kind → Parts → Caps → Caps
unfolding add_named
check_command command (cons (node word w ps) rest) s = add_named w s
check_command _ _ s = s

unfoldable pub check_redirect : Kind → Caps → Caps
unfolding Capability-discrete
check_redirect redirect s = insert Capability-discrete write_fs s
check_redirect _ s = s

-- `_visit_node`
unfoldable mutual
  unfolding check_command check_redirect

  pub visit_node : Node → Findings → Findings
  visit_node (node kind w parts) f =
      visit_parts parts (record f { caps = check_redirect kind (check_command kind parts f.caps) })

  pub visit_parts : Parts → Findings → Findings
  visit_parts nil f = f
  visit_parts (cons n ns) f = visit_parts ns (visit_node n f)

unfoldable pub visit_all : List Node → Findings → Findings
unfolding visit_node visit_parts
visit_all [] f = f
visit_all (n ∷ ns) f = visit_all ns (visit_node n f)

abbrev pub reader_tokens : List Text
reader_tokens =
    codes "cat " ∷ codes "ls " ∷ codes "grep " ∷ codes "find " ∷ codes "type " ∷ codes "dir " ∷ []

abbrev pub writer_tokens : List Text
writer_tokens =
    codes "touch "
    ∷ codes "cp "
    ∷ codes "mv "
    ∷ codes "mkdir "
    ∷ codes "rm "
    ∷ codes "unlink"
    ∷ codes "shred"
    ∷ codes "mkfs"
    ∷ codes "dd"
    ∷ []

abbrev pub network_tokens : List Text
network_tokens =
    codes "curl"
    ∷ codes "wget"
    ∷ codes "invoke-webrequest"
    ∷ codes "invoke-restmethod"
    ∷ codes "iwr"
    ∷ codes "irm"
    ∷ []

-- The second part of `audit`: the scan of the lowered text.
unfoldable pub add_tokens : Text → Caps → Caps
unfolding contains_any lower Capability-discrete
add_tokens lowered s = add_if (contains_any network_tokens lowered) network (
    add_if (contains_any writer_tokens lowered) write_fs
      (add_if (contains_any reader_tokens lowered) fs_read s))

-- `BashASTAuditor.audit`, on what `bashlex.parse` gives for the command.
unfoldable pub bash_audit : Option (List Node) → Text → AuditResult
unfolding visit_all add_tokens caps_of
bash_audit none cmd = record { is_safe = false; reasons = parse_error ∷ []; capabilities = empty }
bash_audit (some parts) cmd =
    let found = visit_all parts (record { reasons = []; caps = caps_of (exec ∷ []) }) in
    record {
      is_safe = length found.reasons == 0;
      reasons = found.reasons;
      capabilities = add_tokens (lower cmd) found.caps;
    }

-- The reply of the PowerShell daemon.
pub record Reply : Type 0 where
  pub safe : Bool
  pub reasons : List String

abbrev reported_all : List String → List Reason
reported_all [] = []
reported_all (r ∷ rs) = reported r ∷ reported_all rs

-- `PersistentPowerShellAuditor.audit`, on the daemon's reply.
unfoldable pub ps_audit : Option Reply → AuditResult
unfolding caps_of
ps_audit none = record { is_safe = false; reasons = connection_error ∷ []; capabilities = empty }
ps_audit (some r) = record {
  is_safe = r.safe;
  reasons = reported_all r.reasons;
  capabilities = caps_of (exec ∷ []);
}
