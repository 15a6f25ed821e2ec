-- ===== src/Auditor/Daemon.antt =====
-- security/ps_daemon.py: the PowerShell daemon, the line that it reads and what it answers, and the
-- client that starts it and asks it. The parser of PowerShell, JSON and the processes are parameters.
use universal_cross_shell_ex.Prelude.{
  String, Bool, false, ◌||◌, List, [], ◌∷◌, ◌++◌, Option, none, some, any, length, take, ◌==◌,
  if◌then◌else◌,
}
use Prim.Native.String.{◌++◌ as concat}
use universal_cross_shell_ex.Prelude.Text.{Text, codes, lower, text_eq}
use universal_cross_shell_ex.Auditor.{Reply, AuditResult, ps_audit}
use universal_cross_shell_ex.Auditor.Base64.{b64encode}

-- What the parser of PowerShell finds in a text: its errors, and the names of its commands.
pub record Parsed : Type 0 where
  pub errors : Option String
  pub command_names : List (Option String)

abbrev pub risky : List Text
risky =
    codes "Invoke-WebRequest"
    ∷ codes "iwr"
    ∷ codes "wget"
    ∷ codes "Invoke-RestMethod"
    ∷ codes "irm"
    ∷ codes "Start-Process"
    ∷ codes "saps"
    ∷ codes "Add-Type"
    ∷ codes "Set-ExecutionPolicy"
    ∷ []

-- `$risky -contains $name`, whatever the case.
abbrev pub is_risky : String → Bool
is_risky name = any (λ r. text_eq (lower r) (lower (codes name))) risky

-- The loop over the commands.
unfoldable pub risky_names : List (Option String) → List String
unfolding text_eq lower
risky_names [] = []
risky_names (none ∷ names) = risky_names names
risky_names (some n ∷ names) = if is_risky n then n ∷ risky_names names else risky_names names

abbrev pub reasons_of : List String → List String
reasons_of [] = []
reasons_of (n ∷ ns) = concat "Risky cmdlet: " n ∷ reasons_of ns

abbrev pub error_reason : Option String → List String
error_reason none = []
error_reason (some e) = concat "Parse Error: " e ∷ []

unfoldable pub reply_to : Option Parsed → Reply
unfolding risky_names
reply_to none = record { safe = false; reasons = "Internal Daemon Error" ∷ [] }
reply_to (some p) =
    let findings = error_reason p.errors ++ reasons_of (risky_names p.command_names) in
    record { safe = length findings == 0; reasons = findings }

-- `ReadLine`: the text before the first end of a line; `none` where there is no text.
abbrev pub until_newline : Text → Text
until_newline [] = []
until_newline (c ∷ t) = if c == 10 || c == 13 then [] else c ∷ until_newline t

unfoldable pub read_line : Text → Option Text
read_line [] = none
read_line (c ∷ t) = some (until_newline (c ∷ t))

-- What the client sends.
unfoldable pub request : Text → Text
unfolding b64encode
request cmd = b64encode cmd ++ (10 ∷ [])

-- `parse` is `none` where the parser raises; `to_json` and `loads` are those of the two sides.
pub record Shell : Type 0 where
  pub parse : Text → Option Parsed
  pub to_json : Reply → Text
  pub loads : Text → Option Reply

-- The process that was started (`daemon_proc`).
pub record Client : Type 0 where
  pub daemon_proc : Option String

module _ (shell : Shell) where
  abbrev pub answer_line : Option Text → Text
  answer_line none = []
  answer_line (some line) = shell.to_json (reply_to (shell.parse line)) ++ (10 ∷ [])

  -- One connection to the daemon.
  unfoldable pub serve : Text → Text
  unfolding reply_to read_line
  serve sent = answer_line (read_line sent)

  -- The `try` block of `audit`: at most 4096 bytes are read.
  unfoldable pub exchange : Text → Option Reply
  unfolding serve request
  exchange cmd = shell.loads (take 4096 (serve (request cmd)))

module _ (shell : Shell) (alive : Option String → Bool) (popen : String) where
  unfoldable pub ensure_daemon_running : Client → Client
  ensure_daemon_running c = if alive c.daemon_proc then c else record { daemon_proc = some popen }

  -- `PersistentPowerShellAuditor.audit`, down to the daemon.
  unfoldable pub ask : Text → Client → AuditResult × Client
  unfolding ensure_daemon_running exchange ps_audit
  ask cmd c =
      let c' = ensure_daemon_running c in
      (ps_audit (if alive c'.daemon_proc then exchange shell cmd else none), c')

unfoldable pub stop_daemon : Client → Client
stop_daemon c = record { daemon_proc = none }
