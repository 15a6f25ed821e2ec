-- ===== src/Auditor/PowerShell.antt =====
-- security/auditor.py: PowerShellAuditor, the textual audit of a command for PowerShell.
use mathlib.Core.List.{reverse}
use universal_cross_shell_ex.Prelude.{
  ℕ, ◌≡◌, ◌↔◌, ◌⊎◌, refl, Bool, true, false, ◌&&◌, ◌||◌, List, [], ◌∷◌, any, leb, length, ◌==◌,
  if◌then◌else◌, arith, inl, inr,
}
use universal_cross_shell_ex.Prelude.Text.{Text, codes, lower, contains, contains_any, is_letter}
use universal_cross_shell_ex.Prelude.Regex.{Regex, class, seq, many, literal, search_in, full_match}
use universal_cross_shell_ex.Output.{strip}
use universal_cross_shell_ex.SecureExecutor.{spaces}
use universal_cross_shell_ex.Types.{
  Capability, write_fs, network, exec, caps_of, Capability-discrete,
}
use universal_cross_shell_ex.Auditor.{Reason, reported, AuditResult, add_if}
use universal_cross_shell_ex.Auditor.Visit.{add_if_iff}
use universal_cross_shell_ex.Auditor.Audit.{exec_iff}

abbrev is_quote : ℕ → Bool
is_quote c = any (λ q. q == c) (codes "'\"")

-- `strip("'\"")`
abbrev lstrip_quotes : Text → Text
lstrip_quotes [] = []
lstrip_quotes (c ∷ t) = if is_quote c then lstrip_quotes t else c ∷ t

abbrev strip_quotes : Text → Text
strip_quotes t = reverse (lstrip_quotes (reverse (lstrip_quotes t)))

abbrev is_digit : ℕ → Bool
is_digit c = leb b'0' c && leb c b'9'

-- `[A-Za-z0-9+/=]+`
abbrev base64_like : Regex
base64_like =
    let letter = class (λ c. is_letter c || is_digit c || any (λ m. m == c) (codes "+/=")) in
    seq letter (many letter)

-- `&\s*\(\s*'i'\s*\+\s*'ex'\s*\)`, whatever the case of the text.
abbrev joined_iex : Regex
joined_iex = seq (literal (codes "&")) (
    seq spaces (
      seq (literal (codes "(")) (
        seq spaces (
          seq (literal (codes "'i'")) (
            seq spaces (
              seq (literal (codes "+"))
                (seq spaces (seq (literal (codes "'ex'")) (seq spaces (literal (codes ")")))))))))))

-- `&\s*\$[A-Za-z_]\w*`
abbrev called_variable : Regex
called_variable =
    let initial = class (λ c. is_letter c || (c == b'_')) in
    let word = class (λ c. is_letter c || is_digit c || (c == b'_')) in
    seq (literal (codes "&")) (seq spaces (seq (literal (codes "$")) (seq initial (many word))))

abbrev web_tokens : List Text
web_tokens =
    codes "invoke-webrequest"
    ∷ codes "iwr"
    ∷ codes "i`wr"
    ∷ codes "wget"
    ∷ codes "curl"
    ∷ codes "irm"
    ∷ codes "invoke-restmethod"
    ∷ []

abbrev delete_tokens : List Text
delete_tokens =
    codes "remove-item" ∷ codes "del " ∷ codes "erase " ∷ codes "rm " ∷ codes "shred" ∷ []

-- `if test: findings.append(message)`, with what is appended after it.
abbrev append_if : Bool → Reason → List Reason → List Reason
append_if b r rs = if b then r ∷ rs else rs

abbrev is_large_base64 : Text → Bool
is_large_base64 stripped = leb 500 (length stripped) && full_match base64_like stripped

-- The findings of `PowerShellAuditor.parse`.
unfoldable pub findings : Text → List Reason
unfolding lower contains contains_any strip search_in
findings cmd =
    let lowered = lower cmd in
    append_if (contains (codes "iex") lowered || contains (codes "invoke-expression") lowered)
      (reported "Risky command detected: iex")
      (append_if (contains_any web_tokens lowered)
        (reported "Risky command detected: Invoke-WebRequest")
        (append_if (contains (codes "scriptblock") lowered && contains (codes ".invoke()") lowered)
          (reported "Dynamic .Invoke() member call detected")
          (append_if (is_large_base64 (strip_quotes (strip cmd)))
            (reported "Suspicious large base64-like string detected")
            (append_if (search_in joined_iex cmd || search_in called_variable cmd)
              (reported "Indirect invocation detected") []))))

-- `PowerShellAuditor.audit`
unfoldable pub legacy_audit : Text → AuditResult
unfolding lower contains_any caps_of Capability-discrete findings
legacy_audit cmd =
    let reasons = findings cmd in
    let lowered = lower cmd in
    record {
      is_safe = length reasons == 0;
      reasons = reasons;
      capabilities =
          add_if (contains_any delete_tokens lowered) write_fs
            (add_if (contains_any web_tokens lowered) network (caps_of (exec ∷ [])));
    }

-- A finding that is appended leaves no empty list, and what follows one that is not does not either.
append_if-empty :
    (b : Bool) (r : Reason) (rs : List Reason)
    → (length (append_if b r rs) == 0) ≡ true
    → (b ≡ false) × ((length rs == 0) ≡ true)
append_if-empty true r rs h = absurd (ground (arith, h))
append_if-empty false r rs h = (refl, h)

-- A command that uses the web is always found.
findings-web :
    (cmd : Text) → (length (findings cmd) == 0) ≡ true → contains_any web_tokens (lower cmd) ≡ false
unfolding findings
findings-web cmd h = (append_if-empty _ _ _ (append_if-empty _ _ _ h).1).0

-- A command that the textual audit calls safe needs `exec`, `write_fs` exactly when one of the
-- tokens that delete is in its lowered text, and nothing else: never the network.
pub legacy_audit-is_safe :
    (cmd : Text) (c : Capability)
    → (legacy_audit cmd).is_safe ≡ true
    → ((legacy_audit cmd).capabilities c ≡ true)
      ↔ ((c ≡ exec) ⊎ ((contains_any delete_tokens (lower cmd) ≡ true) × (c ≡ write_fs)))
unfolding legacy_audit
legacy_audit-is_safe cmd c safe =
    let offline = findings-web cmd safe in
    let deletes = contains_any delete_tokens (lower cmd) in
    let start = add_if (contains_any web_tokens (lower cmd)) network (caps_of (exec ∷ [])) in
    let outer = add_if_iff deletes write_fs c start in
    let inner = add_if_iff (contains_any web_tokens (lower cmd)) network c (caps_of (exec ∷ [])) in
    (
      (λ h. elim (outer.0 h) [
        | inr w ↦ inr w
        | inl e ↦ elim (inner.0 e) [ inl x ↦ inl ((exec_iff c).0 x) | inr (b, _) ↦ cc (b, offline) ]
      ]),
      (λ h. outer.1 (elim h [ inl e ↦ inl (inner.1 (inl ((exec_iff c).1 e))) | inr w ↦ inr w ])),
    )
