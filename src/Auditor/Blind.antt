-- ===== src/Auditor/Blind.antt =====
-- What the PowerShell daemon can find in the line that the client sends.
use universal_cross_shell_ex.Prelude.{
  ◌↔◌, take, String, ◌≡◌, inl, inr, refl, true, List, [], ◌∷◌, ◌++◌, Option, none, some, arith, In,
  here, there, Bool-cases, all, all_iff, All, All-get, In-of_any, In-cons, ap, ◌∙◌, subst, sym,
}
use universal_cross_shell_ex.Prelude.Text.{Text, codes, lower, contains, text_eq, text_eq→eq}
use universal_cross_shell_ex.Types.{Capability, exec}
use universal_cross_shell_ex.Auditor.{Reply, ps_audit}
use universal_cross_shell_ex.Auditor.Audit.{exec_iff}
use universal_cross_shell_ex.Auditor.Base64.{
  b64encode, IsEncoded, is_digit_or_pad, b64encode-IsEncoded, contains-IsEncoded, lower-IsEncoded,
}
use universal_cross_shell_ex.Auditor.Daemon.{
  exchange, serve, reply_to, answer_line, Parsed, Shell, is_risky, risky, risky_names,
  until_newline, read_line, request,
}

until_newline-encoded : (t : Text) → IsEncoded t → until_newline (t ++ (10 ∷ [])) ≡ t
until_newline-encoded [] e = refl
until_newline-encoded (c ∷ t) e = ground (arith, e.0, until_newline-encoded t e.1)

read_line-encoded : (t : Text) → IsEncoded t → read_line (t ++ (10 ∷ [])) ≡ some t
unfolding read_line
read_line-encoded [] e = refl
read_line-encoded (c ∷ t) e = ap some (until_newline-encoded (c ∷ t) e)

-- Whatever line ends a command has, the daemon reads it as one line: its encoding.
pub read_line-request : (cmd : Text) → read_line (request cmd) ≡ some (b64encode cmd)
unfolding request
read_line-request cmd = read_line-encoded (b64encode cmd) (b64encode-IsEncoded cmd)

-- The risky names without a dash.
abbrev pub short_names : List Text
short_names = codes "iwr" ∷ codes "wget" ∷ codes "irm" ∷ codes "saps" ∷ []

-- The lowered form of a risky name, if it could stand in an encoded text.
abbrev Short : Text → Type 0
Short r = all is_digit_or_pad (lower r) ≡ true → In (lower r) short_names

risky-Short : All Short risky
unfolding lower
risky-Short = (
  (λ e. cc),
  (
    (λ e. here),
    (
      (λ e. there here),
      (
        (λ e. cc),
        (
          (λ e. there (there here)),
          ((λ e. cc), ((λ e. there (there (there here))), ((λ e. cc), ((λ e. cc), tt)))),
        ),
      ),
    ),
  ),
)

encoded_risky :
    (n : String) → IsEncoded (codes n) → is_risky n ≡ true → In (lower (codes n)) short_names
encoded_risky n e h =
    let (r, i, q) = In-of_any (λ r. text_eq (lower r) (lower (codes n))) risky h in
    let same = text_eq→eq (lower r) (lower (codes n)) q in
    let plain = (all_iff is_digit_or_pad (lower (codes n))).1 (lower-IsEncoded (codes n) e) in
    subst (λ t. In t short_names) same
      (All-get Short i risky-Short (subst (λ t. all is_digit_or_pad t ≡ true) (sym same) plain))

In-risky_names :
    (names : List (Option String)) (n : String)
    → In n (risky_names names)
    → In (some n) names × (is_risky n ≡ true)
unfolding risky_names
In-risky_names [] n i = elim i [ ]
In-risky_names (none ∷ names) n i = let (j, k) = In-risky_names names n i in (there j, k)
In-risky_names (some m ∷ names) n i = elim (Bool-cases (is_risky m)) [
  | inl e ↦ elim (In-cons (rw e at i)) [
    | inl eq ↦ (rw eq here, rw eq e)
    | inr j ↦ let (k, q) = In-risky_names names n j in (there k, q)
  ]
  | inr e ↦ let (k, q) = In-risky_names names n (rw e at i) in (there k, q)
]

-- Where the parser names only commands that stand in an encoded text, the daemon reports of no command that
-- the client sends any risky name with a dash, such as Invoke-WebRequest or Start-Process: the text
-- that is parsed is the encoding, which nobody decodes.
pub risky_names-request :
    (shell : Shell) (cmd line : Text) (p : Parsed) (n : String)
    → ((t : Text) (q : Parsed) (m : String)
        → IsEncoded t
        → shell.parse t ≡ some q
        → In (some m) q.command_names
        → contains (codes m) t ≡ true)
    → read_line (request cmd) ≡ some line
    → shell.parse line ≡ some p
    → In n (risky_names p.command_names)
    → In (lower (codes n)) short_names
risky_names-request shell cmd line p n within read parsed i =
    let line_eq : line ≡ b64encode cmd = cc (read, read_line-request cmd) in
    let (j, h) = In-risky_names p.command_names n i in
    let encoded : IsEncoded line = subst IsEncoded (sym line_eq) (b64encode-IsEncoded cmd) in
    encoded_risky n (contains-IsEncoded (codes n) line (within line p n encoded parsed j) encoded) h

none-In : (xs : List String) → ((n : String) → In n xs → ⊥) → xs ≡ []
none-In [] h = refl
none-In (x ∷ xs) h = absurd (h x here)

abbrev pub safe_reply : Reply
safe_reply = record { safe = true; reasons = [] }

-- Of a text in the alphabet of base 64, which has no quote and no escape, the parser names only
-- commands that stand in it.
abbrev pub NamesWithin : Shell → Type 0
NamesWithin shell =
    (t : Text) (q : Parsed) (m : String)
    → IsEncoded t
    → shell.parse t ≡ some q
    → In (some m) q.command_names
    → contains (codes m) t ≡ true

abbrev pub NoShortName : Parsed → Type 0
NoShortName p = (n : String) → In (some n) p.command_names → In (lower (codes n)) short_names → ⊥

serve-request :
    (shell : Shell) (cmd : Text) (r : Reply)
    → reply_to (shell.parse (b64encode cmd)) ≡ r
    → serve shell (request cmd) ≡ shell.to_json r ++ (10 ∷ [])
unfolding serve
serve-request shell cmd r e =
    ap (answer_line shell) (read_line-request cmd) ∙ ap (λ x. shell.to_json x ++ (10 ∷ [])) e

-- Where the parser of PowerShell names only commands that stand in the text, if that has the letters
-- of base 64 only, finds no error in the encoding of a command and no command there with one of the
-- four short names, and the client reads a safe reply
-- back from its line, the client reports the command as safe and as needing `exec` only, whatever
-- cmdlets it calls: the text that is parsed is the encoding, which nobody decodes.
pub ps_audit-exchange :
    (shell : Shell) (cmd : Text) (p : Parsed) (c : Capability)
    → NamesWithin shell
    → shell.loads (take 4096 (shell.to_json safe_reply ++ (10 ∷ []))) ≡ some safe_reply
    → shell.parse (b64encode cmd) ≡ some p
    → p.errors ≡ none
    → NoShortName p
    → let r = ps_audit (exchange shell cmd) in
      (r.is_safe ≡ true) × ((r.capabilities c ≡ true) ↔ (c ≡ exec))
unfolding exchange reply_to ps_audit
ps_audit-exchange shell cmd p c within sent parsed clean short =
    let quiet : risky_names p.command_names ≡ [] = none-In (risky_names p.command_names) (λ n i.
      short n (In-risky_names p.command_names n i).0 (
        risky_names-request shell cmd (b64encode cmd) p n within (read_line-request cmd) parsed
          i)) in
    let replied : reply_to (some p) ≡ safe_reply = rw (clean, quiet) in
    let answered : shell.loads (take 4096 (serve shell (request cmd))) ≡ some safe_reply =
      ap (λ t. shell.loads (take 4096 t))
        (serve-request shell cmd safe_reply (ap reply_to parsed ∙ replied))
      ∙ sent in
    rw answered (refl, exec_iff c)
