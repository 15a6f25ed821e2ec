-- ===== src/Server/Timeline.antt =====
-- api/rest_server.py: the entries of the audit timeline, and their filter.
use universal_cross_shell_ex.Prelude.{
  ℕ, String, ◌≡◌, ◌↔◌, refl, true, List, [], ◌∷◌, if◌then◌else◌, keep, length, In, In-keep,
  In-keep_of, Bool-cases, inl, inr, ◌⊎◌,
}
use text.Mathlib.TextEquality.{eq_iff}
use universal_cross_shell_ex.Prelude.Text.{Text, codes, lower, contains, starts_with}
use universal_cross_shell_ex.Ucer.{ExitCode, exited, killed}
use universal_cross_shell_ex.Prelude.Dict.{same}

-- An entry of the audit timeline, as far as it is filtered by.
pub record Entry : Type 0 where
  pub id : String
  pub intent : Text
  pub status : String
  pub adapter : String
  pub severity : String
  pub duration_ms : ℕ
  pub exit_code : ExitCode

abbrev pub entries : List Entry
entries =
    record {
      id = "ucer-893f42c7";
      intent = codes "FS Integrity Audit";
      status = "completed";
      adapter = "bash";
      severity = "info";
      duration_ms = 60;
      exit_code = exited 0;
    }
    ∷ record {
      id = "ucer-b72c44a1";
      intent = codes "Host Telemetry Poll";
      status = "completed";
      adapter = "powershell";
      severity = "info";
      duration_ms = 82;
      exit_code = exited 0;
    }
    ∷ record {
      id = "ucer-e91f8c3d";
      intent = codes "Force delete system log files";
      status = "blocked";
      adapter = "bash";
      severity = "high";
      duration_ms = 0;
      exit_code = killed 0;
    }
    ∷ []

-- `if x: filtered = [e for e in filtered if e[…] == x]`
abbrev pub by : (Entry → String) → String → List Entry → List Entry
by field x es = if same x "" then es else keep (λ e. same (field e) x) es

abbrev pub by_keyword : Text → List Entry → List Entry
by_keyword [] es = es
by_keyword (c ∷ cs) es = keep (λ e. contains (lower (c ∷ cs)) (lower e.intent)) es

unfoldable pub filter_entries : String → String → Text → List Entry → List Entry
unfolding contains lower
filter_entries adapter severity keyword es =
    by_keyword keyword (by (λ e. e.severity) severity (by (λ e. e.adapter) adapter es))

-- The answer: the entries and their number.
unfoldable pub get_audit_logs : String → String → Text → List Entry × ℕ
unfolding filter_entries
get_audit_logs adapter severity keyword =
    let filtered = filter_entries adapter severity keyword entries in (filtered, length filtered)

-- An entry passes a filter that is not empty.
abbrev pub Passes : String → String → Type 0
Passes x y = (x ≡ "") ⊎ (y ≡ x)

abbrev pub Mentions : Text → Text → Type 0
Mentions keyword intent = contains (lower keyword) (lower intent) ≡ true

In-by :
    (field : Entry → String) (x : String) (es : List Entry) (e : Entry)
    → In e (by field x es) ↔ (In e es × Passes x (field e))
In-by field x es e = elim (Bool-cases (same x "")) [
  | inl q ↦ rw q ((λ i. (i, inl ((eq_iff x "").0 q))), (λ p. p.0))
  | inr q ↦ rw q (
    (λ i. let (j, k) = In-keep _ es i in (j, inr ((eq_iff (field e) x).0 k))),
    (λ p. elim p.1 [
      | inl empty ↦ cc (q, (eq_iff x "").1 empty)
      | inr eq ↦ In-keep_of (λ e'. same (field e') x) p.0 ((eq_iff (field e) x).1 eq)
    ]),
  )
]

-- The empty keyword is in every text.
contains-empty : (t : Text) → contains [] t ≡ true
unfolding contains starts_with
contains-empty [] = refl
contains-empty (c ∷ t) = refl

In-by_keyword :
    (keyword : Text) (es : List Entry) (e : Entry)
    → In e (by_keyword keyword es) ↔ (In e es × Mentions keyword e.intent)
unfolding lower
In-by_keyword [] es e = ((λ i. (i, contains-empty _)), (λ p. p.0))
In-by_keyword (c ∷ cs) es e = (
  (λ i. In-keep _ es i),
  (λ p. In-keep_of (λ e'. contains (lower (c ∷ cs)) (lower e'.intent)) p.0 p.1),
)

-- The filter keeps exactly the entries that have the adapter and the severity, where these are
-- given, and whose intent contains the keyword in some case.
pub filter_entries_iff :
    (adapter severity : String) (keyword : Text) (es : List Entry) (e : Entry)
    → In e (filter_entries adapter severity keyword es) ↔ (
        In e es × Passes adapter e.adapter × Passes severity e.severity × Mentions keyword e.intent)
unfolding filter_entries
filter_entries_iff adapter severity keyword es e =
    let named = by (λ e'. e'.adapter) adapter es in
    let grave = by (λ e'. e'.severity) severity named in
    let k = In-by_keyword keyword grave e in
    let s = In-by (λ e'. e'.severity) severity named e in
    let a = In-by (λ e'. e'.adapter) adapter es e in
    (
      (λ i. let (j, m) = k.0 i in let (l, v) = s.0 j in let (n, p) = a.0 l in (n, p, v, m)),
      (λ p. k.1 (s.1 (a.1 (p.0, p.1), p.2), p.3)),
    )
