-- ===== src/Server/Rego.antt =====
-- api/rest_server.py: the two simulations of a policy, for one command and for a batch of them.
use universal_cross_shell_ex.Prelude.{
  String, ◌≡◌, ◌↔◌, ◌⊎◌, inl, inr, refl, Bool, true, false, not, ◌&&◌, ◌||◌, List, [], ◌∷◌, ◌++◌,
  Option, none, some, if◌then◌else◌, Bool-cases, map,
}
use universal_cross_shell_ex.Prelude.Text.{Text, codes, contains}
use universal_cross_shell_ex.Prelude.Json.{Fields}

pub data Decision : Type 0 where
  allow deny : Decision

pub record Judgement : Type 0 where
  pub decision : Decision
  pub reasons : List String

-- `d.get("command", "")`
abbrev pub command_or_empty : Option Text → Text
command_or_empty none = []
command_or_empty (some c) = c

abbrev pub destructive : Text → Bool
destructive command = contains (codes "rm -rf") command || contains (codes "rm ") command

abbrev pub egress : Text → Bool
egress command = contains (codes "curl") command || contains (codes "iwr") command

-- Neither of the hosts that `simulate_rego` lets through is named.
abbrev pub unlisted : Text → Bool
unlisted command =
    not (contains (codes "1.1.1.1") command) && not (contains (codes "example.com") command)

-- `if test: decision = "deny"; reasons.append(reason)`
abbrev pub deny_if : Bool → String → Judgement → Judgement
deny_if b reason j =
    if b then record { decision = deny; reasons = j.reasons ++ (reason ∷ []) } else j

abbrev pub start : Judgement
start = record { decision = allow; reasons = [] }

unfoldable pub simulate_rego : (policy_name : String) → Option Text → Judgement
unfolding contains
simulate_rego policy_name cmd =
    let command = command_or_empty cmd in
    deny_if (egress command && unlisted command)
      "Network egress policy violation: External connection to unlisted IP."
      (deny_if (destructive command)
        "ISO 27001 Control 9.4.1 violation: Destructive shell command detected." start)

unfoldable pub judge : Option Text → Judgement
unfolding contains
judge cmd =
    let command = command_or_empty cmd in
    deny_if (egress command) "Egress policy: External network connection blocked."
      (deny_if (destructive command) "ISO 27001 9.4.1: Destructive shell command." start)

-- A test case: its fields, and what it has under "command".
pub record TestCase : Type 0 where
  pub input : Fields
  pub command : Option Text

-- The loop over the test cases.
unfoldable pub batch_rego : List TestCase → List (Fields × Judgement)
unfolding judge
batch_rego cases = map (λ tc. (tc.input, judge tc.command)) cases

-- The decisions on the three tests that they look at.
agree :
    (e u d : Bool) (r s r' s' : String)
    → ((deny_if (e && u) r (deny_if d s start)).decision ≡ deny)
      ↔ (((deny_if e r' (deny_if d s' start)).decision ≡ deny) × ((d ≡ true) ⊎ (u ≡ true)))
agree e u true r s r' s' = (
  (λ h. (elim (Bool-cases e) [ inl p ↦ rw p refl | inr p ↦ rw p refl ], inl refl)),
  (λ h. elim (Bool-cases (e && u)) [ inl p ↦ rw p refl | inr p ↦ rw p refl ]),
)
agree true true false r s r' s' = ((λ h. (refl, inr refl)), (λ h. refl))
agree true false false r s r' s' = ((λ h. cc), (λ h. elim h.1 [ inl p ↦ cc | inr p ↦ cc ]))
agree false u false r s r' s' = ((λ h. cc), (λ h. cc (h.0)))

-- The single simulation denies exactly what the batch denies, less the commands that are not
-- destructive and name a listed host; the name of the policy makes no difference.
pub simulate_rego-judge :
    (policy_name : String) (cmd : Option Text)
    → let command = command_or_empty cmd in
      ((simulate_rego policy_name cmd).decision ≡ deny)
      ↔ (((judge cmd).decision ≡ deny) × ((destructive command ≡ true) ⊎ (unlisted command ≡ true)))
unfolding simulate_rego judge
simulate_rego-judge policy_name cmd =
    let command = command_or_empty cmd in
    agree (egress command) (unlisted command) (destructive command) _ _ _ _
