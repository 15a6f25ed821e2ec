-- ===== src/Examples/Queues.antt =====
-- The PowerShell daemon, the microVMs and the loops over messages.
use universal_cross_shell_ex.Prelude.{
  ◌↔◌, ℕ, String, ◌≡◌, refl, Bool, true, false, List, [], ◌∷◌, ◌++◌, Option, none, some,
  if◌then◌else◌, ◌==◌, In, here, In-cons, inl, inr, ap, subst, sym,
}
use universal_cross_shell_ex.Prelude.Text.{Text, codes, lower, contains}
use universal_cross_shell_ex.Prelude.Dict.{lookup}
use universal_cross_shell_ex.Auditor.Base64.{b64encode, IsEncoded}
use universal_cross_shell_ex.Auditor.Daemon.{
  Parsed, Shell, exchange, risky_names, read_line, request,
}
use universal_cross_shell_ex.Auditor.Blind.{
  short_names, safe_reply, NamesWithin, risky_names-request, ps_audit-exchange,
}
use universal_cross_shell_ex.Types.{network, exec}
use universal_cross_shell_ex.Auditor.{ps_audit}
use universal_cross_shell_ex.MicroVm.{Vms, socket_path}
use universal_cross_shell_ex.MicroVm.Lifecycle.{
  Call, running, restoring, snapshot, cleaning, perform_all, OwnSockets, perform_all-OwnSockets,
}
use universal_cross_shell_ex.MicroVm.Lifecycle.Refined.{view, expected_all, perform_all-expected}
use universal_cross_shell_ex.Jobs.{Subscriber, start, listen, waiting, stopped, ack, nak}
use universal_cross_shell_ex.Jobs.Loops.{verdicts, start-listen, start_stops}

encoded : b64encode (codes "j,+") ≡ codes "aiwr"
unfolding b64encode
encoded = refl

abbrev names_if : Bool → List (Option String)
names_if true = some "iwr" ∷ none ∷ []
names_if false = none ∷ []

abbrev found_in : Text → Parsed
found_in t = record { errors = none; command_names = names_if (contains (codes "iwr") t) }

abbrev shell : Shell
shell = record { parse = λ t. some (found_in t); to_json = λ r. []; loads = λ t. none }

abbrev option_of : Option String → String
option_of none = "iwr"
option_of (some s) = s

named_if : (b : Bool) (m : String) → In (some m) (names_if b) → (b ≡ true) × (m ≡ "iwr")
named_if true m i = elim (In-cons i) [
  | inl e ↦ (refl, ap option_of e)
  | inr j ↦ elim (In-cons j) [ inl e ↦ cc e | inr k ↦ elim k [ ] ]
]
named_if false m i = elim (In-cons i) [ inl e ↦ cc e | inr k ↦ elim k [ ] ]

within :
    (t : Text) (q : Parsed) (m : String)
    → IsEncoded t
    → shell.parse t ≡ some q
    → In (some m) q.command_names
    → contains (codes m) t ≡ true
within t q m _ e i =
    let same : q ≡ found_in t = cc e in
    let (h, eq) =
      named_if (contains (codes "iwr") t) m (subst (λ p. In (some m) p.command_names) same i) in
    subst (λ n. contains (codes n) t ≡ true) (sym eq) h

risky_names-request_test : In (lower (codes "iwr")) short_names
unfolding read_line request contains risky_names
risky_names-request_test =
    risky_names-request shell (codes "j,+") (codes "aiwr") (found_in (codes "aiwr")) "iwr" within
      refl refl here

abbrev no_vms : Vms
no_vms = record { active_vms = []; snapshots = []; files = [] }

no_vms-OwnSockets : OwnSockets no_vms
unfolding lookup
no_vms-OwnSockets = record { own = λ id socket e. cc e }

abbrev calls : List (String × Call)
calls =
    ("e1", running (codes "bash") (codes "ls") true)
    ∷ ("e2", running (codes "bash") (codes "ls") false)
    ∷ ("e1", snapshot "/tmp" 3)
    ∷ ("e1", restoring (λ f. true) true)
    ∷ ("e2", cleaning (λ f. true))
    ∷ []

perform_all-OwnSockets_test : OwnSockets (perform_all calls no_vms)
perform_all-OwnSockets_test = perform_all-OwnSockets calls no_vms no_vms-OwnSockets

perform_all-expected_example :
    view "e1" (perform_all calls no_vms) ≡ expected_all "e1" calls (view "e1" no_vms)
perform_all-expected_example = perform_all-expected "e1" calls no_vms

restarted_test : view "e1" (perform_all calls no_vms) ≡ (some (socket_path "e1"), true)
unfolding lookup
restarted_test = perform_all-expected "e1" calls no_vms

-- Messages are numbers; 9 does not parse, and the callback raises on 4.
abbrev subscriber : Subscriber ℕ ℕ
subscriber = record {
  loads = λ m. if m == 9 then none else some m;
  has_command_id = λ d. true;
  callback = λ d. if d == 4 then false else true;
  ack_ok = λ m. true;
  nak_ok = λ m. true;
}

start-listen_example :
    (start subscriber (1 ∷ 4 ∷ []) ≡ ((1, ack) ∷ (4, nak) ∷ [], waiting))
    × (listen subscriber (1 ∷ 4 ∷ []) ≡ ((1, ack) ∷ (4, nak) ∷ [], waiting))
start-listen_example =
    start-listen subscriber (1 ∷ 4 ∷ []) ((1, refl, refl), ((4, refl, refl), tt)) (refl, (refl, tt))

start_stops_example :
    start subscriber ((1 ∷ 4 ∷ []) ++ (9 ∷ (2 ∷ []))) ≡ (verdicts subscriber (1 ∷ 4 ∷ []), stopped)
start_stops_example =
    start_stops subscriber (1 ∷ 4 ∷ []) (2 ∷ []) 9 ((1, refl, refl), ((4, refl, refl), tt))
      (refl, (refl, tt)) refl

-- A parser that reads no command name in an encoding, and the two sides of JSON for safe replies.
abbrev unnamed : Parsed
unnamed = record { errors = none; command_names = none ∷ [] }

abbrev nameless : Shell
nameless = record {
  parse = λ t. some unnamed;
  to_json = λ r. codes "{}";
  loads = λ t. some safe_reply;
}

nothing_named : (m : String) → In (some m) unnamed.command_names → ⊥
nothing_named m i = elim (In-cons i) [ inl e ↦ cc e | inr j ↦ elim j [ ] ]

nameless-NamesWithin : NamesWithin nameless
nameless-NamesWithin t q m _ e i =
    let same : q ≡ unnamed = cc e in
    absurd (nothing_named m (subst (λ p. In (some m) p.command_names) same i))

ps_audit-exchange_example :
    let r = ps_audit (exchange nameless (codes "Invoke-WebRequest a.b")) in
    (r.is_safe ≡ true) × ((r.capabilities network ≡ true) ↔ (network ≡ exec))
ps_audit-exchange_example =
    ps_audit-exchange nameless (codes "Invoke-WebRequest a.b") unnamed network nameless-NamesWithin
      refl refl refl (λ n i _. nothing_named n i)
