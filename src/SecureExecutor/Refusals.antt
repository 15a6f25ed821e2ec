-- ===== src/SecureExecutor/Refusals.antt =====
-- What the validator refuses.
use universal_cross_shell_ex.Prelude.{
  ℕ, ◌+◌, ◌≡◌, inl, inr, refl, true, false, List, [], ◌∷◌, Option, none, some, In, here, there,
  Bool-cases,
}
use universal_cross_shell_ex.Prelude.Text.{Text}
use universal_cross_shell_ex.Prelude.Regex.{Regex, nullable, search_in, search_in-nullable}
use universal_cross_shell_ex.Prelude.Result.{err}
use universal_cross_shell_ex.SecureExecutor.{
  SecureContext, Validation, validate, is_valid_context, is_dangerous, first_match,
  dangerous_patterns,
}
use universal_cross_shell_ex.SecureExecutor.Run.{Failure, Machine, on_validation, execute}

-- Where some pattern matches the empty text, some pattern is found.
first_match-some :
    (cmd : Text) (i : ℕ) {r : Regex} (rs : List Regex)
    → In r rs
    → nullable r ≡ true
    → (j : ℕ) × (first_match cmd i rs ≡ some j)
first_match-some cmd i [] k h = elim k [ ]
first_match-some cmd i (r ∷ rs) here h = (i, rw (search_in-nullable r cmd h))
first_match-some cmd i (r ∷ rs) (there k) h = elim (Bool-cases (search_in r cmd)) [
  | inl e ↦ (i, rw e)
  | inr e ↦ let (j, q) = first_match-some cmd (i + 1) rs k h in (j, rw e q)
]

-- Every text matches a dangerous pattern, because the last pattern has an empty alternative.
is_dangerous-some : (cmd : Text) → (j : ℕ) × (is_dangerous cmd ≡ some j)
unfolding is_dangerous
is_dangerous-some cmd =
    first_match-some cmd 0 dangerous_patterns (there (there (there (there (there (there here))))))
      refl

validate-refuses :
    (tokens : Option (List Text)) (ctx : SecureContext) → (validate tokens ctx).0 ≡ false
unfolding validate
validate-refuses none ctx = refl
validate-refuses (some ts) ctx = let (j, e) = is_dangerous-some ctx.command in rw e

on_validation-refuses :
    (m : Machine) (v : Validation) (ctx : SecureContext)
    → v.0 ≡ false
    → (e : Failure) × (on_validation m v ctx ≡ (err e, []))
on_validation-refuses m (false, reason, severity) ctx h = (Failure.rejected reason, refl)
on_validation-refuses m (true, reason, severity) ctx h = cc

-- The executor refuses every command: whatever the context, the tokens, the policy engine and the
-- machine, `execute` raises, and runs and logs nothing. The pattern for a fork bomb ends in an empty
-- alternative, which is found in every text.
pub execute-refuses :
    (m : Machine) (ctx : SecureContext) → (e : Failure) × (execute m ctx ≡ (err e, []))
unfolding execute
execute-refuses m ctx = elim (Bool-cases (is_valid_context m.resolve ctx)) [
  | inr h ↦ (Failure.invalid_context, rw h)
  | inl h ↦
      let (e, q) =
        on_validation-refuses m (validate (m.split ctx.command) ctx) ctx
          (validate-refuses (m.split ctx.command) ctx) in
      (e, rw h q)
]
