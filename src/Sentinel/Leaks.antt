-- ===== src/Sentinel/Leaks.antt =====
-- Which outputs the sentinel takes for a leak.
use universal_cross_shell_ex.Prelude.{
  ℕ, String, ◌≡◌, ◌↔◌, ◌⊎◌, refl, Bool, true, false, not, ◌&&◌, ◌||◌, List, [], ◌∷◌, ◌++◌, arith,
  In, here, there, if◌then◌else◌, ◌==◌,
}
use universal_cross_shell_ex.Prelude.Text.{
  Text, codes, lower, lower_code, is_upper, starts_with, contains, contains_any,
}
use universal_cross_shell_ex.Types.{network, ExecutionContext}
use universal_cross_shell_ex.Ucer.{ExecutionTrace}
use universal_cross_shell_ex.Sentinel.{inspect_trace, non_empty}

-- No lowered character is an upper-case letter.
lower_code-ne : (c d : ℕ) → is_upper c ≡ true → (c == lower_code d) ≡ false
lower_code-ne c d h = ground arith

starts_with-lower :
    (p : Text) {c : ℕ} (t : Text) → In c p → is_upper c ≡ true → starts_with p (lower t) ≡ false
unfolding starts_with lower
starts_with-lower [] t i h = elim i [ ]
starts_with-lower (c ∷ p) [] i h = refl
starts_with-lower (c ∷ p) (d ∷ t) here h = rw (lower_code-ne c d h)
starts_with-lower (x ∷ p) (d ∷ t) (there i) h = ground (arith, starts_with-lower p t i h)

-- A pattern with an upper-case letter is in no lowered text.
contains-lower :
    (p : Text) {c : ℕ} (t : Text) → In c p → is_upper c ≡ true → contains p (lower t) ≡ false
unfolding contains lower
contains-lower p [] i h = starts_with-lower p [] i h
contains-lower p (d ∷ t) i h =
    ground (arith, starts_with-lower p (d ∷ t) i h, contains-lower p t i h)

-- The sentinel accepts a trace exactly when the context grants the network or its log is empty,
-- and the lowered output contains none of `password=`, `secret=` and `key=`: the fourth pattern, a
-- private key's header in capitals, is in no lowered output and rejects nothing.
pub inspect_trace_iff :
    (log : String → List String) (trace : ExecutionTrace) (context : ExecutionContext)
    → let output = lower (trace.stdout ++ trace.stderr) in
      (inspect_trace log trace context ≡ true) ↔ (
        ((context.capabilities network ≡ true) ⊎ (non_empty (log context.execution_id) ≡ false))
        × (contains (codes "password=") output ≡ false)
        × (contains (codes "secret=") output ≡ false)
        × (contains (codes "key=") output ≡ false))
unfolding inspect_trace contains_any
inspect_trace_iff log trace context =
    let output = trace.stdout ++ trace.stderr in
    let dead = contains-lower (codes "BEGIN RSA PRIVATE KEY") output here refl in
    rw dead (decide_iff (context.capabilities network) (non_empty (log context.execution_id)) _ _ _)
  where
    decide_iff :
        (n l a b c : Bool)
        → ((if not n && l then false else not (a || (b || (c || (false || false))))) ≡ true)
          ↔ (((n ≡ true) ⊎ (l ≡ false)) × (a ≡ false) × (b ≡ false) × (c ≡ false))
    decide_iff n l a b c = ground arith
