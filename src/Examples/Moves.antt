-- ===== src/Examples/Moves.antt =====
-- A migration between databases.
use universal_cross_shell_ex.Prelude.{
  ℕ, arith, ◌≡◌, ◌≢◌, refl, Bool, true, false, [], ◌∷◌, if◌then◌else◌, ◌==◌,
}
use universal_cross_shell_ex.Prelude.Json.{null}
use universal_cross_shell_ex.Migration.{
  Call, connect, execute, fetch_all, execute_values, commit, close, Servers, start, answered,
  run_migration,
}
use universal_cross_shell_ex.Migration.Schemas.{schemas, migration_plan}
use universal_cross_shell_ex.Migration.Attempts.{
  shown, queries, statements, rows_taken, onto, cleaned, planned,
}
use universal_cross_shell_ex.Migration.Run.{reached}
use universal_cross_shell_ex.Migration.Copies.{
  count_placeholders, run_migration-attempts, run_migration-copies_nothing,
}

-- PostgreSQL creates no table, and takes rows by a query with one placeholder.
abbrev answers : Call → Bool
answers (connect side) = true
answers (execute q) = false
answers (fetch_all q) = true
answers (execute_values q rows) = count_placeholders q == 1
answers commit = true
answers (close side) = true

abbrev servers : Servers
servers = record { returns = λ l c. answers c; rows = λ l q. (null ∷ []) ∷ [] }

run_migration-attempts_test :
    let r = run_migration servers start in
    (r.0 ≡ answered (reached servers))
    × (shown statements r.1.log ≡ (if reached servers then onto (cleaned schemas) [] else []))
    × (shown queries r.1.log ≡ (if reached servers then onto (planned migration_plan) [] else []))
run_migration-attempts_test = run_migration-attempts servers (λ l side. refl)

-- A test of equality that fails.
unequal : (n : ℕ) → n ≢ 1 → (n == 1) ≡ false
unequal n h = ground arith

run_migration-copies_nothing_example :
    ((run_migration servers start).0 ≡ answered (reached servers))
    × (shown rows_taken (run_migration servers start).1.log ≡ [])
run_migration-copies_nothing_example =
    run_migration-copies_nothing servers (λ l side. refl)
      (λ l q rows ne. unequal (count_placeholders q) ne)

reached_test : reached servers ≡ true
unfolding reached
reached_test = refl
