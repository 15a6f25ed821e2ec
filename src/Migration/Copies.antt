-- ===== src/Migration/Copies.antt =====
-- What a migration answers, what it sends to the servers and what it copies.
use universal_cross_shell_ex.Prelude.{
  ℕ, ◌+◌, String, ◌≡◌, ◌≢◌, refl, ap, ◌∙◌, true, false, List, [], ◌∷◌, All, All-of, All-get, all,
  all_iff, leb, Bool-cases, inl, inr, if◌then◌else◌, arith,
}
use universal_cross_shell_ex.Prelude.Text.{Text, codes, starts_with}
use universal_cross_shell_ex.Migration.Schemas.{schemas, migration_plan}
use universal_cross_shell_ex.Migration.{
  Side, Row, execute_values, close, Log, Servers, start, insert_query, create_schema,
  migrate_and_close, answered, run_migration,
}
use universal_cross_shell_ex.Migration.Attempts.{
  shown, queries, statements, rows_taken, onto, cleaned, planned, shown-create_schema,
  shown-migrate_tables, statements-create_schema, queries-migrate_tables,
}
use universal_cross_shell_ex.Migration.Run.{
  reached, opened, migrate_and_close-reached, migrate_and_close-unreached,
}

-- The occurrences of the placeholder `%s`.
unfoldable pub count_placeholders : Text → ℕ
count_placeholders [] = 0
count_placeholders (c ∷ t) =
    (if starts_with (codes "%s") (c ∷ t) then 1 else 0) + count_placeholders t

-- The query of a table has another number of placeholders than one.
abbrev pub Crowded : String × List String → Type 0
Crowded t = count_placeholders (insert_query t.0 t.1) ≢ 1

-- `execute_values` refuses a query that has not exactly one placeholder, as psycopg2 documents.
abbrev pub TakesOne : Servers → Type 0
TakesOne w =
    (l : Log) (query : Text) (rows : List Row)
    → count_placeholders query ≢ 1
    → w.returns l (execute_values query rows) ≡ false

many : (n : ℕ) → leb 2 n ≡ true → n ≢ 1
many n h = ground arith

migration_plan-crowded :
    all (λ t. leb 2 (count_placeholders (insert_query t.0 t.1))) migration_plan ≡ true
unfolding count_placeholders insert_query starts_with
migration_plan-crowded = refl

migration_plan-Crowded : All Crowded migration_plan
migration_plan-Crowded = All-of migration_plan (λ t i. many _ (
    All-get (λ x. leb 2 (count_placeholders (insert_query x.0 x.1)) ≡ true) i
      ((all_iff (λ x. leb 2 (count_placeholders (insert_query x.0 x.1))) migration_plan).0
        migration_plan-crowded)))

module _ (w : Servers) (closes : (l : Log) (side : Side) → w.returns l (close side) ≡ true) where
  module _ (tables : List (String × Text)) (plan : List (String × List String)) where
    refused :
        (rest : List (String × List String))
        → TakesOne w
        → All Crowded rest
        → All
            (λ t.
              (l : Log) (rows : List Row)
              → let x = execute_values (insert_query t.0 t.1) rows in
                rows_taken x (w.returns l x) ≡ [])
            rest
    refused [] one crowded = tt
    refused (t ∷ rest) one crowded =
        ((λ l rows. rw (one l (insert_query t.0 t.1) rows crowded.0)), refused rest one crowded.1)

    attempts :
        let r = migrate_and_close w tables plan start in
        (r.0 ≡ answered (reached w))
        × (shown statements r.1.log ≡ (if reached w then onto (cleaned tables) [] else []))
        × (shown queries r.1.log ≡ (if reached w then onto (planned plan) [] else []))
    unfolding shown
    attempts = elim (Bool-cases (reached w)) [
      | inr e ↦ rw e (
        (migrate_and_close-unreached w tables plan statements closes (λ s b. (refl, refl)) e).0,
        (migrate_and_close-unreached w tables plan statements closes (λ s b. (refl, refl)) e).1,
        (migrate_and_close-unreached w tables plan queries closes (λ s b. (refl, refl)) e).1,
      )
      | inl e ↦
          rw (e, migrate_and_close-reached w tables plan closes e)
            (
              refl,
              shown-migrate_tables w statements plan (create_schema w tables opened).1 (λ b. refl)
                    (λ q b. refl) (All-of plan (λ t i l rows. refl))
                  ∙ statements-create_schema w tables opened,
              queries-migrate_tables w plan (create_schema w tables opened).1
                  ∙ ap (onto (planned plan))
                      (shown-create_schema w queries tables opened (λ b. refl) (λ q b. refl)),
            )
    ]

    not_taken :
        TakesOne w
        → All Crowded plan
        → shown rows_taken (migrate_and_close w tables plan start).1.log ≡ []
    unfolding shown
    not_taken one crowded = elim (Bool-cases (reached w)) [
      | inr e ↦
          (migrate_and_close-unreached w tables plan rows_taken closes (λ s b. (refl, refl)) e).1
      | inl e ↦ rw (migrate_and_close-reached w tables plan closes e) (
          shown-migrate_tables w rows_taken plan (create_schema w tables opened).1 (λ b. refl)
            (λ q b. refl) (refused plan one crowded)
          ∙ shown-create_schema w rows_taken tables opened (λ b. refl) (λ q b. refl))
    ]

  -- If closing raises nothing, `run_migration` answers `True` exactly when both connections were made.
  -- Then it has sent the statement of each table, and asked for the columns of each table of the plan,
  -- in their order, whichever of these calls raised; otherwise it has sent and asked for nothing.
  pub run_migration-attempts :
      let r = run_migration w start in
      (r.0 ≡ answered (reached w))
      × (shown statements r.1.log ≡ (if reached w then onto (cleaned schemas) [] else []))
      × (shown queries r.1.log ≡ (if reached w then onto (planned migration_plan) [] else []))
  unfolding run_migration
  run_migration-attempts = attempts schemas migration_plan

  -- If closing raises nothing and `execute_values` refuses every query that has not exactly one
  -- placeholder, then no row is copied, although the answer is `True` whenever both connections were
  -- made.
  pub run_migration-copies_nothing :
      TakesOne w
      → ((run_migration w start).0 ≡ answered (reached w))
        × (shown rows_taken (run_migration w start).1.log ≡ [])
  unfolding run_migration
  run_migration-copies_nothing one = (
    (attempts schemas migration_plan).0,
    not_taken schemas migration_plan one migration_plan-Crowded,
  )
