-- ===== src/Migration/Attempts.antt =====
-- What a migration attempts, and what it answers.
use universal_cross_shell_ex.Prelude.{
  String, ◌≡◌, refl, ap, ◌∙◌, Bool, true, List, [], ◌∷◌, ◌++◌, map, All, Bool-cases, inl, inr,
}
use universal_cross_shell_ex.Prelude.Text.{Text, codes}
use universal_cross_shell_ex.Migration.{
  Row, Call, execute, fetch_all, execute_values, commit, Log, Servers, Connections, replaced,
  select_query, insert_query, call, execute_query, create_schema, insert_rows, migrate_table,
  migrate_tables,
}

abbrev pub View : Type 0 → Type 0
View X = Call → Bool → List X

-- What a view shows of the calls, the newest first.
unfoldable pub shown : {X : Type 0} → View X → Log → List X
shown v [] = []
shown v ((x, b) ∷ l) = v x b ++ shown v l

-- The queries that were sent to the source, the statements that were sent to the target, and the rows
-- that the target took.
abbrev pub queries : View Text
queries (fetch_all q) b = q ∷ []
queries _ b = []

abbrev pub statements : View Text
statements (execute q) b = q ∷ []
statements _ b = []

abbrev pub rows_taken : View Row
rows_taken (execute_values q rows) true = rows
rows_taken _ _ = []

-- `xs` added one after the other in front of a list.
unfoldable pub onto : {X : Type 0} → List X → List X → List X
onto [] l = l
onto (x ∷ xs) l = onto xs (x ∷ l)

module _ (w : Servers) {X : Type 0} (v : View X) where
  shown-execute_query :
      (q : Text) (c : Connections)
      → ((b : Bool) → v commit b ≡ [])
      → shown v (execute_query w q c).1.log
        ≡ v (execute q) (w.returns c.log (execute q)) ++ shown v c.log
  unfolding execute_query shown call
  shown-execute_query q c h = elim (Bool-cases (w.returns c.log (execute q))) [
    | inr e ↦ rw e
    | inl e ↦ rw (e, h _)
  ]

  shown-insert_rows :
      (q : Text) (rows : List Row) (c : Connections)
      → ((b : Bool) → v commit b ≡ [])
      → ((l : Log) → v (execute_values q rows) (w.returns l (execute_values q rows)) ≡ [])
      → shown v (insert_rows w q rows c).1.log ≡ shown v c.log
  unfolding insert_rows shown call
  shown-insert_rows q [] c h k = refl
  shown-insert_rows q (r ∷ rows) c h k =
      elim (Bool-cases (w.returns c.log (execute_values q (r ∷ rows)))) [
        | inr e ↦ rw e (rw e at (ap (λ x. x ++ shown v c.log) (k c.log)))
        | inl e ↦ rw (e, h _) (rw e at (ap (λ x. x ++ shown v c.log) (k c.log)))
      ]

  shown-migrate_table :
      (table : String) (columns : List String) (c : Connections)
      → ((b : Bool) → v commit b ≡ [])
      → ((l : Log) (rows : List Row)
          → let x = execute_values (insert_query table columns) rows in v x (w.returns l x) ≡ [])
      → let x = fetch_all (select_query table columns) in
        shown v (migrate_table w table columns c).1.log ≡ v x (w.returns c.log x) ++ shown v c.log
  unfolding migrate_table shown call
  shown-migrate_table table columns c h k =
      let x = fetch_all (select_query table columns) in
      elim (Bool-cases (w.returns c.log x)) [
        | inr e ↦ rw e
        | inl e ↦ rw e (
            shown-insert_rows (insert_query table columns)
              (w.rows c.log (select_query table columns)) _ h (λ l. k l _))
      ]

  -- A view that shows no statement shows nothing of the tables' creation, and one that shows
  -- neither queries nor insertions nothing of the copying.
  pub shown-create_schema :
      (tables : List (String × Text)) (c : Connections)
      → ((b : Bool) → v commit b ≡ [])
      → ((q : Text) (b : Bool) → v (execute q) b ≡ [])
      → shown v (create_schema w tables c).1.log ≡ shown v c.log
  unfolding create_schema
  shown-create_schema [] c h k = refl
  shown-create_schema ((t, ddl) ∷ rest) c h k =
      let q = replaced (codes "INDEX") (codes "KEY") ddl in
      shown-create_schema rest (execute_query w q c).1 h k ∙ shown-execute_query q c h ∙ rw (k q _)

  pub shown-migrate_tables :
      (plan : List (String × List String)) (c : Connections)
      → ((b : Bool) → v commit b ≡ [])
      → ((q : Text) (b : Bool) → v (fetch_all q) b ≡ [])
      → All
          (λ t.
            (l : Log) (rows : List Row)
            → let x = execute_values (insert_query t.0 t.1) rows in v x (w.returns l x) ≡ [])
          plan
      → shown v (migrate_tables w plan c).1.log ≡ shown v c.log
  unfolding migrate_tables
  shown-migrate_tables [] c h k i = refl
  shown-migrate_tables ((t, columns) ∷ rest) c h k i =
      shown-migrate_tables rest (migrate_table w t columns c).1 h k i.1
      ∙ shown-migrate_table t columns c h i.0
      ∙ rw (k (select_query t columns) _)

abbrev pub cleaned : List (String × Text) → List Text
cleaned tables = map (λ t. replaced (codes "INDEX") (codes "KEY") t.1) tables

abbrev pub planned : List (String × List String) → List Text
planned plan = map (λ t. select_query t.0 t.1) plan

module _ (w : Servers) where
  pub statements-create_schema :
      (tables : List (String × Text)) (c : Connections)
      → shown statements (create_schema w tables c).1.log
        ≡ onto (cleaned tables) (shown statements c.log)
  unfolding create_schema onto
  statements-create_schema [] c = refl
  statements-create_schema ((t, ddl) ∷ rest) c =
      let q = replaced (codes "INDEX") (codes "KEY") ddl in
      statements-create_schema rest (execute_query w q c).1
      ∙ ap (onto (cleaned rest)) (shown-execute_query w statements q c (λ b. refl))

  pub queries-migrate_tables :
      (plan : List (String × List String)) (c : Connections)
      → shown queries (migrate_tables w plan c).1.log ≡ onto (planned plan) (shown queries c.log)
  unfolding migrate_tables onto
  queries-migrate_tables [] c = refl
  queries-migrate_tables ((t, columns) ∷ rest) c =
      queries-migrate_tables rest (migrate_table w t columns c).1
      ∙ ap (onto (planned rest))
          (shown-migrate_table w queries t columns c (λ b. refl) (λ l rows. refl))
