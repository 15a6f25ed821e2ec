-- ===== src/Migration/Run.antt =====
-- What a migration answers, what it attempts and what it copies.
use universal_cross_shell_ex.Prelude.{
  String, ◌≡◌, refl, ap, Bool, true, false, List, [], ◌∷◌, Bool-cases, inl, inr, if◌then◌else◌,
}
use universal_cross_shell_ex.Prelude.Text.{Text, codes}
use universal_cross_shell_ex.Migration.{
  Side, source, target, Row, connect, execute, fetch_all, execute_values, close, Log, Servers,
  Connections, start, replaced, select_query, call, connect_to, execute_query, create_schema,
  insert_rows, migrate_table, migrate_tables, migrate, close_conn, answered, migrate_and_close,
}
use universal_cross_shell_ex.Migration.Attempts.{View, shown}

-- The two connections once they are made.
abbrev pub opened : Connections
opened = record {
  source_conn = true;
  target_conn = true;
  log = (connect target, true) ∷ (connect source, true) ∷ [];
}

-- Both ends are open, and an action returned.
record Open (r : Bool × Connections) : Type 0 where
  pub returned : r.0 ≡ true
  pub source_open : r.1.source_conn ≡ true
  pub target_open : r.1.target_conn ≡ true

-- Both connections are made.
unfoldable pub reached : Servers → Bool
reached w =
    if w.returns [] (connect source)
    then w.returns ((connect source, true) ∷ []) (connect target)
    else false

module _ (w : Servers) where
  abbrev OpenAt : Connections → Type 0
  OpenAt c = (c.source_conn ≡ true) × (c.target_conn ≡ true)

  insert_rows-OpenAt :
      (q : Text) (rows : List Row) (c : Connections) → OpenAt c → OpenAt (insert_rows w q rows c).1
  unfolding insert_rows call
  insert_rows-OpenAt q [] c h = h
  insert_rows-OpenAt q (r ∷ rows) c h =
      elim (Bool-cases (w.returns c.log (execute_values q (r ∷ rows)))) [
        | inl e ↦ rw e h
        | inr e ↦ rw e h
      ]

  execute_query-OpenAt : (q : Text) (c : Connections) → OpenAt c → OpenAt (execute_query w q c).1
  unfolding execute_query call
  execute_query-OpenAt q c h = elim (Bool-cases (w.returns c.log (execute q))) [
    | inl e ↦ rw e h
    | inr e ↦ rw e h
  ]

  migrate_table-OpenAt :
      (table : String) (columns : List String) (c : Connections)
      → OpenAt c
      → OpenAt (migrate_table w table columns c).1
  unfolding migrate_table call
  migrate_table-OpenAt table columns c h =
      elim (Bool-cases (w.returns c.log (fetch_all (select_query table columns)))) [
        | inl e ↦ rw e (insert_rows-OpenAt _ _ _ h)
        | inr e ↦ rw e h
      ]

  create_schema-Open :
      (tables : List (String × Text)) (c : Connections) → OpenAt c → Open (create_schema w tables c)
  unfolding create_schema
  create_schema-Open [] c h = record { returned = refl; source_open = h.0; target_open = h.1 }
  create_schema-Open ((t, ddl) ∷ rest) c h =
      create_schema-Open rest _
        (execute_query-OpenAt (replaced (codes "INDEX") (codes "KEY") ddl) c h)

  migrate_tables-Open :
      (plan : List (String × List String)) (c : Connections)
      → OpenAt c
      → Open (migrate_tables w plan c)
  unfolding migrate_tables
  migrate_tables-Open [] c h = record { returned = refl; source_open = h.0; target_open = h.1 }
  migrate_tables-Open ((t, columns) ∷ rest) c h =
      migrate_tables-Open rest _ (migrate_table-OpenAt t columns c h)

  module _ (tables : List (String × Text)) (plan : List (String × List String)) where
    abbrev pub worked : Connections
    worked = (migrate_tables w plan (create_schema w tables opened).1).1

    migrate-worked :
        w.returns [] (connect source) ≡ true
        → w.returns ((connect source, true) ∷ []) (connect target) ≡ true
        → migrate w tables plan start ≡ (true, worked)
    unfolding migrate connect_to call
    migrate-worked e f =
        let a = create_schema-Open tables opened (refl, refl) in
        let b =
          migrate_tables-Open plan (create_schema w tables opened).1
            (a.source_open, a.target_open) in
        rw (e, f, a.returned) (ap (λ x. (x, worked)) b.returned)

    -- A whole run whose ends are closed without an exception.
    abbrev pub closed : Connections → Connections
    closed c = record c { log = (close target, true) ∷ (close source, true) ∷ c.log }

    pub migrate_and_close-reached :
        ((l : Log) (side : Side) → w.returns l (close side) ≡ true)
        → reached w ≡ true
        → migrate_and_close w tables plan start ≡ (answered true, closed worked)
    unfolding migrate_and_close close_conn call reached
    migrate_and_close-reached closes h = elim (Bool-cases (w.returns [] (connect source))) [
      | inr e ↦ cc (rw e at h)
      | inl e ↦
          let f : w.returns ((connect source, true) ∷ []) (connect target) ≡ true = rw e at h in
          let a = create_schema-Open tables opened (refl, refl) in
          let b =
            migrate_tables-Open plan (create_schema w tables opened).1
              (a.source_open, a.target_open) in
          rw (migrate-worked e f)
            (rw (b.source_open, b.target_open, closes _ source, closes _ target))
    ]

    pub migrate_and_close-unreached :
        {X : Type 0} (v : View X)
        → ((l : Log) (side : Side) → w.returns l (close side) ≡ true)
        → ((side : Side) (b : Bool) → (v (connect side) b ≡ []) × (v (close side) b ≡ []))
        → reached w ≡ false
        → ((migrate_and_close w tables plan start).0 ≡ answered false)
          × (shown v (migrate_and_close w tables plan start).1.log ≡ [])
    unfolding migrate_and_close migrate connect_to close_conn call reached shown
    migrate_and_close-unreached v closes silent h =
        elim (Bool-cases (w.returns [] (connect source))) [
          | inr e ↦ (rw e, rw (e, (silent source _).0))
          | inl e ↦
              let f : w.returns ((connect source, true) ∷ []) (connect target) ≡ false =
                rw e at h in
              (
                rw (e, f, closes _ source),
                rw (
                  e,
                  f,
                  closes _ source,
                  (silent source _).0,
                  (silent source _).1,
                  (silent target _).0,
                ),
              )
        ]
