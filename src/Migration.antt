-- ===== src/Migration.antt =====
-- core/db_migration.py: the migration from SQLite to PostgreSQL. The two servers are a parameter.
pub mod Schemas
pub mod Attempts
pub mod Run
pub mod Copies
use universal_cross_shell_ex.Prelude.{
  ℕ, zero, suc, ◌-◌, String, Bool, true, false, ◌&&◌, List, [], ◌∷◌, ◌++◌, map, length,
  if◌then◌else◌,
}
use universal_cross_shell_ex.Prelude.Text.{Text, codes, starts_with}
use universal_cross_shell_ex.Prelude.Json.{Json}
use universal_cross_shell_ex.Migration.Schemas.{schemas, migration_plan}

-- `self.source`, of SQLite, and `self.target`, of PostgreSQL.
pub data Side : Type 0 where
  source target : Side

abbrev pub Row : Type 0
Row = List Json

-- A call of a server, and whether it returned; otherwise it raised.
pub data Call : Type 0 where
  connect : Side → Call
  execute : Text → Call
  fetch_all : Text → Call
  execute_values : Text → List Row → Call
  commit : Call
  close : Side → Call

abbrev pub Log : Type 0
Log = List (Call × Bool)

pub record Servers : Type 0 where
  pub returns : Log → Call → Bool
  pub rows : Log → Text → List Row

-- Whether `conn` is set, for each side, and the calls so far, the newest first.
pub record Connections : Type 0 where
  pub source_conn : Bool
  pub target_conn : Bool
  pub log : Log

abbrev pub start : Connections
start = record { source_conn = false; target_conn = false; log = [] }

-- An action returns, or raises (`false`).
abbrev pub Action : Type 0
Action = Connections → Bool × Connections

infixl 5 ◌>>◌
abbrev pub ◌>>◌ : Action → Action → Action
◌>>◌ a b c = let (ok, d) = a c in if ok then b d else (false, d)

abbrev pub nothing : Action
nothing c = (true, c)

-- `try: … except Exception`, which goes on.
abbrev pub tolerate : Action → Action
tolerate a c = (true, (a c).1)

-- `str.replace`: `skip` characters of an occurrence are still to be left out.
unfoldable pub replace_from : (old new : Text) (skip : ℕ) → Text → Text
replace_from old new skip [] = []
replace_from old new (suc skip) (c ∷ t) = replace_from old new skip t
replace_from old new zero (c ∷ t) = elim (starts_with old (c ∷ t)) [
  | true ↦ new ++ replace_from old new (length old - 1) t
  | false ↦ c ∷ replace_from old new zero t
]

abbrev pub replaced : (old new : Text) → Text → Text
replaced old new t = replace_from old new zero t

-- `sep.join(xs)`
unfoldable pub join : Text → List Text → Text
join sep [] = []
join sep (x ∷ []) = x
join sep (x ∷ y ∷ xs) = x ++ sep ++ join sep (y ∷ xs)

abbrev pub names : List String → Text
names columns = join (codes ", ") (map codes columns)

unfoldable pub select_query : String → List String → Text
unfolding join
select_query table columns = codes "SELECT " ++ names columns ++ codes " FROM " ++ codes table

-- `', '.join(['%s'] * len(columns))`
abbrev pub placeholders : List String → Text
placeholders columns = join (codes ", ") (map (λ c. codes "%s") columns)

unfoldable pub insert_query : String → List String → Text
unfolding join
insert_query table columns =
    codes "INSERT INTO "
    ++ codes table
    ++ codes " ("
    ++ names columns
    ++ codes ") VALUES ("
    ++ placeholders columns
    ++ codes ")"

abbrev pub set_conn : Side → Connections → Connections
set_conn source c = record c { source_conn = true }
set_conn target c = record c { target_conn = true }

abbrev pub conn : Side → Connections → Bool
conn source c = c.source_conn
conn target c = c.target_conn

module _ (w : Servers) where
  unfoldable pub call : Call → Action
  call x c = let b = w.returns c.log x in (b, record c { log = (x, b) ∷ c.log })

  -- `connect` of the two connections; each raises a `ConnectionError`.
  unfoldable pub connect_to : Side → Action
  unfolding call
  connect_to side = call (connect side) >> λ c. (true, set_conn side c)

  -- `PostgresConnection.execute`
  unfoldable pub execute_query : Text → Action
  unfolding call
  execute_query query = call (execute query) >> call commit

  unfoldable pub create_schema : List (String × Text) → Action
  unfolding execute_query replace_from
  create_schema [] = nothing
  create_schema ((name, schema) ∷ rest) =
      tolerate (execute_query (replaced (codes "INDEX") (codes "KEY") schema)) >> create_schema rest

  -- What follows the fetch: without rows there is nothing to do.
  unfoldable pub insert_rows : Text → List Row → Action
  unfolding call
  insert_rows query [] = nothing
  insert_rows query (r ∷ rs) = call (execute_values query (r ∷ rs)) >> call commit

  unfoldable pub migrate_table : String → List String → Action
  unfolding call insert_rows
  migrate_table table columns c =
      let query = select_query table columns in
      (call (fetch_all query) >> insert_rows (insert_query table columns) (w.rows c.log query)) c

  unfoldable pub migrate_tables : List (String × List String) → Action
  unfolding migrate_table
  migrate_tables [] = nothing
  migrate_tables ((table, columns) ∷ rest) =
      tolerate (migrate_table table columns) >> migrate_tables rest

  -- The `try` of `run_migration`, which answers `True` where it returns.
  unfoldable pub migrate : List (String × Text) → List (String × List String) → Action
  unfolding connect_to create_schema migrate_tables
  migrate tables plan =
      connect_to source >> connect_to target >> create_schema tables >> migrate_tables plan

  unfoldable pub close_conn : Side → Action
  unfolding call
  close_conn side c = if conn side c then call (close side) c else (true, c)

-- What `run_migration` returns, or that it raises.
pub data Outcome : Type 0 where
  answered : Bool → Outcome
  raised : Outcome

module _ (w : Servers) where
  -- The `finally` closes the two connections, and may raise.
  unfoldable pub migrate_and_close :
      List (String × Text) → List (String × List String) → Connections → Outcome × Connections
  unfolding migrate close_conn
  migrate_and_close tables plan c =
      let (answer, d) = migrate w tables plan c in
      let (closed, e) = (close_conn w source >> close_conn w target) d in
      (if closed then answered answer else raised, e)

  unfoldable pub run_migration : Connections → Outcome × Connections
  unfolding migrate_and_close
  run_migration = migrate_and_close schemas migration_plan
