-- ===== src/Database.antt =====
-- core/db.py: the storage of records and of values, by SQLite and by the key-value store of NATS.
-- The statements of SQLite run on a table as a list of rows; the order that `ORDER BY` gives to rows
-- with the same key, the JSON encoding and the client of NATS are parameters.
pub mod Contract
pub mod Rows
pub mod Sqlite
pub mod Nats
pub mod NatsList
use Prim.Native.String.{◌++◌}
use universal_cross_shell_ex.Prelude.{
  ℕ, String, Bool, true, false, List, [], ◌∷◌, Option, none, some, if◌then◌else◌, keep, take,
}
use universal_cross_shell_ex.Prelude.Text.{codes, starts_with}
use universal_cross_shell_ex.Prelude.Json.{Json}
use universal_cross_shell_ex.Prelude.Order.{sort_descending}
use universal_cross_shell_ex.Prelude.Dict.{same}
use universal_cross_shell_ex.Prelude.Result.{Result, ok, err}
use universal_cross_shell_ex.Ucer.{Ucer, Status}

-- What a call of a storage raises.
pub data Fault : Type 0 where
  invalid_json unavailable : Fault

-- `DatabaseBase`, over the state `S` that is stored.
pub record DatabaseBase (S : Type 0) : Type 0 where
  pub save_ucer : Ucer → S → Result Fault (Unit {0}) × S
  pub get_ucer : String → S → Result Fault (Option Ucer) × S
  pub list_ucers : (limit : ℕ) → S → Result Fault (List Ucer) × S
  pub set_kv : String → Json → S → Result Fault (Unit {0}) × S
  pub get_kv : String → S → Result Fault (Option Json) × S

-- `model_dump_json`, `model_validate_json`, `json.dumps`, `json.loads` and `isoformat`.
-- The texts that they give are of a type `D`.
pub record Codec (D : Type 0) : Type 0 where
  pub model_dump_json : Ucer → D
  pub model_validate_json : D → Option Ucer
  pub dumps : Json → D
  pub loads : D → Option Json
  pub isoformat : ℕ → D

pub record UcerRow (D : Type 0) : Type 0 where
  pub command_id : String
  pub timestamp : D
  pub intent : String
  pub ucer_json : D
  pub state_hash : Option String
  pub status : Status
  pub canonical_hash : Option String
  pub control_signature : Option String
  pub execution_signature : Option String
  pub execution_pub_key : Option String

pub record KvRow (D : Type 0) : Type 0 where
  pub key : String
  pub value : D
  pub updated_at : D

pub record Tables (D : Type 0) : Type 0 where
  pub ucer : List (UcerRow D)
  pub kv_store : List (KvRow D)

-- The rows without those of a primary key, and the first row with it.
unfoldable pub without : {R : Type 0} → (R → String) → String → List R → List R
without key k [] = []
without key k (r ∷ rs) = if same (key r) k then without key k rs else r ∷ without key k rs

unfoldable pub select : {R : Type 0} → (R → String) → String → List R → Option R
select key k [] = none
select key k (r ∷ rs) = if same (key r) k then some r else select key k rs

-- `INSERT OR REPLACE`: a row with the primary key is deleted, and the new one is added.
unfoldable pub replace : {R : Type 0} → (R → String) → R → List R → List R
unfolding without
replace key r rs = r ∷ without key (key r) rs

abbrev pub parsed : {A : Type 0} → Option A → Result Fault A
parsed none = err invalid_json
parsed (some a) = ok a

abbrev pub after : {A B : Type 0} → (A → B) → Result Fault A → Result Fault B
after f (ok a) = ok (f a)
after f (err e) = err e

module _ {D : Type 0} (codec : Codec D) where
  unfoldable pub row_of : Ucer → UcerRow D
  row_of u = record {
    command_id = u.command_id;
    timestamp = codec.isoformat u.timestamp;
    intent = u.intent;
    ucer_json = codec.model_dump_json u;
    state_hash = u.state_hash;
    status = u.status;
    canonical_hash = u.canonical_hash;
    control_signature = u.control_signature;
    execution_signature = u.execution_signature;
    execution_pub_key = u.execution_pub_key;
  }

  -- `UCER.model_validate_json(row["ucer_json"]) if row else None`
  abbrev pub loaded : Option (UcerRow D) → Result Fault (Option Ucer)
  loaded none = ok none
  loaded (some r) = after some (parsed (codec.model_validate_json r.ucer_json))

  abbrev pub loaded_value : Option (KvRow D) → Result Fault (Option Json)
  loaded_value none = ok none
  loaded_value (some r) = after some (parsed (codec.loads r.value))

  -- `[f(x) for x in xs]`, where `f` raises at the first that does not parse.
  unfoldable pub load_all : List (UcerRow D) → Result Fault (List Ucer)
  load_all [] = ok []
  load_all (r ∷ rs) =
      let rest = load_all rs in
      elim (codec.model_validate_json r.ucer_json) [
        | none ↦ err invalid_json
        | some u ↦ after (λ us. u ∷ us) rest
      ]

  -- `SQLiteDatabase`, with the order of `ORDER BY timestamp DESC` and the clock.
  unfoldable pub sqlite :
      (order_by : List (UcerRow D) → List (UcerRow D)) (now : D) → DatabaseBase (Tables D)
  unfolding replace select row_of load_all
  sqlite order_by now = record {
    save_ucer = λ u t. (ok tt, record t { ucer = replace (λ r. r.command_id) (row_of u) t.ucer });
    get_ucer = λ id t. (loaded (select (λ r. r.command_id) id t.ucer), t);
    list_ucers = λ limit t. (load_all (take limit (order_by t.ucer)), t);
    set_kv = λ k v t. (
      ok tt,
      record t {
        kv_store =
            replace (λ r. r.key) (record { key = k; value = codec.dumps v; updated_at = now })
              t.kv_store;
      },
    );
    get_kv = λ k t. (loaded_value (select (λ r. r.key) k t.kv_store), t);
  }

-- The client of NATS: its connection (`none`: it raises), and a bucket of keys and values.
pub record Bucket (B D : Type 0) : Type 0 where
  pub put : String → D → B → Option B
  pub get : String → B → Option D
  pub keys : B → Option (List String)

-- The two buckets, and whether there is a connection (`self.nc`).
pub record Cluster (B : Type 0) : Type 0 where
  pub nc : Bool
  pub reachable : Bool
  pub kv_ucer : B
  pub kv_store : B

-- `f"ucer.{command_id}"`
abbrev pub ucer_key : String → String
ucer_key id = "ucer." ++ id

-- `key.startswith("ucer.")`
abbrev pub is_ucer_key : String → Bool
is_ucer_key k = starts_with (codes "ucer.") (codes k)

-- An entry that is read and parsed; any exception gives `None`.
abbrev pub entry_of : {A D : Type 0} → (D → Option A) → Option D → Option A
entry_of parse none = none
entry_of parse (some e) = parse e

-- `entries.sort(key=…, reverse=True)` and `entries[:limit]`; an exception gives `[]`.
abbrev pub latest : ℕ → Option (List Ucer) → List Ucer
latest limit none = []
latest limit (some us) = take limit (sort_descending (λ u. u.timestamp) us)

module _ {B : Type 0} where
  -- `connect`: nothing to do where there is a connection.
  unfoldable pub connected : Cluster B → Bool
  connected c = if c.nc then true else c.reachable

  abbrev pub joined : Cluster B → Cluster B
  joined c = record c { nc = true }

  abbrev pub put_result :
      (B → Cluster B) → Cluster B → Option B → Result Fault (Unit {0}) × Cluster B
  put_result f c none = (err unavailable, c)
  put_result f c (some b) = (ok tt, f b)

module _ {B D : Type 0} (codec : Codec D) (client : Bucket B D) where
  -- The loop over the keys: `none` where a call raises.
  unfoldable pub read_entries : B → List String → Option (List Ucer)
  read_entries b [] = some []
  read_entries b (k ∷ ks) =
      let rest = read_entries b ks in
      if is_ucer_key k
      then elim (entry_of codec.model_validate_json (client.get k b)) [
        | none ↦ none
        | some u ↦ elim rest [ none ↦ none | some us ↦ some (u ∷ us) ]
      ]
      else rest

  abbrev pub entries_of : B → Option (List String) → Option (List Ucer)
  entries_of b none = none
  entries_of b (some ks) = read_entries b ks

  -- `NATSDatabase`: every method connects first, outside of its `try`.
  unfoldable pub nats : DatabaseBase (Cluster B)
  unfolding connected read_entries sort_descending
  nats = record {
    save_ucer = λ u c.
        if connected c
        then put_result (λ b. record (joined c) { kv_ucer = b }) (joined c)
            (client.put (ucer_key u.command_id) (codec.model_dump_json u) c.kv_ucer)
        else (err unavailable, c);
    get_ucer = λ id c.
        if connected c
        then (
          ok (entry_of codec.model_validate_json (client.get (ucer_key id) c.kv_ucer)),
          joined c,
        )
        else (err unavailable, c);
    list_ucers = λ limit c.
        if connected c
        then (ok (latest limit (entries_of c.kv_ucer (client.keys c.kv_ucer))), joined c)
        else (err unavailable, c);
    set_kv = λ k v c.
        if connected c
        then put_result (λ b. record (joined c) { kv_store = b }) (joined c)
            (client.put k (codec.dumps v) c.kv_store)
        else (err unavailable, c);
    get_kv = λ k c.
        if connected c
        then (ok (entry_of codec.loads (client.get k c.kv_store)), joined c)
        else (err unavailable, c);
  }
