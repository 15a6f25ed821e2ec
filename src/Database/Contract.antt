-- ===== src/Database/Contract.antt =====
-- What a storage of records and values promises.
use universal_cross_shell_ex.Prelude.{ℕ, ◌≤◌, String, ◌≡◌, ◌≢◌, List, some, length, In}
use universal_cross_shell_ex.Prelude.Json.{Json}
use universal_cross_shell_ex.Prelude.Order.{Descending}
use universal_cross_shell_ex.Prelude.Result.{ok}
use universal_cross_shell_ex.Ucer.{Ucer}
use universal_cross_shell_ex.Database.{DatabaseBase, Codec}

-- Every save leaves a well-formed state well formed. A record whose saving did not raise is read
-- back, and a value likewise; saving a record leaves every other record and all values as they were,
-- and saving a value leaves all records and every other value.
pub record KeepsUcers {S : Type 0} (db : DatabaseBase S) (IsValid : S → Type 0) : Type 0 where
  pub save_valid : (u : Ucer) (s : S) → IsValid s → IsValid (db.save_ucer u s).1
  pub set_valid : (k : String) (v : Json) (s : S) → IsValid s → IsValid (db.set_kv k v s).1
  pub saved :
      (u : Ucer) (s : S)
      → (db.save_ucer u s).0 ≡ ok tt
      → (db.get_ucer u.command_id (db.save_ucer u s).1).0 ≡ ok (some u)
  pub others :
      (u : Ucer) (id : String) (s : S)
      → u.command_id ≢ id
      → (db.get_ucer id (db.save_ucer u s).1).0 ≡ (db.get_ucer id s).0
  pub values_kept :
      (u : Ucer) (k : String) (s : S) → (db.get_kv k (db.save_ucer u s).1).0 ≡ (db.get_kv k s).0
  pub kv_saved :
      (k : String) (v : Json) (s : S)
      → (db.set_kv k v s).0 ≡ ok tt
      → (db.get_kv k (db.set_kv k v s).1).0 ≡ ok (some v)
  pub kv_others :
      (k j : String) (v : Json) (s : S)
      → k ≢ j
      → (db.get_kv j (db.set_kv k v s).1).0 ≡ (db.get_kv j s).0
  pub kv_apart :
      (k id : String) (v : Json) (s : S)
      → (db.get_ucer id (db.set_kv k v s).1).0 ≡ (db.get_ucer id s).0

-- A list of at most `limit` records, the newest first, each of which is stored.
pub record IsListing {S : Type 0} (db : DatabaseBase S) (limit : ℕ) (s : S) (us : List Ucer)
    : Type 0 where
  pub bounded : length us ≤ limit
  pub newest_first : Descending (λ u. u.timestamp) us
  pub stored : (u : Ucer) → In u us → (db.get_ucer u.command_id s).0 ≡ ok (some u)

-- What is written is read back.
pub record RoundTrips {D : Type 0} (codec : Codec D) : Type 0 where
  pub ucers : (u : Ucer) → codec.model_validate_json (codec.model_dump_json u) ≡ some u
  pub values : (v : Json) → codec.loads (codec.dumps v) ≡ some v
