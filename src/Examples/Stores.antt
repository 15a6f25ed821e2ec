-- ===== src/Examples/Stores.antt =====
-- Storage of records and values.
use mathlib.Core.Option.{some-injective}
use universal_cross_shell_ex.Prelude.{
  ℕ, ◌≤◌, String, ◌≡◌, refl, subst, sym, Bool, Bool-cases, true, false, List, [], ◌∷◌, Option, none,
  some, All, In, here, In-cons, leb, arith, inl, inr,
}
use universal_cross_shell_ex.Prelude.Dict.{
  Dict, lookup, insert, lookup-insert_self, lookup-insert_ne, same, same→eq,
}
use universal_cross_shell_ex.Prelude.Json.{Json}
use universal_cross_shell_ex.Prelude.Order.{
  sort_descending, Descending, sort_descending-In, sort_descending-Descending,
}
use universal_cross_shell_ex.Prelude.Result.{ok}
use universal_cross_shell_ex.Ucer.{Ucer}
use universal_cross_shell_ex.Database.{
  Codec, UcerRow, Tables, Bucket, Cluster, is_ucer_key, row_of, select, sqlite, connected, nats,
}
use universal_cross_shell_ex.Database.Contract.{KeepsUcers, IsListing, RoundTrips}
use universal_cross_shell_ex.Database.Sqlite.{
  IsStored, Latest, Orders, IsChronological, sqlite-list_ucers,
}
use universal_cross_shell_ex.Database.Nats.{KeepsKeys, IsFiled, nats-KeepsUcers}
use universal_cross_shell_ex.Database.NatsList.{IsKeys, ListedOrOlder, nats-list_ucers}
use universal_cross_shell_ex.Examples.{ucer}

-- Texts that hold what they encode.
data Doc : Type 0 where
  of_ucer : Ucer → Doc
  of_value : Json → Doc
  of_time : ℕ → Doc

abbrev ucer_in : Doc → Option Ucer
ucer_in (of_ucer u) = some u
ucer_in (of_value v) = none
ucer_in (of_time t) = none

abbrev value_in : Doc → Option Json
value_in (of_ucer u) = none
value_in (of_value v) = some v
value_in (of_time t) = none

abbrev ticks : Doc → ℕ
ticks (of_ucer u) = 0
ticks (of_value v) = 0
ticks (of_time t) = t

abbrev codec : Codec Doc
codec = record {
  model_dump_json = of_ucer;
  model_validate_json = ucer_in;
  dumps = of_value;
  loads = value_in;
  isoformat = of_time;
}

codec-RoundTrips : RoundTrips codec
codec-RoundTrips = record { ucers = λ u. refl; values = λ v. refl }

abbrev not_after : Doc → Doc → Bool
not_after a b = leb (ticks a) (ticks b)

abbrev row_time : UcerRow Doc → ℕ
row_time r = ticks r.timestamp

abbrev order_by : List (UcerRow Doc) → List (UcerRow Doc)
order_by = sort_descending row_time

abbrev Newer : UcerRow Doc → UcerRow Doc → Type 0
Newer r s = not_after s.timestamp r.timestamp ≡ true

All-leb :
    (r : UcerRow Doc) (rs : List (UcerRow Doc))
    → All (λ s. row_time s ≤ row_time r) rs
    → All (Newer r) rs
All-leb r [] a = tt
All-leb r (s ∷ rs) a = (leb_of (row_time s) (row_time r) a.0, All-leb r rs a.1)
  where
    leb_of : (m n : ℕ) → m ≤ n → leb m n ≡ true
    leb_of m n h = ground arith

Latest-of : (rs : List (UcerRow Doc)) → Descending row_time rs → Latest not_after rs
Latest-of [] d = tt
Latest-of (r ∷ rs) d = (All-leb r rs d.0, Latest-of rs d.1)

order_by-Orders : Orders not_after order_by
order_by-Orders = record {
  rows = λ r rs i. sort_descending-In row_time rs i;
  latest = λ rs. Latest-of (order_by rs) (sort_descending-Descending row_time rs);
}

codec-IsChronological : IsChronological not_after codec
codec-IsChronological = record { times = λ a b h. ground arith }

abbrev tables : Tables Doc
tables = record { ucer = row_of codec ucer ∷ []; kv_store = [] }

tables-IsStored : IsStored codec tables
unfolding select
tables-IsStored = record {
  unique = (refl, tt);
  written = λ r i. elim (In-cons i) [ inl e ↦ (ucer, e) | inr j ↦ elim j [ ] ];
}

sqlite-list_ucers_test :
    (us : List Ucer) × (((sqlite codec order_by (of_time 5)).list_ucers 10 tables).0 ≡ ok us)
    × IsListing (sqlite codec order_by (of_time 5)) 10 tables us
sqlite-list_ucers_test =
    sqlite-list_ucers codec codec-RoundTrips order_by (of_time 5) not_after 10 tables
      order_by-Orders codec-IsChronological tables-IsStored

abbrev keys_of : Dict Doc → List String
keys_of [] = []
keys_of ((k, v) ∷ d) = k ∷ keys_of d

abbrev bucket : Bucket (Dict Doc) Doc
bucket = record {
  put = λ k v b. some (insert k v b);
  get = λ k b. lookup k b;
  keys = λ b. some (keys_of b);
}

bucket-KeepsKeys : KeepsKeys bucket
bucket-KeepsKeys = record {
  put_own = λ k v b b' e.
      subst (λ d. lookup k d ≡ some v) (some-injective _ _ e) (lookup-insert_self k v b);
  put_other = λ k j v b b' e ne.
      subst (λ d. lookup j d ≡ lookup j b) (some-injective _ _ e) (lookup-insert_ne k j v b ne);
}

abbrev cluster : Cluster (Dict Doc)
cluster = record {
  nc = false;
  reachable = true;
  kv_ucer = ("ucer.c1", of_ucer ucer) ∷ [];
  kv_store = [];
}

cluster-IsFiled : IsFiled codec bucket cluster
unfolding lookup
cluster-IsFiled = record {
  entries = λ k e p at. elim (Bool-cases (same "ucer.c1" k)) [
    | inl h ↦ (ucer, some-injective _ _ (sym (rw h at at)), sym (same→eq "ucer.c1" k h))
    | inr h ↦ cc (rw h at at)
  ];
}

cluster-IsKeys : IsKeys bucket cluster.kv_ucer ("ucer.c1" ∷ [])
unfolding lookup
cluster-IsKeys = record {
  given = refl;
  entry = λ k i. elim (In-cons i) [ inl e ↦ (of_ucer ucer, rw e refl) | inr j ↦ elim j [ ] ];
  key = λ k e at. elim (Bool-cases (same "ucer.c1" k)) [
    | inl h ↦ subst (λ j. In j ("ucer.c1" ∷ [])) (same→eq "ucer.c1" k h) here
    | inr h ↦ cc (rw h at at)
  ];
}

nats-KeepsUcers_example : KeepsUcers (nats codec bucket) (IsFiled codec bucket)
nats-KeepsUcers_example = nats-KeepsUcers codec codec-RoundTrips bucket bucket-KeepsKeys

nats-list_ucers_example :
    (us : List Ucer) × (((nats codec bucket).list_ucers 10 cluster).0 ≡ ok us)
    × IsListing (nats codec bucket) 10 cluster us
    × ((k : String) (e : Doc)
        → is_ucer_key k ≡ true
        → lookup k cluster.kv_ucer ≡ some e
        → (u : Ucer) × (ucer_in e ≡ some u) × ListedOrOlder 10 us u)
unfolding connected
nats-list_ucers_example =
    nats-list_ucers codec codec-RoundTrips bucket 10 cluster ("ucer.c1" ∷ []) refl cluster-IsKeys
      cluster-IsFiled

-- The newer of two records comes first.
listed_test :
    ((sqlite codec order_by (of_time 5)).list_ucers 1
      ((sqlite codec order_by (of_time 5)).save_ucer
        (record ucer { command_id = "c2"; timestamp = 3 })
        tables).1).0
    ≡ ok (record ucer { command_id = "c2"; timestamp = 3 } ∷ [])
unfolding sqlite sort_descending
listed_test = refl
