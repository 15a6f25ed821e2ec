-- ===== src/Database/Nats.antt =====
-- The key-value store of NATS keeps the contract of a storage.
use text.Mathlib.TextLemmas.{append_cancel_left}
use mathlib.Core.Option.{some-injective}
use universal_cross_shell_ex.Prelude.{
  String, ◌≡◌, ◌≢◌, sym, ap, subst, ◌∙◌, true, some, Bool-cases, Option-cases, inl, inr,
}
use universal_cross_shell_ex.Prelude.Dict.{same, same→eq, same_refl}
use universal_cross_shell_ex.Prelude.Json.{Json}
use universal_cross_shell_ex.Prelude.Result.{ok}
use universal_cross_shell_ex.Ucer.{Ucer}
use universal_cross_shell_ex.Database.{
  Codec, Bucket, Cluster, ucer_key, is_ucer_key, joined, connected, nats,
}
use universal_cross_shell_ex.Database.Contract.{KeepsUcers, RoundTrips}

-- A bucket: a value that was put is read, and the other keys are as before.
pub record KeepsKeys {B D : Type 0} (client : Bucket B D) : Type 0 where
  pub put_own :
      (k : String) (v : D) (b b' : B) → client.put k v b ≡ some b' → client.get k b' ≡ some v
  pub put_other :
      (k j : String) (v : D) (b b' : B)
      → client.put k v b ≡ some b'
      → k ≢ j
      → client.get j b' ≡ client.get j b

-- Each entry with the prefix is that of a record, under its key.
pub record IsFiled {B D : Type 0} (codec : Codec D) (client : Bucket B D) (c : Cluster B)
    : Type 0 where
  pub entries :
      (k : String) (e : D)
      → is_ucer_key k ≡ true
      → client.get k c.kv_ucer ≡ some e
      → (u : Ucer) × (e ≡ codec.model_dump_json u) × (k ≡ ucer_key u.command_id)

ucer_key-injective : (a b : String) → ucer_key a ≡ ucer_key b → a ≡ b
ucer_key-injective a b e = append_cancel_left "ucer." a b e

module _ {B D : Type 0} (codec : Codec D) (trips : RoundTrips codec) (client : Bucket B D)
    (laws : KeepsKeys client) where
  filed :
      (u : Ucer) (c : Cluster B) (b : B)
      → client.put (ucer_key u.command_id) (codec.model_dump_json u) c.kv_ucer ≡ some b
      → IsFiled codec client c
      → IsFiled codec client (record (joined c) { kv_ucer = b })
  filed u c b f v = record {
    entries = λ k e p at. elim (Bool-cases (same (ucer_key u.command_id) k)) [
      | inl h ↦
          let own = laws.put_own (ucer_key u.command_id) (codec.model_dump_json u) c.kv_ucer b f in
          let eq = same→eq (ucer_key u.command_id) k h in
          (
            u,
            some-injective _ _ (sym (subst (λ j. client.get j b ≡ some e) (sym eq) at) ∙ own),
            sym eq,
          )
      | inr h ↦
          let ne : ucer_key u.command_id ≢ k = λ q.
            cc (h, ap (same (ucer_key u.command_id)) (sym q), same_refl (ucer_key u.command_id)) in
          v.entries k e p (
            sym
              (laws.put_other (ucer_key u.command_id) k (codec.model_dump_json u) c.kv_ucer b f ne)
            ∙ at)
    ];
  }

  save_valid :
      (u : Ucer) (c : Cluster B)
      → IsFiled codec client c
      → IsFiled codec client ((nats codec client).save_ucer u c).1
  unfolding nats
  save_valid u c v = elim (Bool-cases (connected c)) [
    | inr e ↦ rw e v
    | inl e ↦
        elim (Option-cases
          (client.put (ucer_key u.command_id) (codec.model_dump_json u) c.kv_ucer)) [
            | inl f ↦ rw (e, f) (record { entries = v.entries })
            | inr (b, f) ↦ rw (e, f) (filed u c b f v)
          ]
  ]

  set_valid :
      (k : String) (x : Json) (c : Cluster B)
      → IsFiled codec client c
      → IsFiled codec client ((nats codec client).set_kv k x c).1
  unfolding nats
  set_valid k x c v = elim (Bool-cases (connected c)) [
    | inr e ↦ rw e v
    | inl e ↦ elim (Option-cases (client.put k (codec.dumps x) c.kv_store)) [
      | inl f ↦ rw (e, f) (record { entries = v.entries })
      | inr (b, f) ↦ rw (e, f) (record { entries = v.entries })
    ]
  ]

  saved :
      (u : Ucer) (c : Cluster B)
      → ((nats codec client).save_ucer u c).0 ≡ ok tt
      → ((nats codec client).get_ucer u.command_id ((nats codec client).save_ucer u c).1).0
        ≡ ok (some u)
  unfolding nats connected
  saved u c h = elim (Bool-cases (connected c)) [
    | inr e ↦ cc (rw e at h)
    | inl e ↦
        elim (Option-cases
          (client.put (ucer_key u.command_id) (codec.model_dump_json u) c.kv_ucer)) [
            | inl f ↦ cc (rw (e, f) at h)
            | inr (b, f) ↦ rw (
              e,
              f,
              laws.put_own (ucer_key u.command_id) (codec.model_dump_json u) c.kv_ucer b f,
              trips.ucers u,
            )
          ]
  ]

  others :
      (u : Ucer) (id : String) (c : Cluster B)
      → u.command_id ≢ id
      → ((nats codec client).get_ucer id ((nats codec client).save_ucer u c).1).0
        ≡ ((nats codec client).get_ucer id c).0
  unfolding nats connected
  others u id c ne = elim (Bool-cases (connected c)) [
    | inr e ↦ rw (e, e)
    | inl e ↦
        elim (Option-cases
          (client.put (ucer_key u.command_id) (codec.model_dump_json u) c.kv_ucer)) [
            | inl f ↦ rw (e, f)
            | inr (b, f) ↦
                let apart : ucer_key u.command_id ≢ ucer_key id =
                  λ q. ne (ucer_key-injective u.command_id id q) in
                rw (
                  e,
                  f,
                  laws.put_other (ucer_key u.command_id) (ucer_key id) (codec.model_dump_json u)
                      c.kv_ucer b f apart,
                )
          ]
  ]

  values_kept :
      (u : Ucer) (k : String) (c : Cluster B)
      → ((nats codec client).get_kv k ((nats codec client).save_ucer u c).1).0
        ≡ ((nats codec client).get_kv k c).0
  unfolding nats connected
  values_kept u k c = elim (Bool-cases (connected c)) [
    | inr e ↦ rw (e, e)
    | inl e ↦
        elim (Option-cases
          (client.put (ucer_key u.command_id) (codec.model_dump_json u) c.kv_ucer)) [
            | inl f ↦ rw (e, f)
            | inr (b, f) ↦ rw (e, f)
          ]
  ]

  kv_saved :
      (k : String) (v : Json) (c : Cluster B)
      → ((nats codec client).set_kv k v c).0 ≡ ok tt
      → ((nats codec client).get_kv k ((nats codec client).set_kv k v c).1).0 ≡ ok (some v)
  unfolding nats connected
  kv_saved k v c h = elim (Bool-cases (connected c)) [
    | inr e ↦ cc (rw e at h)
    | inl e ↦ elim (Option-cases (client.put k (codec.dumps v) c.kv_store)) [
      | inl f ↦ cc (rw (e, f) at h)
      | inr (b, f) ↦ rw (e, f, laws.put_own k (codec.dumps v) c.kv_store b f, trips.values v)
    ]
  ]

  kv_others :
      (k j : String) (v : Json) (c : Cluster B)
      → k ≢ j
      → ((nats codec client).get_kv j ((nats codec client).set_kv k v c).1).0
        ≡ ((nats codec client).get_kv j c).0
  unfolding nats connected
  kv_others k j v c ne = elim (Bool-cases (connected c)) [
    | inr e ↦ rw (e, e)
    | inl e ↦ elim (Option-cases (client.put k (codec.dumps v) c.kv_store)) [
      | inl f ↦ rw (e, f)
      | inr (b, f) ↦ rw (e, f, laws.put_other k j (codec.dumps v) c.kv_store b f ne)
    ]
  ]

  kv_apart :
      (k id : String) (v : Json) (c : Cluster B)
      → ((nats codec client).get_ucer id ((nats codec client).set_kv k v c).1).0
        ≡ ((nats codec client).get_ucer id c).0
  unfolding nats connected
  kv_apart k id v c = elim (Bool-cases (connected c)) [
    | inr e ↦ rw (e, e)
    | inl e ↦ elim (Option-cases (client.put k (codec.dumps v) c.kv_store)) [
      | inl f ↦ rw (e, f)
      | inr (b, f) ↦ rw (e, f)
    ]
  ]

  -- The storage over NATS keeps what is saved: if the JSON encoding is undone by its decoding and the
  -- bucket keeps what is put, then a record or value whose saving did not raise is read back, saving
  -- a record changes no other record and no value, saving a value changes no other value and no
  -- record, and each entry stays under the key of its record.
  pub nats-KeepsUcers : KeepsUcers (nats codec client) (IsFiled codec client)
  nats-KeepsUcers = record {
    save_valid = save_valid;
    set_valid = set_valid;
    saved = saved;
    others = others;
    values_kept = values_kept;
    kv_saved = kv_saved;
    kv_others = kv_others;
    kv_apart = kv_apart;
  }
