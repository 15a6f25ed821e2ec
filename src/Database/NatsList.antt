-- ===== src/Database/NatsList.antt =====
-- The list of the records in the key-value store of NATS.
use mathlib.Core.Option.{some-injective}
use universal_cross_shell_ex.Prelude.{
  ℕ, ◌≤◌, String, length, All, ◌⊎◌, here, there, ◌≡◌, refl, sym, ap, subst, ◌∙◌, true, List, [],
  ◌∷◌, Option, none, some, In, In-cons, arith, Bool-cases, Option-cases, inl, inr,
}
use universal_cross_shell_ex.Prelude.Order.{
  sort_descending, sort_descending-In, sort_descending-Descending, take-Descending, In-take,
  length-take, take-Largest, In-sort_descending,
}
use universal_cross_shell_ex.Prelude.Result.{ok}
use universal_cross_shell_ex.Ucer.{Ucer}
use universal_cross_shell_ex.Database.{
  Codec, Bucket, Cluster, ucer_key, is_ucer_key, connected, entry_of, entries_of, read_entries,
  latest, nats,
}
use universal_cross_shell_ex.Database.Contract.{IsListing, RoundTrips}
use universal_cross_shell_ex.Database.Nats.{IsFiled}

-- `keys` answers, with the keys that have an entry.
pub record IsKeys {B D : Type 0} (client : Bucket B D) (b : B) (ks : List String) : Type 0 where
  pub given : client.keys b ≡ some ks
  pub entry : (k : String) → In k ks → (e : D) × (client.get k b ≡ some e)
  pub key : (k : String) (e : D) → client.get k b ≡ some e → In k ks

-- A record that the list holds, or that has its `limit` records, none of them older.
abbrev pub ListedOrOlder : ℕ → List Ucer → Ucer → Type 0
ListedOrOlder limit us u = In u us ⊎ ((length us ≡ limit) × All (λ v. u.timestamp ≤ v.timestamp) us)

module _ {B D : Type 0} (codec : Codec D) (trips : RoundTrips codec) (client : Bucket B D) where
  -- Where each record that is read comes from.
  read_entries-In :
      (b : B) (ks : List String) (us : List Ucer)
      → read_entries codec client b ks ≡ some us
      → (u : Ucer) → In u us
      → (k : String) × (e : D) × (is_ucer_key k ≡ true)
        × (client.get k b ≡ some e)
        × (codec.model_validate_json e ≡ some u)
  unfolding read_entries
  read_entries-In b [] us h u i = elim (subst (In u) (sym (some-injective _ _ h)) i) [ ]
  read_entries-In b (k ∷ ks) us h u i = elim (Bool-cases (is_ucer_key k)) [
    | inr p ↦ read_entries-In b ks us (rw p at h) u i
    | inl p ↦ elim (Option-cases (client.get k b)) [
      | inl g ↦ cc (rw (p, g) at h)
      | inr (e, g) ↦ elim (Option-cases (codec.model_validate_json e)) [
        | inl f ↦ cc (rw (p, g, f) at h)
        | inr (v, f) ↦ elim (Option-cases (read_entries codec client b ks)) [
          | inl r ↦ cc (rw (p, g, f, r) at h)
          | inr (vs, r) ↦
              let eq : v ∷ vs ≡ us = some-injective _ _ (rw (p, g, f, r) at h) in
              elim (In-cons (subst (In u) (sym eq) i)) [
                | inl q ↦ (k, e, p, g, f ∙ ap some (sym q))
                | inr j ↦ read_entries-In b ks vs r u j
              ]
        ]
      ]
    ]
  ]

  -- The loop reads every key if each entry with the prefix is that of a record.
  read_entries_lem :
      (c : Cluster B) (ks : List String)
      → IsFiled codec client c
      → ((k : String) → In k ks → (e : D) × (client.get k c.kv_ucer ≡ some e))
      → (us : List Ucer) × (read_entries codec client c.kv_ucer ks ≡ some us)
        × ((k : String) (e : D) (u : Ucer)
            → In k ks
            → is_ucer_key k ≡ true
            → client.get k c.kv_ucer ≡ some e
            → codec.model_validate_json e ≡ some u
            → In u us)
  unfolding read_entries
  read_entries_lem c [] v there_is = ([], refl, (λ k e u i p g f. elim i [ ]))
  read_entries_lem c (j ∷ ks) v there_is =
      let (us, read, all_in) = read_entries_lem c ks v (λ k i. there_is k (there i)) in
      let (x, at) = there_is j here in
      elim (Bool-cases (is_ucer_key j)) [
        | inr p ↦ (
          us,
          rw p read,
          (λ k e u i q g f. elim (In-cons i) [
            | inl same_key ↦ cc (p, q, same_key)
            | inr l ↦ all_in k e u l q g f
          ]),
        )
        | inl p ↦
            let (w, wrote, _) = v.entries j x p at in
            let parses : codec.model_validate_json x ≡ some w = rw wrote (trips.ucers w) in
            (
              w ∷ us,
              rw (p, at, parses, read),
              (λ k e u i q g f. elim (In-cons i) [
                | inl same_key ↦
                    let first : u ≡ w = some-injective _ _ (cc (same_key, at, g, f, parses)) in
                    rw first here
                | inr l ↦ there (all_in k e u l q g f)
              ]),
            )
      ]

  entry_stored :
      (c : Cluster B) (u : Ucer) (k : String) (e : D)
      → IsFiled codec client c
      → is_ucer_key k ≡ true
      → client.get k c.kv_ucer ≡ some e
      → codec.model_validate_json e ≡ some u
      → entry_of codec.model_validate_json (client.get (ucer_key u.command_id) c.kv_ucer) ≡ some u
  entry_stored c u k e v p g f =
      let (w, wrote, key) = v.entries k e p g in
      let same_u : w ≡ u =
        some-injective _ _ (sym (trips.ucers w) ∙ ap codec.model_validate_json (sym wrote) ∙ f) in
      let at : k ≡ ucer_key u.command_id = key ∙ ap (λ x. ucer_key x.command_id) same_u in
      ap (λ j. entry_of codec.model_validate_json (client.get j c.kv_ucer)) (sym at) ∙ rw (g, f)

  listing :
      (limit : ℕ) (c : Cluster B) (o : Option (List Ucer))
      → entries_of codec client c.kv_ucer (client.keys c.kv_ucer) ≡ o
      → connected c ≡ true
      → IsFiled codec client c
      → IsListing (nats codec client) limit c (latest limit o)
  unfolding nats
  listing limit c none h e v = record {
    bounded = omega arith;
    newest_first = tt;
    stored = λ u i. elim i [ ];
  }
  listing limit c (some us) h e v = record {
    bounded = length-take limit (sort_descending (λ u. u.timestamp) us);
    newest_first =
        take-Descending (λ u. u.timestamp) limit _
          (sort_descending-Descending (λ u. u.timestamp) us);
    stored = λ u i.
        let j = sort_descending-In (λ u. u.timestamp) us (In-take limit _ i) in
        elim (Option-cases (client.keys c.kv_ucer)) [
          | inl f ↦ cc (rw f at h)
          | inr (ks, f) ↦
              let (k, x, p, g, d) = read_entries-In c.kv_ucer ks us (rw f at h) u j in
              rw e (ap ok (entry_stored c u k x v p g d))
        ];
  }

  newest :
      (limit : ℕ) (us : List Ucer) (u : Ucer)
      → In u us
      → ListedOrOlder limit (latest limit (some us)) u
  newest limit us u i =
      take-Largest (λ v. v.timestamp) limit (sort_descending (λ v. v.timestamp) us)
        (In-sort_descending (λ v. v.timestamp) us i)
        (sort_descending-Descending (λ v. v.timestamp) us)

  -- With a connection, if `keys` answers with the keys that have an entry, and each entry whose key
  -- begins with `ucer.` is that of a record, under its key: `list_ucers` returns at most `limit`
  -- records, the newest first, each of which is stored; and every such entry parses as a record that
  -- is in the list, or the list has `limit` records, none of them older than it.
  pub nats-list_ucers :
      (limit : ℕ) (c : Cluster B) (ks : List String)
      → connected c ≡ true
      → IsKeys client c.kv_ucer ks
      → IsFiled codec client c
      → (us : List Ucer) × (((nats codec client).list_ucers limit c).0 ≡ ok us)
        × IsListing (nats codec client) limit c us
        × ((k : String) (e : D)
            → is_ucer_key k ≡ true
            → client.get k c.kv_ucer ≡ some e
            → (u : Ucer) × (codec.model_validate_json e ≡ some u) × ListedOrOlder limit us u)
  unfolding nats
  nats-list_ucers limit c ks e keys v =
      let o = entries_of codec client c.kv_ucer (client.keys c.kv_ucer) in
      let (all_read, read, all_in) = read_entries_lem c ks v keys.entry in
      let o_eq : o ≡ some all_read = rw (keys.given) read in
      (
        latest limit o,
        rw e,
        listing limit c o refl e v,
        (λ k x p g.
            let (u, wrote, _) = v.entries k x p g in
            let parses : codec.model_validate_json x ≡ some u = rw wrote (trips.ucers u) in
            (
              u,
              parses,
              subst (λ q. ListedOrOlder limit (latest limit q) u) (sym o_eq)
                  (newest limit all_read u (all_in k x u (keys.key k x g) p g parses)),
            )),
      )
