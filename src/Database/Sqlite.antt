-- ===== src/Database/Sqlite.antt =====
-- SQLite keeps the contract of a storage.
use universal_cross_shell_ex.Prelude.{
  ℕ, ◌≤◌, zero, suc, ◌≡◌, refl, sym, ap, subst, ◌∙◌, Bool, true, List, [], ◌∷◌, length, map, take,
  In, here, there, All, arith,
}
use universal_cross_shell_ex.Prelude.Json.{Json}
use universal_cross_shell_ex.Prelude.Order.{Descending, In-take, length-take, All-take}
use universal_cross_shell_ex.Prelude.Result.{ok}
use universal_cross_shell_ex.Ucer.{Ucer}
use universal_cross_shell_ex.Database.{Codec, UcerRow, Tables, row_of, loaded, load_all, sqlite}
use universal_cross_shell_ex.Database.Contract.{IsListing, RoundTrips}
use universal_cross_shell_ex.Database.Rows.{IsUnique, In-select}

-- Each row is that of a record, and each identifier has one row.
pub record IsStored {D : Type 0} (codec : Codec D) (t : Tables D) : Type 0 where
  pub unique : IsUnique (λ r. r.command_id) t.ucer
  pub written : (r : UcerRow D) → In r t.ucer → (u : Ucer) × (r ≡ row_of codec u)

module _ {D : Type 0} (not_after : D → D → Bool) where
  -- No row comes before one with a later text, in the order `not_after` of the column.
  abbrev pub Latest : List (UcerRow D) → Type 0
  Latest [] = Unit
  Latest (r ∷ rs) = All (λ s. not_after s.timestamp r.timestamp ≡ true) rs × Latest rs

  -- `ORDER BY timestamp DESC` gives the rows of the table in that order.
  pub record Orders (order_by : List (UcerRow D) → List (UcerRow D)) : Type 0 where
    pub rows : (r : UcerRow D) (rs : List (UcerRow D)) → In r (order_by rs) → In r rs
    pub latest : (rs : List (UcerRow D)) → Latest (order_by rs)

  -- The texts of `isoformat` are ordered as the times.
  pub record IsChronological (codec : Codec D) : Type 0 where
    pub times : (a b : ℕ) → not_after (codec.isoformat a) (codec.isoformat b) ≡ true → a ≤ b

  take-Latest : (n : ℕ) (rs : List (UcerRow D)) → Latest rs → Latest (take n rs)
  take-Latest zero rs l = tt
  take-Latest (suc n) [] l = tt
  take-Latest (suc n) (r ∷ rs) l =
      (All-take (λ s. not_after s.timestamp r.timestamp ≡ true) n rs l.0, take-Latest n rs l.1)

module _ {D : Type 0} (codec : Codec D) (trips : RoundTrips codec)
    (order_by : List (UcerRow D) → List (UcerRow D)) (now : D) where
  rows_of :
      (rs : List (UcerRow D))
      → ((r : UcerRow D) → In r rs → (u : Ucer) × (r ≡ row_of codec u))
      → (us : List Ucer) × (rs ≡ map (row_of codec) us)
  rows_of [] w = ([], refl)
  rows_of (r ∷ rs) w =
      let (u, e) = w r here in
      let (us, f) = rows_of rs (λ x i. w x (there i)) in (u ∷ us, rw (e, f))

  load_all-map : (us : List Ucer) → load_all codec (map (row_of codec) us) ≡ ok us
  unfolding load_all row_of
  load_all-map [] = refl
  load_all-map (u ∷ us) = rw (trips.ucers u, load_all-map us)

  length-map_rows : (us : List Ucer) → length (map (row_of codec) us) ≡ length us
  length-map_rows [] = refl
  length-map_rows (u ∷ us) = omega (arith, length-map_rows us)

  In-map_rows : {u : Ucer} {us : List Ucer} → In u us → In (row_of codec u) (map (row_of codec) us)
  In-map_rows here = here
  In-map_rows (there i) = there (In-map_rows i)

  module _ (not_after : D → D → Bool) (c : IsChronological not_after codec) where
    All-older :
        (u : Ucer) (us : List Ucer)
        → All (λ s. not_after s.timestamp (row_of codec u).timestamp ≡ true) (map (row_of codec) us)
        → All (λ v. v.timestamp ≤ u.timestamp) us
    unfolding row_of
    All-older u [] a = tt
    All-older u (v ∷ us) a = (c.times v.timestamp u.timestamp a.0, All-older u us a.1)

    Latest-Descending :
        (us : List Ucer)
        → Latest not_after (map (row_of codec) us)
        → Descending (λ u. u.timestamp) us
    Latest-Descending [] l = tt
    Latest-Descending (u ∷ us) l = (All-older u us l.0, Latest-Descending us l.1)

  -- If SQLite orders by the text of the timestamp, the texts are ordered as the times, and each row
  -- is that of a record, one for each identifier, then `list_ucers` returns at most `limit` records,
  -- the newest first, each of which is stored.
  pub sqlite-list_ucers :
      (not_after : D → D → Bool) (limit : ℕ) (s : Tables D)
      → Orders not_after order_by
      → IsChronological not_after codec
      → IsStored codec s
      → (us : List Ucer) × (((sqlite codec order_by now).list_ucers limit s).0 ≡ ok us)
        × IsListing (sqlite codec order_by now) limit s us
  unfolding sqlite row_of
  sqlite-list_ucers not_after limit s o c v =
      let chosen = take limit (order_by s.ucer) in
      let inside : (r : UcerRow D) → In r chosen → In r s.ucer =
        λ r i. o.rows r s.ucer (In-take limit (order_by s.ucer) i) in
      let (us, e) = rows_of chosen (λ r i. v.written r (inside r i)) in
      (
        us,
        ap (load_all codec) e ∙ load_all-map us,
        record {
          bounded =
              omega (arith, length-take limit (order_by s.ucer), ap length e, length-map_rows us);
          newest_first = Latest-Descending not_after c us (
              subst (Latest not_after) e
                (take-Latest not_after limit (order_by s.ucer) (o.latest s.ucer)));
          stored = λ u i.
              let at =
                inside (row_of codec u) (subst (In (row_of codec u)) (sym e) (In-map_rows i)) in
              ap (loaded codec) (In-select (λ r. r.command_id) s.ucer v.unique at)
              ∙ rw (trips.ucers u);
        },
      )
