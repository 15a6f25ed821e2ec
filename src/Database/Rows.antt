-- ===== src/Database/Rows.antt =====
-- Tables with a primary key.
use universal_cross_shell_ex.Prelude.{
  String, ◌≡◌, ◌≢◌, refl, ap, ◌∙◌, false, List, [], ◌∷◌, none, some, In, here, there, In-cons,
  Bool-cases, inl, inr,
}
use universal_cross_shell_ex.Prelude.Dict.{same, same→eq, same_refl, same-eq_false}
use universal_cross_shell_ex.Database.{without, select, replace}

module _ {R : Type 0} (key : R → String) where
  select-without :
      (k j : String) (rs : List R)
      → same k j ≡ false
      → select key j (without key k rs) ≡ select key j rs
  unfolding select without
  select-without k j [] h = refl
  select-without k j (r ∷ rs) h = elim (Bool-cases (same (key r) k)) [
    | inl e ↦
        let ne : same (key r) j ≡ false = ap (λ x. same x j) (same→eq (key r) k e) ∙ h in
        rw (e, ne, select-without k j rs h)
    | inr e ↦ rw (e, select-without k j rs h)
  ]

  pub select-replace_self : (r : R) (rs : List R) → select key (key r) (replace key r rs) ≡ some r
  unfolding replace select
  select-replace_self r rs = rw (same_refl (key r))

  pub select-replace_ne :
      (r : R) (j : String) (rs : List R)
      → key r ≢ j
      → select key j (replace key r rs) ≡ select key j rs
  unfolding replace select
  select-replace_ne r j rs h =
      let ne = same-eq_false (key r) j h in rw (ne, select-without (key r) j rs ne)

  -- Each primary key is that of one row.
  abbrev pub IsUnique : List R → Type 0
  IsUnique [] = Unit
  IsUnique (r ∷ rs) = (select key (key r) rs ≡ none) × IsUnique rs

  select-without_self : (k : String) (rs : List R) → select key k (without key k rs) ≡ none
  unfolding select without
  select-without_self k [] = refl
  select-without_self k (r ∷ rs) = elim (Bool-cases (same (key r) k)) [
    | inl e ↦ rw (e, select-without_self k rs)
    | inr e ↦ rw (e, e, select-without_self k rs)
  ]

  without-IsUnique : (k : String) (rs : List R) → IsUnique rs → IsUnique (without key k rs)
  unfolding without
  without-IsUnique k [] u = tt
  without-IsUnique k (r ∷ rs) u = elim (Bool-cases (same (key r) k)) [
    | inl e ↦ rw e (without-IsUnique k rs u.1)
    | inr e ↦
        rw e (select-without k (key r) rs (apart (key r) k e) ∙ u.0, without-IsUnique k rs u.1)
  ]
    where
      apart : (a b : String) → same a b ≡ false → same b a ≡ false
      apart a b h = elim (Bool-cases (same b a)) [
        | inr e ↦ e
        | inl e ↦ cc (h, same→eq b a e, same_refl a)
      ]

  pub replace-IsUnique : (r : R) (rs : List R) → IsUnique rs → IsUnique (replace key r rs)
  unfolding replace
  replace-IsUnique r rs u = (select-without_self (key r) rs, without-IsUnique (key r) rs u)

  pub In-without : (k : String) {r : R} (rs : List R) → In r (without key k rs) → In r rs
  unfolding without
  In-without k [] i = elim i [ ]
  In-without k {r} (x ∷ rs) i = elim (Bool-cases (same (key x) k)) [
    | inl e ↦ there (In-without k rs (rw e at i))
    | inr e ↦ elim (In-cons (rw e at i)) [ inl g ↦ rw g here | inr j ↦ there (In-without k rs j) ]
  ]

  pub In-select : {r : R} (rs : List R) → IsUnique rs → In r rs → select key (key r) rs ≡ some r
  unfolding select
  In-select [] u i = elim i [ ]
  In-select {r} (x ∷ rs) u i = elim (In-cons i) [
    | inl e ↦ rw (e, same_refl (key x))
    | inr j ↦
        let rest = In-select rs u.1 j in
        elim (Bool-cases (same (key x) (key r))) [
          | inr e ↦ rw e rest
          | inl e ↦ cc (u.0, rest, ap (λ k. select key k rs) (same→eq (key x) (key r) e))
        ]
  ]
