-- ===== src/Prelude/Order.antt =====
-- Sorting by a key, the largest first, and the first elements of a list.
use universal_cross_shell_ex.Prelude.Tests.{leb, if◌then◌else◌, Bool-cases, leb→le}
use universal_cross_shell_ex.Prelude.Lists.{length, take, In, here, there, In-cons, All}
use Prim.Native.Nat.{ℕ, zero, suc, ◌≤◌}
use mathlib.Core.Path.{◌≡◌, refl, ap}
use mathlib.Core.Logic.{◌⊎◌, inl, inr}
use mathlib.Core.Bool.{false}
use mathlib.Core.List.{List, [], ◌∷◌}
use native.Mathlib.Omega.{arith}

module _ {A : Type 0} where
  pub length-take : (n : ℕ) (xs : List A) → length (take n xs) ≤ n
  length-take zero xs = omega arith
  length-take (suc n) [] = omega arith
  length-take (suc n) (x ∷ xs) = omega (arith, length-take n xs)

  pub take-all : (n : ℕ) (xs : List A) → length xs ≤ n → take n xs ≡ xs
  take-all zero [] h = refl
  take-all (suc n) [] h = refl
  take-all zero (x ∷ xs) h = absurd (none_below (length xs) h)
    where
      none_below : (m : ℕ) → ¬ (suc m ≤ 0)
      none_below m = omega arith
  take-all (suc n) (x ∷ xs) h = rw (take-all n xs (omega (arith, h)))

  pub In-take : (n : ℕ) {x : A} (xs : List A) → In x (take n xs) → In x xs
  In-take zero xs i = elim i [ ]
  In-take (suc n) [] i = elim i [ ]
  In-take (suc n) {x} (y ∷ xs) i = elim (In-cons i) [
    | inl e ↦ rw e here
    | inr j ↦ there (In-take n xs j)
  ]

  pub All-take : (P : A → Type 0) (n : ℕ) (xs : List A) → All P xs → All P (take n xs)
  All-take P zero xs a = tt
  All-take P (suc n) [] a = tt
  All-take P (suc n) (x ∷ xs) a = (a.0, All-take P n xs a.1)

  All-In : (P : A → Type 0) (xs : List A) → All P xs → {x : A} → In x xs → P x
  All-In P [] a i = elim i [ ]
  All-In P (y ∷ ys) a i = elim (In-cons i) [ inl e ↦ rw e (a.0) | inr j ↦ All-In P ys a.1 j ]

module _ {A : Type 0} (key : A → ℕ) where
  unfoldable insert_by : A → List A → List A
  insert_by x [] = x ∷ []
  insert_by x (y ∷ ys) = if leb (key y) (key x) then x ∷ y ∷ ys else y ∷ insert_by x ys

  -- `sorted(xs, key=…, reverse=True)`: elements with the same key keep their order.
  unfoldable pub sort_descending : List A → List A
  unfolding insert_by
  sort_descending [] = []
  sort_descending (x ∷ xs) = insert_by x (sort_descending xs)

  -- No element comes before one with a larger key.
  abbrev pub Descending : List A → Type 0
  Descending [] = Unit
  Descending (x ∷ xs) = All (λ y. key y ≤ key x) xs × Descending xs

  insert_by-In : (x : A) {z : A} (ys : List A) → In z (insert_by x ys) → (z ≡ x) ⊎ In z ys
  unfolding insert_by
  insert_by-In x [] i = In-cons i
  insert_by-In x (y ∷ ys) i = elim (Bool-cases (leb (key y) (key x))) [
    | inl e ↦ In-cons (rw e at i)
    | inr e ↦ elim (In-cons (rw e at i)) [
      | inl g ↦ inr (rw g here)
      | inr j ↦ elim (insert_by-In x ys j) [ inl g ↦ inl g | inr k ↦ inr (there k) ]
    ]
  ]

  In-insert_by : (x : A) {z : A} (ys : List A) → (z ≡ x) ⊎ In z ys → In z (insert_by x ys)
  unfolding insert_by
  In-insert_by x [] (inl e) = rw e here
  In-insert_by x [] (inr i) = there i
  In-insert_by x (y ∷ ys) i = elim (Bool-cases (leb (key y) (key x))) [
    | inl e ↦ rw e (elim i [ inl g ↦ rw g here | inr j ↦ there j ])
    | inr e ↦ rw e (elim i [
      | inl g ↦ there (In-insert_by x ys (inl g))
      | inr j ↦ elim (In-cons j) [ inl g ↦ rw g here | inr k ↦ there (In-insert_by x ys (inr k)) ]
    ])
  ]

  pub sort_descending-In : {z : A} (xs : List A) → In z (sort_descending xs) → In z xs
  unfolding sort_descending
  sort_descending-In [] i = elim i [ ]
  sort_descending-In (x ∷ xs) i = elim (insert_by-In x (sort_descending xs) i) [
    | inl e ↦ rw e here
    | inr j ↦ there (sort_descending-In xs j)
  ]

  pub In-sort_descending : {z : A} (xs : List A) → In z xs → In z (sort_descending xs)
  unfolding sort_descending
  In-sort_descending [] i = elim i [ ]
  In-sort_descending (x ∷ xs) i = elim (In-cons i) [
    | inl e ↦ In-insert_by x (sort_descending xs) (inl e)
    | inr j ↦ In-insert_by x (sort_descending xs) (inr (In-sort_descending xs j))
  ]

  All-weaken : {m n : ℕ} (ys : List A) → m ≤ n → All (λ y. key y ≤ m) ys → All (λ y. key y ≤ n) ys
  All-weaken [] h a = tt
  All-weaken (y ∷ ys) h a = (omega (arith, h, a.0), All-weaken ys h a.1)

  insert_by-All :
      (x : A) {n : ℕ} (ys : List A)
      → key x ≤ n
      → All (λ y. key y ≤ n) ys
      → All (λ y. key y ≤ n) (insert_by x ys)
  unfolding insert_by
  insert_by-All x [] h a = (h, tt)
  insert_by-All x (y ∷ ys) h a = elim (Bool-cases (leb (key y) (key x))) [
    | inl e ↦ rw e (h, a)
    | inr e ↦ rw e (a.0, insert_by-All x ys h a.1)
  ]

  insert_by-Descending : (x : A) (ys : List A) → Descending ys → Descending (insert_by x ys)
  unfolding insert_by
  insert_by-Descending x [] d = (tt, tt)
  insert_by-Descending x (y ∷ ys) d = elim (Bool-cases (leb (key y) (key x))) [
    | inl e ↦ let le = leb→le (key y) (key x) e in rw e ((le, All-weaken ys le d.0), d)
    | inr e ↦
        rw e (insert_by-All x ys (not_leb (key y) (key x) e) d.0, insert_by-Descending x ys d.1)
  ]
    where
      not_leb : (m n : ℕ) → leb m n ≡ false → n ≤ m
      not_leb m n h = ground arith

  pub sort_descending-Descending : (xs : List A) → Descending (sort_descending xs)
  unfolding sort_descending
  sort_descending-Descending [] = tt
  sort_descending-Descending (x ∷ xs) =
      insert_by-Descending x (sort_descending xs) (sort_descending-Descending xs)

  pub take-Descending : (n : ℕ) (xs : List A) → Descending xs → Descending (take n xs)
  take-Descending zero xs d = tt
  take-Descending (suc n) [] d = tt
  take-Descending (suc n) (x ∷ xs) d =
      (All-take (λ y. key y ≤ key x) n xs d.0, take-Descending n xs d.1)

  -- An element that is not among the first `n` of a list in descending order stands after `n` others,
  -- none of which has a smaller key.
  pub take-Largest :
      (n : ℕ) {x : A} (xs : List A)
      → In x xs
      → Descending xs
      → In x (take n xs) ⊎ ((length (take n xs) ≡ n) × All (λ y. key x ≤ key y) (take n xs))
  take-Largest zero xs i d = inr (refl, tt)
  take-Largest (suc n) [] i d = elim i [ ]
  take-Largest (suc n) {x} (y ∷ ys) i d = elim (In-cons i) [
    | inl e ↦ inl (rw e here)
    | inr j ↦ elim (take-Largest n ys j d.1) [
      | inl k ↦ inl (there k)
      | inr (l, a) ↦ inr (ap suc l, (All-In (λ z. key z ≤ key y) ys d.0 j, a))
    ]
  ]

  length-insert_by : (x : A) (ys : List A) → length (insert_by x ys) ≡ suc (length ys)
  unfolding insert_by
  length-insert_by x [] = refl
  length-insert_by x (y ∷ ys) = elim (Bool-cases (leb (key y) (key x))) [
    | inl e ↦ rw e
    | inr e ↦ rw e (omega (arith, length-insert_by x ys))
  ]

  pub length-sort_descending : (xs : List A) → length (sort_descending xs) ≡ length xs
  unfolding sort_descending
  length-sort_descending [] = refl
  length-sort_descending (x ∷ xs) =
      omega (arith, length-insert_by x (sort_descending xs), length-sort_descending xs)
