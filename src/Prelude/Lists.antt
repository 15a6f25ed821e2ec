-- ===== src/Prelude/Lists.antt =====
-- Lists measured by native numbers, quantifiers over lists as tests and as predicates.
use Prim.Native.Nat.{ℕ, zero, suc, ◌+◌}
use mathlib.Core.Path.{◌≡◌, refl}
use mathlib.Core.Logic.{◌↔◌, ◌⊎◌, inl, inr}
use mathlib.Core.Bool.{Bool, true, false, ◌&&◌, ◌||◌}
use mathlib.Core.List.{List, [], ◌∷◌, ◌++◌}
use native.Mathlib.Omega.{arith}
use universal_cross_shell_ex.Prelude.Tests.{if◌then◌else◌, Bool-cases, and_iff}

module _ {ℓ} {A : Type ℓ} where
  abbrev pub length : List A → ℕ
  length [] = 0
  length (x ∷ xs) = suc (length xs)

  abbrev pub take : ℕ → List A → List A
  take zero xs = []
  take (suc n) [] = []
  take (suc n) (x ∷ xs) = x ∷ take n xs

  -- Python's `any(p(x) for x in xs)` and `all(p(x) for x in xs)`.
  abbrev pub any : (A → Bool) → List A → Bool
  any p [] = false
  any p (x ∷ xs) = p x || any p xs

  abbrev pub all : (A → Bool) → List A → Bool
  all p [] = true
  all p (x ∷ xs) = p x && all p xs

  -- `[x for x in xs if p(x)]`
  abbrev pub keep : (A → Bool) → List A → List A
  keep p [] = []
  keep p (x ∷ xs) = if p x then x ∷ keep p xs else keep p xs

  abbrev pub All {κ} : (A → Type κ) → List A → Type κ
  All P [] = Unit
  All P (x ∷ xs) = P x × All P xs

  -- `x` stands in the list.
  pub data In (x : A) : List A → Type ℓ where
    here : {xs : List A} → In x (x ∷ xs)
    there : {y : A} {xs : List A} → In x xs → In x (y ∷ xs)

module _ {ℓ} {A : Type ℓ} where
  pub length-append : (xs ys : List A) → length (xs ++ ys) ≡ length xs + length ys
  length-append [] ys = omega arith
  length-append (x ∷ xs) ys = omega (arith, length-append xs ys)

  pub all_iff : (p : A → Bool) (xs : List A) → (all p xs ≡ true) ↔ All (λ x. p x ≡ true) xs
  all_iff p [] = ((λ _. tt), (λ _. refl))
  all_iff p (x ∷ xs) = (
    (λ h. let (a, b) = (and_iff (p x) (all p xs)).0 h in (a, (all_iff p xs).0 b)),
    (λ h. (and_iff (p x) (all p xs)).1 (h.0, (all_iff p xs).1 h.1)),
  )

  pub All-get {κ} : (P : A → Type κ) {x : A} {xs : List A} → In x xs → All P xs → P x
  All-get P here h = h.0
  All-get P (there i) h = All-get P i h.1

  pub All-of {κ} : {P : A → Type κ} (xs : List A) → ((x : A) → In x xs → P x) → All P xs
  All-of [] f = tt
  All-of (x ∷ xs) f = (f x here, All-of xs (λ y i. f y (there i)))

  pub All-append {κ} : (P : A → Type κ) (xs ys : List A) → All P xs → All P ys → All P (xs ++ ys)
  All-append P [] ys h k = k
  All-append P (x ∷ xs) ys h k = (h.0, All-append P xs ys h.1 k)

  pub any-of_In : (p : A → Bool) {x : A} {xs : List A} → In x xs → p x ≡ true → any p xs ≡ true
  any-of_In p (here {xs = xs}) h = ground arith
  any-of_In p (there {y = y} {xs = xs} i) h = ground (arith, any-of_In p i h)

  pub In-of_any : (p : A → Bool) (xs : List A) → any p xs ≡ true → (x : A) × In x xs × (p x ≡ true)
  In-of_any p [] h = cc
  In-of_any p (x ∷ xs) h = elim (Bool-cases (p x)) [
    | inl e ↦ (x, here, e)
    | inr e ↦ let (y, i, f) = In-of_any p xs (rw e at h) in (y, there i, f)
  ]

  pub In-cons : {x y : A} {xs : List A} → In x (y ∷ xs) → (x ≡ y) ⊎ In x xs
  In-cons here = inl refl
  In-cons (there i) = inr i

  -- `[x for x in xs if p(x)]` holds the members that pass.
  pub In-keep : (p : A → Bool) {x : A} (xs : List A) → In x (keep p xs) → In x xs × (p x ≡ true)
  In-keep p [] i = elim i [ ]
  In-keep p {x} (y ∷ xs) i = elim (Bool-cases (p y)) [
    | inl e ↦ elim (In-cons (rw e at i)) [
      | inl same ↦ (rw same here, rw same e)
      | inr j ↦ let (k, q) = In-keep p xs j in (there k, q)
    ]
    | inr e ↦ let (k, q) = In-keep p xs (rw e at i) in (there k, q)
  ]

  pub In-keep_of : (p : A → Bool) {x : A} {xs : List A} → In x xs → p x ≡ true → In x (keep p xs)
  In-keep_of p (here {xs = xs}) e = rw e here
  In-keep_of p (there {y = y} i) e = elim (Bool-cases (p y)) [
    | inl f ↦ rw f (there (In-keep_of p i e))
    | inr f ↦ rw f (In-keep_of p i e)
  ]
