-- ===== src/Prelude/Sets.antt =====
-- Python sets of enum members, as tests of membership: a set has neither order nor repetition.
use mathlib.Core.Path.{◌≡◌, refl}
use mathlib.Core.Logic.{◌↔◌}
use mathlib.Core.Bool.{Bool, true, false, not, ◌&&◌, ◌||◌}
use mathlib.Core.List.{List, [], ◌∷◌}
use native.Mathlib.Omega.{arith}
use universal_cross_shell_ex.Prelude.Lists.{In, here, there}

abbrev pub SetOf : Type 0 → Type 0
SetOf A = A → Bool

-- `==` on the members of an enum.
abbrev pub test : {P : Type 0} → Dec P → Bool
test (yes p) = true
test (no n) = false

pub test_iff : {P : Type 0} (d : Dec P) → (test d ≡ true) ↔ P
test_iff (yes p) = ((λ _. p), (λ _. refl))
test_iff (no n) = ((λ h. cc), (λ p. absurd (n p)))

module _ {A : Type 0} where
  abbrev pub empty : SetOf A
  empty a = false

  abbrev pub union : SetOf A → SetOf A → SetOf A
  union s t a = s a || t a

  -- `s - t`
  abbrev pub diff : SetOf A → SetOf A → SetOf A
  diff s t a = s a && not (t a)

  abbrev pub Included : SetOf A → SetOf A → Type 0
  Included s t = (a : A) → s a ≡ true → t a ≡ true

module _ {A : Type 0} (eq : Discrete A) where
  -- `s.add(x)` and `s.discard(x)`
  abbrev pub insert : A → SetOf A → SetOf A
  insert x s a = test (eq a x) || s a

  abbrev pub discard : A → SetOf A → SetOf A
  discard x s a = not (test (eq a x)) && s a

  -- `set(xs)`
  abbrev pub of_list : List A → SetOf A
  of_list [] a = false
  of_list (x ∷ xs) a = test (eq a x) || of_list xs a

  pub insert_self : (x : A) (s : SetOf A) → insert x s x ≡ true
  insert_self x s = ground (arith, (test_iff (eq x x)).1 refl)

  pub of_list-of_In : {x : A} {xs : List A} → In x xs → of_list xs x ≡ true
  of_list-of_In {x} here = ground (arith, (test_iff (eq x x)).1 refl)
  of_list-of_In (there i) = ground (arith, of_list-of_In i)
