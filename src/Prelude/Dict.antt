-- ===== src/Prelude/Dict.antt =====
-- A Python dict with string keys, in insertion order.
use Prim.Native.String.{String}
use text.Mathlib.Text.{◌==◌ as str_eq}
use text.Mathlib.TextEquality.{eq_iff}
use text.Mathlib.TextPositions.{eq_refl}
use mathlib.Core.Path.{◌≡◌, refl}
use mathlib.Core.Logic.{◌≢◌}
use mathlib.Core.Bool.{Bool, true, false}
use mathlib.Core.Option.{Option, none, some}
use mathlib.Core.List.{List, [], ◌∷◌}
use native.Mathlib.Omega.{arith}
use universal_cross_shell_ex.Prelude.Tests.{if◌then◌else◌}

abbrev pub Dict {ℓ} : Type ℓ → Type ℓ
Dict V = List (String × V)

-- `==` on strings.
abbrev pub same : String → String → Bool
same = str_eq

pub same→eq : (j k : String) → same j k ≡ true → j ≡ k
same→eq j k = (eq_iff j k).0

pub same_refl : (k : String) → same k k ≡ true
same_refl = eq_refl

pub same-eq_false : (j k : String) → j ≢ k → same j k ≡ false
same-eq_false j k h = ground (arith, eq_iff j k)

abbrev pub is_some {ℓ} : {A : Type ℓ} → Option A → Bool
is_some none = false
is_some (some a) = true

module _ {ℓ} {V : Type ℓ} where
  unfoldable pub lookup : String → Dict V → Option V
  lookup k [] = none
  lookup k ((j, v) ∷ d) = if same j k then some v else lookup k d

  -- `d[k] = v`: a key that is present keeps its place.
  unfoldable pub insert : String → V → Dict V → Dict V
  insert k v [] = (k, v) ∷ []
  insert k v ((j, w) ∷ d) = if same j k then (j, v) ∷ d else (j, w) ∷ insert k v d

  -- `d.pop(k, None)`
  unfoldable pub erase : String → Dict V → Dict V
  erase k [] = []
  erase k ((j, w) ∷ d) = if same j k then erase k d else (j, w) ∷ erase k d

  -- `k in d`
  unfoldable pub has : String → Dict V → Bool
  unfolding lookup
  has k d = is_some (lookup k d)

  -- `d.values()`
  unfoldable pub values : Dict V → List V
  values [] = []
  values ((j, v) ∷ d) = v ∷ values d

  pub lookup-insert :
      (k j : String) (v : V) (d : Dict V)
      → lookup j (insert k v d) ≡ (if same k j then some v else lookup j d)
  unfolding lookup insert
  lookup-insert k j v [] = refl
  lookup-insert k j v ((i, w) ∷ d) =
      ground (arith, eq_iff k j, eq_iff i k, eq_iff i j, lookup-insert k j v d)

  pub lookup-insert_self : (k : String) (v : V) (d : Dict V) → lookup k (insert k v d) ≡ some v
  lookup-insert_self k v d = simp (lookup-insert, eq_refl)

  pub lookup-insert_ne :
      (k j : String) (v : V) (d : Dict V) → k ≢ j → lookup j (insert k v d) ≡ lookup j d
  lookup-insert_ne k j v d h = simp (lookup-insert, same-eq_false k j h)

  pub lookup-erase :
      (k j : String) (d : Dict V) → lookup j (erase k d) ≡ (if same k j then none else lookup j d)
  unfolding lookup erase
  lookup-erase k j [] = ground arith
  lookup-erase k j ((i, w) ∷ d) =
      ground (arith, eq_iff k j, eq_iff i k, eq_iff i j, lookup-erase k j d)

  pub has-insert_self : (k : String) (v : V) (d : Dict V) → has k (insert k v d) ≡ true
  unfolding has
  has-insert_self k v d = rw (lookup-insert_self k v d)

module _ {ℓ} {V : Type ℓ} where
  -- `if k in d: d[k].field = …`: the value at a key is changed in place.
  unfoldable pub update : String → (V → V) → Dict V → Dict V
  update k f [] = []
  update k f ((j, v) ∷ d) = if same j k then (j, f v) ∷ d else (j, v) ∷ update k f d

  abbrev pub map_at {κ} : {W : Type κ} → (V → W) → Option V → Option W
  map_at f none = none
  map_at f (some v) = some (f v)

  pub lookup-update :
      (k j : String) (f : V → V) (d : Dict V)
      → lookup j (update k f d) ≡ (if same k j then map_at f (lookup j d) else lookup j d)
  unfolding lookup update
  lookup-update k j f [] = ground arith
  lookup-update k j f ((i, w) ∷ d) =
      ground (arith, eq_iff k j, eq_iff i k, eq_iff i j, lookup-update k j f d)
