-- ===== src/Prelude/Regex.antt =====
-- The regular expressions that the program uses, searched for in a text by derivatives.
use Prim.Native.Nat.{ℕ}
use mathlib.Core.Path.{◌≡◌}
use mathlib.Core.Bool.{Bool, true, false, ◌&&◌, ◌||◌}
use mathlib.Core.List.{[], ◌∷◌}
use native.Mathlib.Omega.{arith}
use universal_cross_shell_ex.Prelude.Tests.{◌==◌, if◌then◌else◌}
use universal_cross_shell_ex.Prelude.Text.{Text, lower_code}

pub data Regex : Type 0 where
  never blank : Regex
  class : (ℕ → Bool) → Regex
  seq alt : Regex → Regex → Regex
  many : Regex → Regex

-- A text, whatever its case.
abbrev pub literal : Text → Regex
literal [] = blank
literal (c ∷ cs) = seq (class (λ d. lower_code c == lower_code d)) (literal cs)

abbrev pub nullable : Regex → Bool
nullable never = false
nullable blank = true
nullable (class p) = false
nullable (seq r s) = nullable r && nullable s
nullable (alt r s) = nullable r || nullable s
nullable (many r) = true

abbrev pub deriv : ℕ → Regex → Regex
deriv c never = never
deriv c blank = never
deriv c (class p) = if p c then blank else never
deriv c (seq r s) =
    let d = seq (deriv c r) s in let e = deriv c s in if nullable r then alt d e else d
deriv c (alt r s) = alt (deriv c r) (deriv c s)
deriv c (many r) = seq (deriv c r) (many r)

abbrev pub matches_prefix : Regex → Text → Bool
matches_prefix r [] = nullable r
matches_prefix r (c ∷ t) = nullable r || matches_prefix (deriv c r) t

-- `re.search(r, t)`
unfoldable pub search_in : Regex → Text → Bool
search_in r [] = nullable r
search_in r (c ∷ t) = matches_prefix r (c ∷ t) || search_in r t

-- `re.fullmatch(r, t)`
abbrev pub full_match : Regex → Text → Bool
full_match r [] = nullable r
full_match r (c ∷ t) = full_match (deriv c r) t

-- An expression that matches the empty text is found in every text.
pub search_in-nullable : (r : Regex) (t : Text) → nullable r ≡ true → search_in r t ≡ true
unfolding search_in
search_in-nullable r [] h = h
search_in-nullable r (c ∷ t) h = ground (arith, h)
