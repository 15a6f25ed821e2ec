-- ===== src/Prelude/Text.antt =====
-- Texts as lists of ASCII code points, with the methods of `str` that the program calls on
-- commands and outputs; keys and names are native strings.
use Prim.Native.Nat.{ℕ, ◌+◌}
use Prim.Native.Char.{code}
use Prim.Native.String.{String}
use mathlib.Core.Path.{◌≡◌, refl}
use mathlib.Core.Bool.{Bool, true, false, ◌&&◌, ◌||◌}
use mathlib.Core.List.{List, [], ◌∷◌, map}
use native.Mathlib.Omega.{arith}
use universal_cross_shell_ex.Prelude.Tests.{leb, ◌==◌, if◌then◌else◌}
use universal_cross_shell_ex.Prelude.Lists.{any}

abbrev pub Text : Type 0
Text = List ℕ

-- A text literal.
abbrev pub codes : String → Text
codes String.[] = []
codes (String.◌∷◌ c s) = code c ∷ codes s

abbrev pub is_upper : ℕ → Bool
is_upper c = leb b'A' c && leb c b'Z'

abbrev pub is_letter : ℕ → Bool
is_letter c = is_upper c || leb b'a' c && leb c b'z'

abbrev pub lower_code : ℕ → ℕ
lower_code c = if is_upper c then c + 32 else c

-- `str.lower`
unfoldable pub lower : Text → Text
lower = map lower_code

-- `str.startswith`
unfoldable pub starts_with : Text → Text → Bool
starts_with [] t = true
starts_with (c ∷ p) [] = false
starts_with (c ∷ p) (d ∷ t) = (c == d) && starts_with p t

-- `p in t`
unfoldable pub contains : Text → Text → Bool
unfolding starts_with
contains p [] = starts_with p []
contains p (d ∷ t) = starts_with p (d ∷ t) || contains p t

-- `any(p in t for p in ps)`
unfoldable pub contains_any : List Text → Text → Bool
unfolding contains
contains_any ps t = any (λ p. contains p t) ps

-- `s == t`
unfoldable pub text_eq : Text → Text → Bool
text_eq [] [] = true
text_eq [] (d ∷ t) = false
text_eq (c ∷ s) [] = false
text_eq (c ∷ s) (d ∷ t) = (c == d) && text_eq s t

pub text_eq→eq : (s t : Text) → text_eq s t ≡ true → s ≡ t
unfolding text_eq
text_eq→eq [] [] h = refl
text_eq→eq [] (d ∷ t) h = cc
text_eq→eq (c ∷ s) [] h = cc
text_eq→eq (c ∷ s) (d ∷ t) h = ground (arith, text_eq→eq s t)

pub text_eq_refl : (s : Text) → text_eq s s ≡ true
unfolding text_eq
text_eq_refl [] = refl
text_eq_refl (c ∷ s) = ground (arith, text_eq_refl s)
