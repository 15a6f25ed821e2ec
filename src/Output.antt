-- ===== src/Output.antt =====
-- `normalize_output` of core/executor.py: terminal escape sequences and outer white space go.
use universal_cross_shell_ex.Prelude.{
  ℕ, zero, suc, Bool, ◌&&◌, ◌||◌, [], ◌∷◌, Option, none, some, leb, ◌==◌, if◌then◌else◌,
}
use universal_cross_shell_ex.Prelude.Text.{Text}
use mathlib.Core.Option
use mathlib.Core.List.{reverse}

abbrev in_range : ℕ → ℕ → ℕ → Bool
in_range lo hi c = leb lo c && leb c hi

-- The rest of a control sequence, as the number of characters that it takes: its last character,
-- `[@-~]`, behind intermediate ones, `[ -/]*`, behind parameters, `[0-?]*`.
inters : Text → Option ℕ
inters [] = none
inters (c ∷ t) =
    if in_range 0x20 0x2f c
    then Option.map suc (inters t)
    else if in_range 0x40 0x7e c
    then some 1
    else none

params : Text → Option ℕ
unfolding inters
params [] = none
params (c ∷ t) = if in_range 0x30 0x3f c then Option.map suc (params t) else inters (c ∷ t)

-- How many characters after an escape character the pattern takes.
escape : Text → Option ℕ
unfolding params
escape [] = none
escape (c ∷ t) =
    if c == b'['
    then Option.map suc (params t)
    else if in_range 0x40 0x5a c || in_range 0x5c 0x5f c
    then some 1
    else none

-- `ansi_escape.sub("", text)`: the number says how many characters of a match are left to skip.
strip_escapes : ℕ → Text → Text
unfolding escape
strip_escapes n [] = []
strip_escapes (suc n) (c ∷ t) = strip_escapes n t
strip_escapes zero (c ∷ t) = elim (if c == 27 then escape t else none) [
  | some n ↦ strip_escapes n t
  | none ↦ c ∷ strip_escapes zero t
]

abbrev pub is_space : ℕ → Bool
is_space c = in_range 9 13 c || in_range 28 32 c

unfoldable pub lstrip : Text → Text
lstrip [] = []
lstrip (c ∷ t) = if is_space c then lstrip t else c ∷ t

-- `str.strip`
unfoldable pub strip : Text → Text
unfolding lstrip
strip t = reverse (lstrip (reverse (lstrip t)))

unfoldable pub normalize_output : Text → Text
unfolding strip strip_escapes
normalize_output t = strip (strip_escapes 0 t)
