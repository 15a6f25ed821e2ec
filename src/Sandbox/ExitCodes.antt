-- ===== src/Sandbox/ExitCodes.antt =====
-- The exit code that is read from the line after the marker.
use mathlib.Core.List.{reverse, reverse_aux-eq, reverse-append, reverse-reverse}
use universal_cross_shell_ex.Prelude.{
  ℕ, ◌+◌, ◌*◌, ◌-◌, ◌≤◌, ◌≡◌, refl, ap, sym, subst, ◌∙◌, false, ◌==◌, [], ◌∷◌, ◌++◌, some, All,
  arith,
}
use universal_cross_shell_ex.Prelude.Text.{Text, contains, starts_with}
use universal_cross_shell_ex.Ucer.{exited}
use universal_cross_shell_ex.Output.{is_space, lstrip, strip}
use universal_cross_shell_ex.Sandbox.{
  digits, int_of, until_colon, second_part, exit_tag, exit_code_of,
}

abbrev pub IsDigit : ℕ → Type 0
IsDigit c = (b'0' ≤ c) × (c ≤ b'9')

-- The number that digits stand for in base ten, after those that were read.
abbrev pub decimal : ℕ → Text → ℕ
decimal n [] = n
decimal n (c ∷ t) = decimal (n * 10 + (c - b'0')) t

digits-decimal : (n : ℕ) (t : Text) → All IsDigit t → digits n t ≡ some (decimal n t)
unfolding digits
digits-decimal n [] a = refl
digits-decimal n (c ∷ t) a =
    ground (arith, a.0.0, a.0.1, digits-decimal (n * 10 + (c - b'0')) t a.1)

int_of-decimal :
    (c : ℕ) (t : Text) → All IsDigit (c ∷ t) → int_of (c ∷ t) ≡ some (exited (decimal 0 (c ∷ t)))
unfolding int_of
int_of-decimal c [] a = rw (digits-decimal 0 (c ∷ []) a)
int_of-decimal c (d ∷ t) a =
    let no_sign : (c == b'-') ≡ false = ground (arith, a.0.0) in
    rw (no_sign, digits-decimal 0 (c ∷ d ∷ t) a)

until_colon-digits : (t : Text) → All IsDigit t → until_colon (t ++ (10 ∷ [])) ≡ t ++ (10 ∷ [])
unfolding until_colon
until_colon-digits [] a = refl
until_colon-digits (c ∷ t) a =
    let no_colon : (c == b':') ≡ false = ground (arith, a.0.1) in
    rw (no_colon, until_colon-digits t a.1)

lstrip-digits : (t : Text) → All IsDigit t → lstrip t ≡ t
unfolding lstrip
lstrip-digits [] a = refl
lstrip-digits (c ∷ t) a = let no_space : is_space c ≡ false = ground (arith, a.0.0) in rw no_space

All-snoc : (c : ℕ) (t : Text) → IsDigit c → All IsDigit t → All IsDigit (t ++ (c ∷ []))
All-snoc c [] d a = (d, tt)
All-snoc c (e ∷ t) d a = (a.0, All-snoc c t d a.1)

All-reverse : (t : Text) → All IsDigit t → All IsDigit (reverse t)
All-reverse [] a = tt
All-reverse (c ∷ t) a =
    subst (All IsDigit) (sym (reverse_aux-eq t (c ∷ [])))
      (All-snoc c (reverse t) a.0 (All-reverse t a.1))

first_stays : {c : ℕ} {t : Text} → is_space c ≡ false → lstrip (c ∷ t) ≡ c ∷ t
unfolding lstrip
first_stays e = rw e

line_end : (t : Text) → All IsDigit t → lstrip (10 ∷ t) ≡ t
unfolding lstrip
line_end t a = lstrip-digits t a

strip-digits : (c : ℕ) (t : Text) → All IsDigit (c ∷ t) → strip ((c ∷ t) ++ (10 ∷ [])) ≡ c ∷ t
unfolding strip
strip-digits c t a =
    let no_space : is_space c ≡ false = ground (arith, a.0.0) in
    let front : lstrip ((c ∷ t) ++ (10 ∷ [])) ≡ (c ∷ t) ++ (10 ∷ []) = first_stays no_space in
    let back : lstrip (reverse ((c ∷ t) ++ (10 ∷ []))) ≡ reverse (c ∷ t) =
      ap lstrip (reverse-append (c ∷ t) (10 ∷ []))
      ∙ line_end (reverse (c ∷ t)) (All-reverse (c ∷ t) a) in
    ap (λ x. reverse (lstrip (reverse x))) front ∙ (ap reverse back ∙ reverse-reverse (c ∷ t))

-- A line with the tag, digits and a line end gives the number of the digits as the exit code.
pub exit_code_of-digits :
    (c : ℕ) (t : Text)
    → All IsDigit (c ∷ t)
    → exit_code_of (some (exit_tag ++ ((c ∷ t) ++ (10 ∷ [])))) ≡ exited (decimal 0 (c ∷ t))
unfolding exit_code_of contains starts_with second_part
exit_code_of-digits c t a =
    rw (until_colon-digits (c ∷ t) a, strip-digits c t a, int_of-decimal c t a)
