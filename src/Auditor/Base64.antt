-- ===== src/Auditor/Base64.antt =====
-- `base64.b64encode`, which security/ps_daemon.py applies to the command that it sends.
use universal_cross_shell_ex.Prelude.{
  ℕ, ◌+◌, ◌-◌, ◌*◌, ◌/◌, ◌≡◌, refl, Bool, true, ◌&&◌, ◌||◌, [], ◌∷◌, leb, ltb, ◌==◌, if◌then◌else◌,
  All, arith, Bool-cases, inl, inr,
}
use Prim.Native.Nat.{◌%◌}
use universal_cross_shell_ex.Prelude.Text.{Text, lower, lower_code, starts_with, contains}

-- The digit for a number below 64.
unfoldable pub digit : ℕ → ℕ
digit n =
    if ltb n 26
    then n + 65
    else if ltb n 52
    then n + 71
    else if ltb n 62
    then n - 4
    else if n == 62
    then 43
    else 47

-- The bytes of an ASCII text, three at a time.
unfoldable pub b64encode : Text → Text
unfolding digit
b64encode [] = []
b64encode (a ∷ []) = digit (a / 4) ∷ digit (a % 4 * 16) ∷ b'=' ∷ b'=' ∷ []
b64encode (a ∷ b ∷ []) =
    digit (a / 4) ∷ digit (a % 4 * 16 + b / 16) ∷ digit (b % 16 * 4) ∷ b'=' ∷ []
b64encode (a ∷ b ∷ c ∷ rest) =
    digit (a / 4)
    ∷ digit (a % 4 * 16 + b / 16)
    ∷ digit (b % 16 * 4 + c / 64)
    ∷ digit (c % 64)
    ∷ b64encode rest

-- The characters of an encoded text.
abbrev pub is_digit_or_pad : ℕ → Bool
is_digit_or_pad c =
    (leb b'a' c && leb c b'z' || leb b'A' c && leb c b'Z')
    || (leb b'0' c && leb c b'9' || (c == b'+' || (c == b'/' || c == b'=')))

abbrev pub IsEncoded : Text → Type 0
IsEncoded = All (λ c. is_digit_or_pad c ≡ true)

digit_lem : (n : ℕ) → is_digit_or_pad (digit n) ≡ true
unfolding digit
digit_lem n = ground arith

pub b64encode-IsEncoded : (t : Text) → IsEncoded (b64encode t)
unfolding b64encode
b64encode-IsEncoded [] = tt
b64encode-IsEncoded (a ∷ []) = (digit_lem (a / 4), (digit_lem (a % 4 * 16), (refl, (refl, tt))))
b64encode-IsEncoded (a ∷ b ∷ []) =
    (digit_lem (a / 4), (digit_lem (a % 4 * 16 + b / 16), (digit_lem (b % 16 * 4), (refl, tt))))
b64encode-IsEncoded (a ∷ b ∷ c ∷ rest) = (
  digit_lem (a / 4),
  (
    digit_lem (a % 4 * 16 + b / 16),
    (digit_lem (b % 16 * 4 + c / 64), (digit_lem (c % 64), b64encode-IsEncoded rest)),
  ),
)

starts_with-IsEncoded : (p t : Text) → starts_with p t ≡ true → IsEncoded t → IsEncoded p
unfolding starts_with
starts_with-IsEncoded [] t h e = tt
starts_with-IsEncoded (c ∷ p) [] h e = cc
starts_with-IsEncoded (c ∷ p) (d ∷ t) h e =
    (ground (arith, e.0), starts_with-IsEncoded p t (ground arith) e.1)

pub contains-IsEncoded : (p t : Text) → contains p t ≡ true → IsEncoded t → IsEncoded p
unfolding contains
contains-IsEncoded p [] h e = starts_with-IsEncoded p [] h e
contains-IsEncoded p (d ∷ t) h e = elim (Bool-cases (starts_with p (d ∷ t))) [
  | inl q ↦ starts_with-IsEncoded p (d ∷ t) q e
  | inr q ↦ contains-IsEncoded p t (rw q at h) e.1
]

lower_code-IsEncoded : (c : ℕ) → is_digit_or_pad c ≡ true → is_digit_or_pad (lower_code c) ≡ true
lower_code-IsEncoded c h = ground arith

pub lower-IsEncoded : (t : Text) → IsEncoded t → IsEncoded (lower t)
unfolding lower
lower-IsEncoded [] e = tt
lower-IsEncoded (c ∷ t) e = (lower_code-IsEncoded c e.0, lower-IsEncoded t e.1)
