-- ===== src/Sandbox/Effects.antt =====
-- Which files are reported as side effects.
use mathlib.Core.Option.{some-injective}
use universal_cross_shell_ex.Prelude.{
  ◌≡◌, ◌≢◌, ◌↔◌, ◌⊎◌, refl, sym, ap, subst, ◌∙◌, false, List, [], ◌∷◌, some, In, here, there,
  In-cons, Bool-cases, Option-cases, inl, inr, if◌then◌else◌,
}
use universal_cross_shell_ex.Prelude.Text.{Text, codes, text_eq, text_eq→eq, text_eq_refl}
use universal_cross_shell_ex.Sandbox.{
  SideEffects, no_effects, is_blank, split_space, is_ignored, add_effect, side_effects,
}

-- A line of `docker diff` with a code and a path outside the ignored ones.
abbrev pub Reports : Text → Text → Text → Type 0
Reports code path l =
    (is_blank l ≡ false) × (split_space l ≡ some (code, path)) × (is_ignored path ≡ false)

abbrev pub Reported : Text → Text → List Text → Type 0
Reported code path ls = (l : Text) × In l ls × Reports code path l

abbrev a_code : Text
a_code = codes "A"

abbrev c_code : Text
c_code = codes "C"

abbrev d_code : Text
d_code = codes "D"

-- The code of a line is one of the three, or another.
code-cases :
    (c : Text)
    → (c ≡ a_code) ⊎ (c ≡ c_code) ⊎ (c ≡ d_code) ⊎ ((c ≢ a_code) × (c ≢ c_code) × (c ≢ d_code))
code-cases c = elim (Bool-cases (text_eq c a_code)) [
  | inl e ↦ inl (text_eq→eq c a_code e)
  | inr e ↦ elim (Bool-cases (text_eq c c_code)) [
    | inl f ↦ inr (inl (text_eq→eq c c_code f))
    | inr f ↦ elim (Bool-cases (text_eq c d_code)) [
      | inl g ↦ inr (inr (inl (text_eq→eq c d_code g)))
      | inr g ↦ inr (inr (inr (apart c a_code e, apart c c_code f, apart c d_code g)))
    ]
  ]
]
  where
    apart : (s t : Text) → text_eq s t ≡ false → s ≢ t
    apart s t h q = cc (h, ap (text_eq s) q, text_eq_refl s)

text_eq-eq_false : (s t : Text) → s ≢ t → text_eq s t ≡ false
text_eq-eq_false s t n = elim (Bool-cases (text_eq s t)) [
  | inl e ↦ absurd (n (text_eq→eq s t e))
  | inr e ↦ e
]

-- What one kind of files gets from a line with code `c`.
abbrev pub gains : Text → Text → Text → List Text → List Text
gains code c p files = if text_eq c code then p ∷ files else files

record OneKind (c p : Text) (e : SideEffects) : Type 0 where
  pub added : (add_effect c p e).files_added ≡ gains a_code c p e.files_added
  pub modified : (add_effect c p e).files_modified ≡ gains c_code c p e.files_modified
  pub deleted : (add_effect c p e).files_deleted ≡ gains d_code c p e.files_deleted

add_effect-OneKind : (c p : Text) (e : SideEffects) → OneKind c p e
unfolding text_eq
add_effect-OneKind c p e = elim (code-cases c) [
  | inl q ↦
      subst (λ x. OneKind x p e) (sym q) (record { added = refl; modified = refl; deleted = refl })
  | inr (inl q) ↦
      subst (λ x. OneKind x p e) (sym q) (record { added = refl; modified = refl; deleted = refl })
  | inr (inr (inl q)) ↦
      subst (λ x. OneKind x p e) (sym q) (record { added = refl; modified = refl; deleted = refl })
  | inr (inr (inr (k, l, m))) ↦
      let a = text_eq-eq_false c a_code k in
      let b = text_eq-eq_false c c_code l in
      let d = text_eq-eq_false c d_code m in
      record { added = rw (a, b, d); modified = rw (a, b, d); deleted = rw (a, b, d) }
]

gains_iff :
    (code c p path : Text) (files : List Text)
    → In path (gains code c p files) ↔ (((c ≡ code) × (p ≡ path)) ⊎ In path files)
gains_iff code c p path files = elim (Bool-cases (text_eq c code)) [
  | inl e ↦ rw e (
    (λ i. elim (In-cons i) [ inl q ↦ inl (text_eq→eq c code e, sym q) | inr j ↦ inr j ]),
    (λ h. elim h [ inl (_, q) ↦ subst (λ x. In path (x ∷ files)) (sym q) here | inr j ↦ there j ]),
  )
  | inr e ↦ rw e (
    (λ i. inr i),
    (λ h. elim h [
      | inl (q, _) ↦ cc (e, ap (λ x. text_eq x code) q, text_eq_refl code)
      | inr j ↦ j
    ]),
  )
]

module _ (kind : SideEffects → List Text) (code : Text)
    (adds : (c p : Text) (e : SideEffects) → kind (add_effect c p e) ≡ gains code c p (kind e))
    (starts : kind no_effects ≡ []) where
  skipped_iff :
      (l path : Text) (x y : SideEffects)
      → x ≡ y
      → ¬ Reports code path l
      → In path (kind x) ↔ (Reports code path l ⊎ In path (kind y))
  skipped_iff l path x y e n = (
    (λ i. inr (subst (λ z. In path (kind z)) e i)),
    (λ h. elim h [ inl r ↦ absurd (n r) | inr i ↦ subst (λ z. In path (kind z)) (sym e) i ]),
  )

  added_iff :
      (l path : Text) (c p : Text) (x y : SideEffects)
      → x ≡ add_effect c p y
      → is_blank l ≡ false
      → split_space l ≡ some (c, p)
      → is_ignored p ≡ false
      → In path (kind x) ↔ (Reports code path l ⊎ In path (kind y))
  added_iff l path c p x y e b f g =
      let now : kind x ≡ gains code c p (kind y) = ap kind e ∙ adds c p y in
      let iff = gains_iff code c p path (kind y) in
      (
        (λ i. elim (iff.0 (subst (In path) now i)) [
          | inl (q, r) ↦ inl (b, f ∙ rw (q, r), subst (λ z. is_ignored z ≡ false) r g)
          | inr j ↦ inr j
        ]),
        (λ h. subst (In path) (sym now) (
            iff.1 (elim h [
              | inl r ↦
                  let eq : ◌≡◌ {A = Text × Text} (c, p) (code, path) =
                    some-injective _ _ (sym f ∙ r.1) in
                  inl (ap (λ z. z.0) eq, ap (λ z. z.1) eq)
              | inr j ↦ inr j
            ]))),
      )

  line_iff :
      (l : Text) (ls : List Text) (path : Text)
      → In path (kind (side_effects (l ∷ ls)))
        ↔ (Reports code path l ⊎ In path (kind (side_effects ls)))
  unfolding side_effects
  line_iff l ls path =
      let rest = side_effects ls in
      elim (Bool-cases (is_blank l)) [
        | inl e ↦ skipped_iff l path (side_effects (l ∷ ls)) rest (rw e) (λ r. cc (e, r.0))
        | inr e ↦ elim (Option-cases (split_space l)) [
          | inl f ↦ skipped_iff l path (side_effects (l ∷ ls)) rest (rw (e, f)) (λ r. cc (f, r.1))
          | inr ((c, p), f) ↦ elim (Bool-cases (is_ignored p)) [
            | inl g ↦ skipped_iff l path (side_effects (l ∷ ls)) rest (rw (e, f, g)) (λ r.
                let eq : ◌≡◌ {A = Text × Text} (c, p) (code, path) =
                  some-injective _ _ (sym f ∙ r.1) in
                cc (g, r.2, ap (λ z. is_ignored z.1) eq))
            | inr g ↦ added_iff l path c p (side_effects (l ∷ ls)) rest (rw (e, f, g)) e f g
          ]
        ]
      ]

  kind_iff :
      (ls : List Text) (path : Text) → In path (kind (side_effects ls)) ↔ Reported code path ls
  unfolding side_effects
  kind_iff [] path = ((λ i. elim (subst (In path) starts i) [ ]), (λ (l, i, _). elim i [ ]))
  kind_iff (l ∷ ls) path =
      let first = line_iff l ls path in
      let rest = kind_iff ls path in
      (
        (λ i. elim (first.0 i) [
          | inl r ↦ (l, here, r)
          | inr j ↦ let (m, k, r) = rest.0 j in (m, there k, r)
        ]),
        (λ (m, k, r). first.1 (elim (In-cons k) [
          | inl e ↦ inl (subst (Reports code path) e r)
          | inr j ↦ inr (rest.1 (m, j, r))
        ])),
      )

-- The files reported as added, modified and deleted are exactly the paths of the lines of
-- `docker diff` with the codes A, C and D whose path has none of the ignored prefixes.
pub side_effects_iff :
    (ls : List Text) (path : Text)
    → let e = side_effects ls in
      (In path e.files_added ↔ Reported (codes "A") path ls)
      × (In path e.files_modified ↔ Reported (codes "C") path ls)
      × (In path e.files_deleted ↔ Reported (codes "D") path ls)
side_effects_iff ls path = (
  kind_iff (λ e. e.files_added) a_code (λ c p e. (add_effect-OneKind c p e).added) refl ls path,
  kind_iff (λ e. e.files_modified) c_code (λ c p e. (add_effect-OneKind c p e).modified) refl ls
      path,
  kind_iff (λ e. e.files_deleted) d_code (λ c p e. (add_effect-OneKind c p e).deleted) refl ls path,
)
