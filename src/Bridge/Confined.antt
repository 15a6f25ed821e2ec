-- ===== src/Bridge/Confined.antt =====
-- What the bridge does to the file systems stays in the workspace, as far as it compares paths.
use universal_cross_shell_ex.Prelude.{
  ◌↔◌, ◌⊎◌, sym, ◌≡◌, refl, ap, ◌∙◌, not, Bool, true, false, List, [], ◌∷◌, Option, none, some, all,
  all_iff, All-get, All-of, In, In-cons, here, there, Bool-cases, inl, inr,
}
use universal_cross_shell_ex.Prelude.Text.{Text, starts_with}
use universal_cross_shell_ex.Bridge.{
  Os, windows, linux, unknown, Reply, answered, reported, security_error, Host, Operation, delete,
  list_dir, copy, paths, delete_on, list_on, to_linux, to_windows, copy_between, validate_path,
  on_paths, resolve_os_from_path, perform,
}

-- A path that is empty or whose absolute form begins with the text of the workspace.
abbrev pub Inside : Host → Text → Type 0
Inside w [] = Unit
Inside w (c ∷ t) = starts_with w.base_dir (w.abspath (c ∷ t)) ≡ true

abbrev pub is_refusal : Reply → Bool
is_refusal security_error = true
is_refusal answered = false
is_refusal reported = false

validate_path-Inside : (w : Host) (p : Text) → validate_path w p ≡ true → Inside w p
unfolding validate_path
validate_path-Inside w [] h = tt
validate_path-Inside w (c ∷ t) h = h

delete_on-accepts : (o : Os) (p : Text) → is_refusal (delete_on o p).0 ≡ false
delete_on-accepts windows p = refl
delete_on-accepts linux p = refl
delete_on-accepts unknown p = refl

list_on-accepts : (o : Os) (p : Text) → is_refusal (list_on o p).0 ≡ false
list_on-accepts windows p = refl
list_on-accepts linux p = refl
list_on-accepts unknown p = refl

to_linux-accepts : (p : Text) (cs : Option (List Text)) → is_refusal (to_linux p cs).0 ≡ false
to_linux-accepts p none = refl
to_linux-accepts p (some cs) = refl

to_windows-accepts : (p q : Text) (a b : Bool) → is_refusal (to_windows p q a b).0 ≡ false
to_windows-accepts p q true true = refl
to_windows-accepts p q true false = refl
to_windows-accepts p q false b = refl

copy_between-accepts :
    (w : Host) (a b : Os) (p q : Text) → is_refusal (copy_between w a b p q).0 ≡ false
copy_between-accepts w windows windows p q = refl
copy_between-accepts w linux linux p q = refl
copy_between-accepts w windows linux p q = to_linux-accepts q _
copy_between-accepts w linux windows p q = to_windows-accepts p q _ _
copy_between-accepts w unknown b p q = refl
copy_between-accepts w windows unknown p q = refl
copy_between-accepts w linux unknown p q = refl

on_paths-accepts : (w : Host) (op : Operation) → is_refusal (on_paths w op).0 ≡ false
on_paths-accepts w (delete p) = delete_on-accepts (resolve_os_from_path p) p
on_paths-accepts w (list_dir p) = list_on-accepts (resolve_os_from_path p) p
on_paths-accepts w (copy p q) =
    copy_between-accepts w (resolve_os_from_path p) (resolve_os_from_path q) p q

-- An operation raises a `SecurityError` exactly when one of its paths does not pass the validation.
perform-refuses :
    (w : Host) (op : Operation)
    → is_refusal (perform w op).0 ≡ not (all (validate_path w) (paths op))
unfolding perform
perform-refuses w op = elim (Bool-cases (all (validate_path w) (paths op))) [
  | inl v ↦ rw (v, on_paths-accepts w op)
  | inr v ↦ rw v
]

-- The paths that an operation takes, whether it reads or changes what is there.
pub data Touches : Operation → Text → Type 0 where
  deletes : (p : Text) → Touches (delete p) p
  lists : (p : Text) → Touches (list_dir p) p
  copies_from : (from to : Text) → Touches (copy from to) from
  copies_to : (from to : Text) → Touches (copy from to) to

In-paths : {op : Operation} {p : Text} → Touches op p → In p (paths op)
In-paths (deletes p) = here
In-paths (lists p) = here
In-paths (copies_from from to) = here
In-paths (copies_to from to) = there here

Touches-paths : (op : Operation) (p : Text) → In p (paths op) → Touches op p
Touches-paths (delete q) p i = elim (In-cons i) [ inl e ↦ rw e (deletes q) | inr j ↦ elim j [ ] ]
Touches-paths (list_dir q) p i = elim (In-cons i) [ inl e ↦ rw e (lists q) | inr j ↦ elim j [ ] ]
Touches-paths (copy from to) p i = elim (In-cons i) [
  | inl e ↦ rw e (copies_from from to)
  | inr j ↦ elim (In-cons j) [ inl e ↦ rw e (copies_to from to) | inr k ↦ elim k [ ] ]
]

Inside-validate_path : (w : Host) (p : Text) → Inside w p → validate_path w p ≡ true
unfolding validate_path
Inside-validate_path w [] h = refl
Inside-validate_path w (c ∷ t) h = h

-- An operation raises no `SecurityError` exactly when each path that it reads from or changes is
-- empty or has an absolute form that begins with the text of the workspace; and one that raises it
-- hands no command to the executor and writes no file.
pub perform_confined :
    (w : Host) (op : Operation)
    → ((is_refusal (perform w op).0 ≡ false) ↔ ((p : Text) → Touches op p → Inside w p))
      × ((perform w op).1 ≡ [] ⊎ (is_refusal (perform w op).0 ≡ false))
unfolding perform
perform_confined w op = (
  (
    (λ accepted p t.
        let valid : all (validate_path w) (paths op) ≡ true =
          not_false (all (validate_path w) (paths op)) (sym (perform-refuses w op) ∙ accepted) in
        validate_path-Inside w p (
          All-get (λ q. validate_path w q ≡ true) (In-paths t)
            ((all_iff (validate_path w) (paths op)).0 valid))),
    (λ inside.
        let valid : all (validate_path w) (paths op) ≡ true =
          (all_iff (validate_path w) (paths op)).1 (
            All-of (paths op)
              (λ q i. Inside-validate_path w q (inside q (Touches-paths op q i)))) in
        perform-refuses w op ∙ ap not valid),
  ),
  elim (Bool-cases (all (validate_path w) (paths op))) [
    | inl v ↦ inr (perform-refuses w op ∙ ap not v)
    | inr v ↦ inl (rw v)
  ],
)
  where
    not_false : (b : Bool) → not b ≡ false → b ≡ true
    not_false true h = refl
    not_false false h = cc
