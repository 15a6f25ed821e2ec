-- ===== src/Secrets/Laws.antt =====
-- The contract of a backend, its client the manager, and the local backend that fills it.
use universal_cross_shell_ex.Prelude.{
  String, ◌≡◌, ◌≢◌, inl, inr, refl, ap, ◌∙◌, Bool, true, false, Option, none, some, Bool-cases,
}
use universal_cross_shell_ex.Prelude.Dict.{
  Dict, lookup, has, is_some, same_refl, same-eq_false, lookup-insert_self, lookup-insert_ne,
  lookup-erase,
}
use universal_cross_shell_ex.Prelude.Result.{ok, err}
use universal_cross_shell_ex.Secrets.{
  returned, SecretsBackend, Cipher, Written, refused, emptied, unprotected, stored, Disk, Files,
  decrypted, write_file, remove_file, secret_file, local_backend, get_required_secret, required,
}

-- What a backend promises: after a call that answers `True` the secret has the new value, or none;
-- and whatever a call answers, the secrets whose names stand for another place are as before.
pub record KeepsSecrets {S : Type 0} (Apart : String → String → Type 0) (b : SecretsBackend S)
    : Type 0 where
  pub set_own :
      (name value : String) (tags : Dict String) (s : S)
      → (b.set_secret name value tags s).0 ≡ returned true
      → b.get_secret name (b.set_secret name value tags s).1 ≡ some value
  pub set_other :
      (name other value : String) (tags : Dict String) (s : S)
      → Apart name other
      → b.get_secret other (b.set_secret name value tags s).1 ≡ b.get_secret other s
  pub delete_own :
      (name : String) (s : S)
      → (b.delete_secret name s).0 ≡ returned true
      → b.get_secret name (b.delete_secret name s).1 ≡ none
  pub delete_other :
      (name other : String) (s : S)
      → Apart name other
      → b.get_secret other (b.delete_secret name s).1 ≡ b.get_secret other s
  pub rotate_own :
      (name value : String) (s : S)
      → (b.rotate_secret name value s).0 ≡ returned true
      → b.get_secret name (b.rotate_secret name value s).1 ≡ some value
  pub rotate_other :
      (name other value : String) (s : S)
      → Apart name other
      → b.get_secret other (b.rotate_secret name value s).1 ≡ b.get_secret other s

absent : (o : Option String) → is_some o ≡ false → o ≡ none
absent none h = refl
absent (some v) h = cc

-- Two names whose paths lead to different files, as `db` and `./db` do not.
abbrev pub HaveOwnFiles : Disk → String → String → Type 0
HaveOwnFiles disk name other = secret_file disk name ≢ secret_file disk other

module _ (cipher : Cipher) (disk : Disk) where
  write-own :
      (w : Written) (name value : String) (d : Files)
      → cipher.decrypt (cipher.encrypt value) ≡ some value
      → (write_file w name (cipher.encrypt value) d).0 ≡ returned true
      → decrypted cipher true (lookup name (write_file w name (cipher.encrypt value) d).1)
        ≡ some value
  write-own stored name value d h e =
      ap (decrypted cipher true) (lookup-insert_self name (cipher.encrypt value) d) ∙ h
  write-own refused name value d h e = cc
  write-own emptied name value d h e = cc
  write-own unprotected name value d h e = cc

  write-other :
      (w : Written) (name other c : String) (d : Files)
      → name ≢ other
      → lookup other (write_file w name c d).1 ≡ lookup other d
  write-other refused name other c d n = refl
  write-other emptied name other c d n = lookup-insert_ne name other "" d n
  write-other unprotected name other c d n = lookup-insert_ne name other c d n
  write-other stored name other c d n = lookup-insert_ne name other c d n

  remove-own :
      (r : Bool) (name : String) (d : Files)
      → (remove_file r name d).0 ≡ returned true
      → lookup name (remove_file r name d).1 ≡ none
  unfolding has
  remove-own true name d e = elim (Bool-cases (has name d)) [
    | inl h ↦ rw h (lookup-erase name name d ∙ rw (same_refl name))
    | inr h ↦ rw h (absent (lookup name d) h)
  ]
  remove-own false name d e = elim (Bool-cases (has name d)) [
    | inl h ↦ cc
    | inr h ↦ rw h (absent (lookup name d) h)
  ]

  remove-other :
      (r : Bool) (name other : String) (d : Files)
      → name ≢ other
      → lookup other (remove_file r name d).1 ≡ lookup other d
  remove-other true name other d n = elim (Bool-cases (has name d)) [
    | inl h ↦ rw h (lookup-erase name other d ∙ rw (same-eq_false name other n))
    | inr h ↦ rw h
  ]
  remove-other false name other d n = elim (Bool-cases (has name d)) [ inl h ↦ rw h | inr h ↦ rw h ]

  -- The local backend keeps what is stored, on a disk whose files can be read, with a cipher that
  -- decrypts what it encrypts: a secret that was set or rotated with the answer `True` is read back,
  -- one that was deleted so is gone, and no setting, deletion or rotation, whatever its answer,
  -- changes a secret whose name leads to another file.
  pub local_backend-KeepsSecrets :
      ((file : String) → disk.readable file ≡ true)
      → ((value : String) → cipher.decrypt (cipher.encrypt value) ≡ some value)
      → KeepsSecrets (HaveOwnFiles disk) (local_backend cipher disk)
  unfolding local_backend
  local_backend-KeepsSecrets readable opens = record {
    set_own = λ name value tags d e.
        let f = secret_file disk name in
        rw (readable f) (write-own (disk.written f) f value d (opens value) e);
    set_other = λ name other value tags d n. kept name other value d n;
    delete_own = λ name d e.
        let f = secret_file disk name in
        ap (decrypted cipher (disk.readable f)) (remove-own (disk.removable f) f d e);
    delete_other = λ name other d n.
        let f = secret_file disk name in
        let g = secret_file disk other in
        ap (decrypted cipher (disk.readable g)) (remove-other (disk.removable f) f g d n);
    rotate_own = λ name value d e.
        let f = secret_file disk name in
        rw (readable f) (write-own (disk.written f) f value d (opens value) e);
    rotate_other = λ name other value d n. kept name other value d n;
  }
    where
      kept :
          (name other value : String) (d : Files)
          → HaveOwnFiles disk name other
          → decrypted cipher (disk.readable (secret_file disk other)) (
              lookup
                (secret_file disk other)
                (write_file
                  (disk.written (secret_file disk name))
                  (secret_file disk name)
                  (cipher.encrypt value)
                  d).1)
            ≡ decrypted cipher
                (disk.readable (secret_file disk other))
                (lookup (secret_file disk other) d)
      kept name other value d n = ap (decrypted cipher (disk.readable (secret_file disk other))) (
          write-other (disk.written (secret_file disk name)) (secret_file disk name)
            (secret_file disk other) (cipher.encrypt value) d n)

-- Over a backend that keeps its contract, a required secret has the value that was stored last with
-- success, whatever other secret was deleted in between; after its own deletion it is an error.
pub get_required_secret_lem :
    {S : Type 0} (Apart : String → String → Type 0) (b : SecretsBackend S)
    → KeepsSecrets Apart b
    → (name other value : String) (tags : Dict String) (s : S) → Apart other name
    → (b.set_secret name value tags s).0 ≡ returned true
    → let s' = (b.set_secret name value tags s).1 in
      (get_required_secret b name (b.delete_secret other s').1 ≡ ok value)
      × ((b.delete_secret name s').0 ≡ returned true
          → get_required_secret b name (b.delete_secret name s').1 ≡ err name)
unfolding get_required_secret
get_required_secret_lem Apart b k name other value tags s n e =
    let s' = (b.set_secret name value tags s).1 in
    (
      ap (required name) (k.delete_other other name s' n ∙ k.set_own name value tags s e),
      (λ d. ap (required name) (k.delete_own name s' d)),
    )
