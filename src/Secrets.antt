-- ===== src/Secrets.antt =====
-- core/secrets_management.py: the secrets, the three backends and the manager. The clients of Vault
-- and of AWS, the Fernet cipher and the disk are parameters.
pub mod Laws
use Prim.Native.String.{◌++◌}
use universal_cross_shell_ex.Prelude.{
  ℕ, ◌+◌, ◌*◌, String, Bool, true, false, not, List, [], ◌∷◌, Option, none, some, ltb,
  if◌then◌else◌,
}
use universal_cross_shell_ex.Prelude.Text.{Text, codes, lower, text_eq}
use universal_cross_shell_ex.Prelude.Dict.{Dict, same, lookup, insert, erase, has}
use universal_cross_shell_ex.Prelude.Result.{Result, ok, err}

-- Times are counts of ticks, and `day` is the number of ticks in a day.
pub record Secret : Type 0 where
  pub name : String
  pub value : String
  pub created_at : ℕ
  pub rotated_at : Option ℕ
  pub expires_at : Option ℕ
  pub tags : Dict String

abbrev pub expired_at : ℕ → Option ℕ → Bool
expired_at now none = false
expired_at now (some t) = ltb t now

unfoldable pub is_expired : (now : ℕ) → Secret → Bool
is_expired now s = expired_at now s.expires_at

abbrev pub last_change : Secret → Option ℕ → ℕ
last_change s none = s.created_at
last_change s (some t) = t

unfoldable pub needs_rotation : (day now : ℕ) → Secret → (rotation_days : ℕ) → Bool
needs_rotation day now s rotation_days = ltb (last_change s s.rotated_at + rotation_days * day) now

-- The answer of a call that stores or deletes; `raised` is an exception that leaves it.
pub data Answer : Type 0 where
  returned : Bool → Answer
  raised : Answer

-- `SecretsBackend`, over the state `S` that it keeps.
pub record SecretsBackend (S : Type 0) : Type 0 where
  pub get_secret : String → S → Option String
  pub set_secret : String → String → Dict String → S → Answer × S
  pub delete_secret : String → S → Answer × S
  pub list_secrets : S → List String
  pub rotate_secret : String → String → S → Answer × S

-- What a call of a client does to its state, or `none` where it raises.
abbrev pub tried : {S : Type 0} → Option S → S → Answer × S
tried none s = (returned false, s)
tried (some s') s = (returned true, s')

abbrev pub or_nothing : Option (Option String) → Option String
or_nothing none = none
or_nothing (some v) = v

abbrev pub or_empty_list : Option (List String) → List String
or_empty_list none = []
or_empty_list (some l) = l

-- The key-value engine of the hvac client. `read` gives the `value` of the latest version.
pub record VaultClient (S : Type 0) : Type 0 where
  pub read_secret_version : String → S → Option (Option String)
  pub create_or_update_secret : String → String → Dict String → S → Option S
  pub delete_secret_version : String → S → Option S
  pub list_keys : S → Option (List String)

unfoldable pub vault_backend : {S : Type 0} → VaultClient S → SecretsBackend S
vault_backend c = record {
  get_secret = λ name s. or_nothing (c.read_secret_version name s);
  set_secret = λ name value tags s. tried (c.create_or_update_secret name value tags s) s;
  delete_secret = λ name s. tried (c.delete_secret_version name s) s;
  list_secrets = λ s. or_empty_list (c.list_keys s);
  rotate_secret = λ name value s. tried (c.create_or_update_secret name value [] s) s;
}

-- What `create_secret` of the boto3 client answers.
pub data Created (S : Type 0) : Type 0 where
  created : S → Created S
  exists_already create_failed : Created S

pub record AwsClient (S : Type 0) : Type 0 where
  pub get_secret_value : String → S → Option (Option String)
  pub create_secret : String → String → Dict String → S → Created S
  pub update_secret : String → String → S → Option S
  pub delete_secret : String → S → Option S
  pub list_names : S → Option (List String)

-- The update stands in a handler of its own, so what it raises leaves `set_secret`.
abbrev pub updated : {S : Type 0} → Option S → S → Answer × S
updated none s = (raised, s)
updated (some s') s = (returned true, s')

abbrev pub aws_set : {S : Type 0} → AwsClient S → String → String → Created S → S → Answer × S
aws_set c name value (created s') s = (returned true, s')
aws_set c name value exists_already s = updated (c.update_secret name value s) s
aws_set c name value create_failed s = (returned false, s)

unfoldable pub aws_backend : {S : Type 0} → AwsClient S → SecretsBackend S
aws_backend c = record {
  get_secret = λ name s. or_nothing (c.get_secret_value name s);
  set_secret = λ name value tags s. aws_set c name value (c.create_secret name value tags s) s;
  delete_secret = λ name s. tried (c.delete_secret name s) s;
  list_secrets = λ s. or_empty_list (c.list_names s);
  rotate_secret = λ name value s. aws_set c name value (c.create_secret name value [] s) s;
}

-- Fernet under the key of the directory: `none` is an `InvalidToken`.
pub record Cipher : Type 0 where
  pub encrypt : String → String
  pub decrypt : String → Option String

-- How far the writing of a file gets: not opened, opened and emptied, written but not protected by
-- `chmod`, or done.
pub data Written : Type 0 where
  refused emptied unprotected stored : Written

-- What the disk lets a call do to a file, and what `os` answers: the file that a path in the storage
-- directory leads to, which two paths may share, and the names in the directory (`none`: it raises).
pub record Disk : Type 0 where
  pub file_at : String → String
  pub readable : String → Bool
  pub written : String → Written
  pub removable : String → Bool
  pub listdir : Dict String → Option (List String)

-- The files with their contents.
abbrev pub Files : Type 0
Files = Dict String

-- `filename[:-4]` where `filename.endswith('.enc')`
unfoldable pub without_enc : String → Option String
without_enc String.[] = none
without_enc (String.◌∷◌ c t) =
    let rest : Option String = elim (without_enc t) [
      | none ↦ none
      | some r ↦ some (String.◌∷◌ c r)
    ] in
    if same (String.◌∷◌ c t) ".enc" then some "" else rest

abbrev pub add_name : Option String → List String → List String
add_name none ns = ns
add_name (some n) ns = n ∷ ns

unfoldable pub secret_names : List String → List String
unfolding without_enc
secret_names [] = []
secret_names (f ∷ fs) = add_name (without_enc f) (secret_names fs)

-- The file of `os.path.join(self.storage_dir, f"{name}.enc")`.
abbrev pub secret_file : Disk → String → String
secret_file disk name = disk.file_at (name ++ ".enc")

abbrev pub decrypted : Cipher → Bool → Option String → Option String
decrypted cipher readable none = none
decrypted cipher false (some c) = none
decrypted cipher true (some c) = cipher.decrypt c

abbrev pub write_file : Written → String → String → Files → Answer × Files
write_file refused name c d = (returned false, d)
write_file emptied name c d = (returned false, insert name "" d)
write_file unprotected name c d = (returned false, insert name c d)
write_file stored name c d = (returned true, insert name c d)

-- A file that is not there is deleted with success.
abbrev pub remove_file : Bool → String → Files → Answer × Files
remove_file removable name d =
    if has name d
    then (if removable then (returned true, erase name d) else (returned false, d))
    else (returned true, d)

unfoldable pub local_backend : Cipher → Disk → SecretsBackend Files
unfolding lookup insert erase has secret_names
local_backend cipher disk = record {
  get_secret =
      λ name d. let f = secret_file disk name in decrypted cipher (disk.readable f) (lookup f d);
  set_secret = λ name value tags d.
      let f = secret_file disk name in write_file (disk.written f) f (cipher.encrypt value) d;
  delete_secret = λ name d. let f = secret_file disk name in remove_file (disk.removable f) f d;
  list_secrets = λ d. secret_names (or_empty_list (disk.listdir d));
  rotate_secret = λ name value d.
      let f = secret_file disk name in write_file (disk.written f) f (cipher.encrypt value) d;
}

pub data BackendKind : Type 0 where
  vault aws encrypted_local : BackendKind

-- `SecretsManager.from_environment`: the choice by `UCSER_SECRETS_BACKEND`.
unfoldable pub backend_kind : Option Text → BackendKind
unfolding lower
backend_kind none = encrypted_local
backend_kind (some t) =
    if text_eq (lower t) (codes "vault")
    then vault
    else if text_eq (lower t) (codes "aws")
    then aws
    else encrypted_local

-- `SecretsManager` passes its calls on to its backend; a missing secret that is required is an
-- error, which names it.
abbrev pub required : String → Option String → Result String String
required name none = err name
required name (some v) = ok v

unfoldable pub get_required_secret :
    {S : Type 0} → SecretsBackend S → String → S → Result String String
get_required_secret backend name s = required name (backend.get_secret name s)
