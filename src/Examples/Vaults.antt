-- ===== src/Examples/Vaults.antt =====
-- Secrets.
use universal_cross_shell_ex.Prelude.{◌≡◌, refl, true, [], ◌∷◌, some}
use universal_cross_shell_ex.Prelude.Result.{ok, err}
use universal_cross_shell_ex.Secrets.{
  returned, SecretsBackend, Cipher, stored, Disk, Files, local_backend, get_required_secret,
}
use universal_cross_shell_ex.Secrets.Laws.{
  KeepsSecrets, HaveOwnFiles, local_backend-KeepsSecrets, get_required_secret_lem,
}

-- A cipher that hides nothing, and a disk that allows everything.
abbrev plain : Cipher
plain = record { encrypt = λ v. v; decrypt = λ c. some c }

abbrev disk : Disk
disk = record {
  file_at = λ path. path;
  readable = λ name. true;
  written = λ name. stored;
  removable = λ name. true;
  listdir = λ d. some ("db.enc" ∷ ".key" ∷ []);
}

abbrev backend : SecretsBackend Files
backend = local_backend plain disk

local_backend-KeepsSecrets_example : KeepsSecrets (HaveOwnFiles disk) backend
local_backend-KeepsSecrets_example = local_backend-KeepsSecrets plain disk (λ _. refl) (λ _. refl)

backend-KeepsSecrets : KeepsSecrets (HaveOwnFiles disk) backend
backend-KeepsSecrets = local_backend-KeepsSecrets plain disk (λ _. refl) (λ _. refl)

abbrev after : Files
after = (backend.set_secret "db" "pw" [] (("api.enc", "k") ∷ [])).1

get_required_secret_lem_test :
    (get_required_secret backend "db" (backend.delete_secret "api" after).1 ≡ ok "pw")
    × ((backend.delete_secret "db" after).0 ≡ returned true
        → get_required_secret backend "db" (backend.delete_secret "db" after).1 ≡ err "db")
unfolding local_backend
get_required_secret_lem_test =
    get_required_secret_lem (HaveOwnFiles disk) backend backend-KeepsSecrets "db" "api" "pw" []
      (("api.enc", "k") ∷ []) (λ q. cc) refl

listed : backend.list_secrets after ≡ "db" ∷ []
unfolding local_backend
listed = refl
