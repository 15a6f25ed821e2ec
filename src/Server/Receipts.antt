-- ===== src/Server/Receipts.antt =====
-- api/rest_server.py: the receipt that is given for a record, over any storage.
use universal_cross_shell_ex.Prelude.{
  ℕ, String, ◌≡◌, refl, [], ◌∷◌, Option, none, some, if◌then◌else◌,
}
use universal_cross_shell_ex.Prelude.Text.{codes}
use universal_cross_shell_ex.Prelude.Result.{Result, ok, err}
use universal_cross_shell_ex.Ucer.{Ucer, bash, completed, truthy, or_empty}
use universal_cross_shell_ex.Database.{DatabaseBase, Fault}
use universal_cross_shell_ex.Database.Contract.{KeepsUcers}
use universal_cross_shell_ex.Server.Tasks.{new_ucer, new_step}

pub record ProofPackage : Type 0 where
  pub command_id : String
  pub timestamp : ℕ
  pub intent_audit : String
  pub canonical_payload_hash : String
  pub control_plane : Option String
  pub runtime_witness : Option String
  pub witness_public_key : Option String
  pub chain_of_custody : String
  pub integrity_checksum : String

abbrev pub default_hash : String
default_hash = "7d834bc29f0ba9d8f7634bcda0a9be876d543eb78263ac09b8c7162bd0a9bcde"

-- The record that stands in for one that is not stored.
abbrev pub mock_ucer : String → ℕ → String → Ucer
mock_ucer step_id now id =
    let command = codes "echo 'log_level=debug' > runtime_space/job_1.log" in
    record (new_ucer id now "Verify filesystem integrity and check logs"
      (new_step step_id bash command ∷ []) completed) {
        control_signature = some "sig_valid_8932479e0a9bc8d7";
        execution_signature = some "sig_exec_348279bc8de7f9a1";
        execution_pub_key = some "pub_key_98f42c7e90890a9b";
      }

unfoldable pub package_of : Ucer → ProofPackage
package_of u = record {
  command_id = u.command_id;
  timestamp = u.timestamp;
  intent_audit = u.intent;
  canonical_payload_hash =
      if truthy u.canonical_hash then or_empty u.canonical_hash else default_hash;
  control_plane = u.control_signature;
  runtime_witness = u.execution_signature;
  witness_public_key = u.execution_pub_key;
  chain_of_custody = "immutable-witness-signed-receipt-v1.0";
  integrity_checksum = "sha256-hash-of-receipt-block-verified";
}

abbrev pub found_or_mock : String → ℕ → String → Option Ucer → Ucer
found_or_mock step_id now id none = mock_ucer step_id now id
found_or_mock step_id now id (some u) = u

module _ {S : Type 0} (db : DatabaseBase S) (step_id : String) (now : ℕ) where
  abbrev pub packed : String → Result Fault (Option Ucer) → Result Fault ProofPackage
  packed id (ok found) = ok (package_of (found_or_mock step_id now id found))
  packed id (err e) = err e

  -- `generate_proof`, whose answer says "proof_generated" around the package.
  unfoldable pub generate_proof : String → S → Result Fault ProofPackage × S
  unfolding package_of
  generate_proof id s = let (x, s') = db.get_ucer id s in (packed id x, s')

module _ {S : Type 0} (db : DatabaseBase S) (IsValid : S → Type 0) (keeps : KeepsUcers db IsValid)
    (step_id : String) (now : ℕ) where
  -- Over a storage that keeps its contract, the receipt of a record that was saved is made of that
  -- record, and saving it changes no other receipt.
  pub generate_proof-save_ucer :
      (u : Ucer) (s : S)
      → (db.save_ucer u s).0 ≡ ok tt
      → (generate_proof db step_id now u.command_id (db.save_ucer u s).1).0 ≡ ok (package_of u)
  unfolding generate_proof
  generate_proof-save_ucer u s h = rw (keeps.saved u s h)

  pub generate_proof-unknown :
      (id : String) (s : S)
      → (db.get_ucer id s).0 ≡ ok none
      → (p : ProofPackage) × ((generate_proof db step_id now id s).0 ≡ ok p)
        × (p.command_id ≡ id)
        × (p.control_plane ≡ some "sig_valid_8932479e0a9bc8d7")
  unfolding generate_proof package_of
  generate_proof-unknown id s h = (package_of (mock_ucer step_id now id), rw h, refl, refl)
