-- ===== src/Hooks/Tests.antt =====
-- Runs of the crypto-shred hook of integrations/hooks.py over both vaults.
use unlearning.Prelude.{
  ℕ, ◌≡◌, refl, List, [], ◌∷◌, map, Str, Exn, runtime_error, Result, ok, raise,
}
use unlearning.Prelude.Eq.{str_eq}
use unlearning.Prelude.Text.{codes, strip}
use unlearning.Shred
use unlearning.Shred.{Vault, gone_text}
use unlearning.Shred.Toy.{toy_crypto}
use unlearning.Shred.Final.{provisioned, run_calls}
use unlearning.Kms
use unlearning.Kms.{Kms, KmsVault}
use unlearning.Kms.Final as KmsFinal
use unlearning.Hooks.{ShredResult, crypto_shred_hook}
use unlearning.Hooks.Shredding.{local_vault, kms_vault, crypto_shred_hook-final, kms_hook-final}

abbrev bob : Str
bob = codes "bob"

abbrev eve : Str
eve = codes "eve"

abbrev both : List Str
both = bob ∷ eve ∷ []

abbrev clock : ℕ → ℕ
clock n = n

abbrev no_text : Exn → Str
no_text x = []

abbrev no_list : List ShredResult → Str
no_list rs = []

abbrev provisioned_once : Vault
provisioned_once = (Shred.provision toy_crypto eve Shred.new_vault).1

abbrev local_run : Result (List ShredResult) × (Vault × ℕ)
local_run = crypto_shred_hook (local_vault clock) no_text no_list both (provisioned_once, 0)

local_hook_run :
    (results : List ShredResult) × (local_run.0 ≡ ok results)
    × (map (λ r. r.entity_id) results ≡ both)
    × (Shred.decrypt toy_crypto eve
          (1 ∷ [])
          []
          (run_calls toy_crypto (provisioned bob ∷ []) local_run.1.0)
        ≡ raise (runtime_error (gone_text toy_crypto (strip eve))))
local_hook_run =
    crypto_shred_hook-final toy_crypto clock no_text no_list both provisioned_once 0 eve
      (provisioned bob ∷ []) (1 ∷ []) [] refl

-- A service that is down.
abbrev down : Kms
down = record {
  K = Unit {0};
  wrap_dek = λ e dek k. (raise (runtime_error (codes "down")), k);
  unwrap_dek = λ e blob k. (raise (runtime_error (codes "down")), k);
  destroy_entity_key = λ e k. (raise (runtime_error (codes "down")), k);
}

abbrev start : KmsVault toy_crypto no_text down
start = Kms.new_vault toy_crypto no_text down tt

abbrev kms_run : Result (List ShredResult) × (KmsVault toy_crypto no_text down × ℕ)
kms_run =
    crypto_shred_hook (kms_vault toy_crypto no_text down clock) no_text no_list both (start, 0)

kms_hook-final_example :
    (results : List ShredResult) × (kms_run.0 ≡ ok results)
    × (map (λ r. r.entity_id) results ≡ both)
    × ((Kms.decrypt toy_crypto no_text down eve (1 ∷ []) [] (
          KmsFinal.run_calls toy_crypto no_text down (KmsFinal.provisioned bob ∷ []) kms_run.1.0)).0
        ≡ raise (runtime_error (gone_text toy_crypto (strip eve))))
kms_hook-final_example =
    kms_hook-final toy_crypto clock no_text down no_list both start 0 eve
      (KmsFinal.provisioned bob ∷ []) (1 ∷ []) [] refl
