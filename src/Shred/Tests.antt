-- ===== src/Shred/Tests.antt =====
-- A run of compliance/crypto_shred.py with the toy cipher.
use unlearning.Prelude.{ℕ, ◌≡◌, refl, none, List, [], ◌∷◌, Exn, runtime_error, Result, ok, raise}
use unlearning.Prelude.Dict.{get}
use unlearning.Prelude.Eq.{str_eq}
use unlearning.Prelude.Text.{codes, strip}
use unlearning.Shred.{Bytes, Vault, new_vault, gone_text, provision, encrypt, decrypt, shred}
use unlearning.Shred.Toy.{toy_crypto, toy-IsAead}
use unlearning.Shred.Final.{VaultCall, provisioned, shredded, run_calls, shred-final}
use unlearning.Shred.Kept.{encrypt-decrypt}

abbrev eve : List ℕ
eve = codes " eve "

abbrev text : Bytes
text = 7 ∷ 8 ∷ []

abbrev sealed : Result Bytes × Vault
sealed = encrypt toy_crypto eve text [] new_vault

abbrev blob : Bytes
blob = 1 ∷ 0 ∷ 0 ∷ 0 ∷ 0 ∷ 0 ∷ 0 ∷ 0 ∷ 0 ∷ 0 ∷ 0 ∷ 0 ∷ 12 ∷ 7 ∷ 8 ∷ []

abbrev later : List (VaultCall toy_crypto)
later = provisioned (codes "eve") ∷ shredded (codes "bob") 5 ∷ []

program : Unit {0}
unfolding unlearning.Prelude.Dict.get unlearning.Prelude.Dict.put unlearning.Prelude.Dict.remove
    unlearning.Prelude.Text.is_space unlearning.Prelude.Text.lstrip unlearning.Prelude.Text.rstrip
    unlearning.Prelude.Text.strip unlearning.Shred.provision_key unlearning.Shred.provision
    unlearning.Shred.seal unlearning.Shred.encrypt unlearning.Shred.open_blob
    unlearning.Shred.decrypt unlearning.Shred.shred unlearning.Shred.Final.run_calls
    unlearning.Shred.Kept.spares
program = tt

blob_run : encrypt toy_crypto eve text [] new_vault ≡ (ok blob, sealed.1)
unfolding program
blob_run = refl

encrypt-decrypt_example :
    decrypt toy_crypto eve blob [] (run_calls toy_crypto later sealed.1) ≡ ok text
unfolding program
encrypt-decrypt_example =
    encrypt-decrypt toy_crypto eve text [] blob new_vault sealed.1 later toy-IsAead blob_run refl

-- A shred of the entity, and an attempt to give it a new key.
shred-final_example :
    (get
        (strip eve)
        (run_calls toy_crypto (provisioned (codes "eve") ∷ []) (shred eve 9 sealed.1).1).keys
      ≡ none)
    × (decrypt toy_crypto eve blob []
          (run_calls toy_crypto (provisioned (codes "eve") ∷ []) (shred eve 9 sealed.1).1)
        ≡ raise (runtime_error (gone_text toy_crypto (strip eve))))
    × ((x : Exn) × ((provision toy_crypto eve
            (run_calls toy_crypto (provisioned (codes "eve") ∷ []) (shred eve 9 sealed.1).1)).0
          ≡ raise x))
shred-final_example = shred-final toy_crypto eve 9 sealed.1 (provisioned (codes "eve") ∷ []) blob []
