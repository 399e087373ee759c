-- ===== src/Kms/Tests.antt =====
-- A run of compliance/kms_backends.py over the local service, with the toy cipher.
use unlearning.Prelude.{
  ℕ, zero, suc, ◌≡◌, refl, none, some, List, [], ◌∷◌, Str, Exn, runtime_error, Result, ok, raise,
}
use unlearning.Prelude.Dict.{get}
use unlearning.Prelude.Eq.{str_eq}
use unlearning.Prelude.Text.{codes, strip}
use unlearning.Shred.{Bytes, gone_text}
use unlearning.Shred.Toy.{toy_crypto, toy-IsAead}
use unlearning.Kms
use unlearning.Kms.{Kms, KmsVault}
use unlearning.Kms.Local.{
  Saved, LocalFileKms, shredded_text, new_local_kms, wrap_dek, unwrap_dek, destroy_entity_key,
  local_kms,
}
use unlearning.Kms.Final.{VaultCall, provisioned, run_calls, kms_shred-final}
use unlearning.Kms.Reopen.{destroyed-reopened}

abbrev zeros : ℕ → Bytes
zeros zero = []
zeros (suc n) = 0 ∷ zeros n

abbrev encode : Str → Bytes
encode s = s

abbrev no_text : Exn → Str
no_text x = []

abbrev eve : Str
eve = codes "eve"

abbrev key : Bytes
key = 4 ∷ 2 ∷ []

abbrev saved : Saved
saved = record { master = zeros 32; wrapped = []; destroyed = [] }

abbrev service : LocalFileKms
service = record {
  path = some (codes "k");
  file = some saved;
  master = zeros 32;
  wrapped = [];
  destroyed = [];
  tokens = 0;
}

program : Unit {0}
unfolding unlearning.Prelude.Dict.get unlearning.Prelude.Dict.put unlearning.Prelude.Dict.remove
    unlearning.Prelude.Text.is_space unlearning.Prelude.Text.lstrip unlearning.Prelude.Text.rstrip
    unlearning.Prelude.Text.strip unlearning.Kms.Local.persist unlearning.Kms.Local.wrap_dek
    unlearning.Kms.Local.destroy_entity_key unlearning.Kms.new_vault unlearning.Kms.wrap_new
    unlearning.Kms.provision unlearning.Kms.shred unlearning.Kms.Final.run_calls
program = tt

abbrev wrapped : Result Bytes × LocalFileKms
wrapped = wrap_dek toy_crypto encode eve key service

abbrev blob : Bytes
blob = 0 ∷ 0 ∷ 0 ∷ 0 ∷ 0 ∷ 0 ∷ 0 ∷ 0 ∷ 0 ∷ 0 ∷ 0 ∷ 0 ∷ 32 ∷ 4 ∷ 2 ∷ []

wrapped_run : wrapped ≡ (ok blob, wrapped.1)
unfolding program
wrapped_run = refl

abbrev destroyed : LocalFileKms
destroyed = destroy_entity_key eve wrapped.1

destroyed-reopened_example :
    (unwrap_dek toy_crypto encode eve blob destroyed
      ≡ raise (runtime_error (shredded_text toy_crypto.repr eve)))
    × ((k₁ : LocalFileKms) × (new_local_kms toy_crypto encode
            (some (codes "k"))
            none
            destroyed.file
            5
          ≡ ok k₁)
        × (unwrap_dek toy_crypto encode eve blob k₁
            ≡ raise (runtime_error (shredded_text toy_crypto.repr eve))))
    × ((k₂ : LocalFileKms) × (new_local_kms toy_crypto encode
            (some (codes "k"))
            (some (zeros 32))
            destroyed.file
            5
          ≡ ok k₂)
        × (unwrap_dek toy_crypto encode eve blob k₂ ≡ ok key))
unfolding program
destroyed-reopened_example =
    destroyed-reopened toy_crypto encode eve key blob service wrapped.1 107 [] 5 toy-IsAead refl
      refl wrapped_run

abbrev toy_kms : Kms
toy_kms = local_kms toy_crypto encode

abbrev vault : KmsVault toy_crypto no_text toy_kms
vault =
    (Kms.provision toy_crypto no_text toy_kms eve
      (Kms.new_vault toy_crypto no_text toy_kms service)).1

abbrev later : List (VaultCall toy_crypto)
later = provisioned eve ∷ []

abbrev after : KmsVault toy_crypto no_text toy_kms
after =
    run_calls toy_crypto no_text toy_kms later (Kms.shred toy_crypto no_text toy_kms eve 9 vault).1

kms_shred-final_example :
    (get (strip eve) after.records ≡ none)
    × (Kms.decrypt toy_crypto no_text toy_kms eve blob [] after
        ≡ (raise (runtime_error (gone_text toy_crypto (strip eve))), after))
    × ((x : Exn) × (Kms.provision toy_crypto no_text toy_kms eve after ≡ (raise x, after)))
kms_shred-final_example = kms_shred-final toy_crypto no_text toy_kms eve 9 vault later blob [] refl
