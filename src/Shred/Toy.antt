-- ===== src/Shred/Toy.antt =====
-- A toy cipher for runs of the vaults, which puts the length of the key in front.
use unlearning.Prelude.{
  ℕ, ◌≡◌, refl, arith, [], ◌∷◌, Option, length, ◌==◌, if◌then◌else◌, value_error, Result, ok, raise,
}
use unlearning.Prelude.Eq.{str_eq}
use unlearning.Prelude.Text.{codes}
use unlearning.Shred.{Bytes, Crypto}
use unlearning.Shred.Kept.{IsAead}

abbrev twelve : ℕ → Bytes
twelve n = n ∷ 0 ∷ 0 ∷ 0 ∷ 0 ∷ 0 ∷ 0 ∷ 0 ∷ 0 ∷ 0 ∷ 0 ∷ 0 ∷ []

abbrev strip_tag : Bytes → Bytes → Result Bytes
strip_tag key [] = raise (value_error (codes "no tag"))
strip_tag key (t ∷ text) = if t == length key then ok text else raise (value_error (codes "tag"))

abbrev pub toy_crypto : Crypto
toy_crypto = record {
  F = ℕ;
  repr = λ s. s;
  aes_encrypt = λ key nonce text aad. ok (length key ∷ text);
  aes_decrypt = λ key nonce ct aad. strip_tag key ct;
  token_bytes = λ n i. twelve i;
  to_bytes = λ xs. xs;
  from_bytes = λ bs. ok bs;
}

toy-opens :
    (key nonce text : Bytes) (aad : Option Bytes) (ct : Bytes)
    → toy_crypto.aes_encrypt key nonce text aad ≡ ok ct
    → toy_crypto.aes_decrypt key nonce ct aad ≡ ok text
toy-opens key nonce text aad [] h = absurd (cc)
toy-opens key nonce text aad (t ∷ ct) h = ground arith

pub toy-IsAead : IsAead toy_crypto
toy-IsAead = record {
  nonce = λ n. refl;
  tagged = λ key nonce text aad ct h. ground arith;
  opens = toy-opens;
}
