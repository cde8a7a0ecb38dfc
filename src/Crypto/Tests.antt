-- ===== src/Crypto/Tests.antt =====
-- The round trips with a cipher that hides nothing and a text that is its bytes.
use meta_posting.Prelude.{ℕ, false, ◌≡◌, refl, Option, some, List, [], ◌∷◌, ◌==◌, arith}
use meta_posting.Crypto.{
  EncryptedValue, Aead, good, bad, unsupported_key_version, sealed, encrypt, decrypt,
  encode_compact, decode_compact,
}
use meta_posting.Crypto.RoundTrip.{decrypt-encrypt, decode_compact-encode_compact}

abbrev open_cipher : Aead
open_cipher = record {
  nonce_size = 2;
  overhead = 0;
  seal = λ nonce plaintext associated. plaintext;
  unseal = λ nonce ciphertext associated. some ciphertext;
}

abbrev token : EncryptedValue
token = sealed open_cipher 1 (7 ∷ 8 ∷ []) (65 ∷ 66 ∷ []) []

decrypt-encrypt_example :
    (decrypt open_cipher 1 token [] ≡ good (65 ∷ 66 ∷ []))
    × ((2 == 1) ≡ false → decrypt open_cipher 2 token [] ≡ bad unsupported_key_version)
unfolding encrypt
decrypt-encrypt_example =
    decrypt-encrypt open_cipher (λ n p a. refl) (λ n p a. omega arith) 1 2 (7 ∷ 8 ∷ [])
      (65 ∷ 66 ∷ []) [] token refl refl

abbrev stored : EncryptedValue
stored = record {
  ciphertext = 1 ∷ 2 ∷ 3 ∷ 4 ∷ 5 ∷ 6 ∷ 7 ∷ 8 ∷ 9 ∷ 10 ∷ 11 ∷ 12 ∷ 13 ∷ 14 ∷ 15 ∷ 16 ∷ [];
  nonce = 7 ∷ 8 ∷ [];
  key_version = 258;
}

abbrev same_bytes : List ℕ → List ℕ
same_bytes bytes = bytes

abbrev some_bytes : List ℕ → Option (List ℕ)
some_bytes bytes = some bytes

decode_compact-encode_compact_example :
    decode_compact same_bytes some_bytes (encode_compact same_bytes some_bytes stored) 2
    ≡ good stored
decode_compact-encode_compact_example =
    decode_compact-encode_compact same_bytes some_bytes (λ bytes. refl) stored (omega arith)
      (omega arith) (omega arith)
