-- ===== src/Crypto.antt =====
-- The encryption of stored access tokens (internal/platform/crypto/aesgcm.go). Bytes are numbers;
-- the cipher, the source of nonces and base64 are parameters.
pub mod RoundTrip
mod Tests
use meta_posting.Prelude.{
  ℕ, ◌+◌, ◌*◌, ◌/◌, ◌%◌, String, Bool, true, false, not, ◌||◌, Option, none, some, List, [], ◌∷◌,
  ◌++◌, ◌==◌, ltb, leb, length, if◌then◌else◌,
}
use meta_posting.Insights.Rotation.{take, drop}

pub record EncryptedValue : Type 0 where
  pub ciphertext : List ℕ
  pub nonce : List ℕ
  pub key_version : ℕ

-- `cipher.AEAD`.
pub record Aead : Type 0 where
  pub nonce_size : ℕ
  pub overhead : ℕ
  pub seal : List ℕ → List ℕ → List ℕ → List ℕ
  pub unseal : List ℕ → List ℕ → List ℕ → Option (List ℕ)

pub data CryptoError : Type 0 where
  unsupported_key_version invalid_nonce_size invalid_ciphertext : CryptoError
  not_authentic no_randomness not_base64 : CryptoError

pub data Outcome (A : Type 0) : Type 0 where
  good : A → Outcome A
  bad : CryptoError → Outcome A

module _ (aead : Aead) (key_version : ℕ) where
  abbrev pub sealed : List ℕ → List ℕ → List ℕ → EncryptedValue
  sealed nonce plaintext associated = record {
    ciphertext = aead.seal nonce plaintext associated;
    nonce = nonce;
    key_version = key_version;
  }

  -- `Encrypt`; `none` is a failure of the source of nonces.
  unfoldable pub encrypt : Option (List ℕ) → List ℕ → List ℕ → Outcome EncryptedValue
  encrypt none plaintext associated = bad no_randomness
  encrypt (some nonce) plaintext associated = good (sealed nonce plaintext associated)

  abbrev pub authenticated : Option (List ℕ) → Outcome (List ℕ)
  authenticated none = bad not_authentic
  authenticated (some plaintext) = good plaintext

  -- `Decrypt`.
  unfoldable pub decrypt : EncryptedValue → List ℕ → Outcome (List ℕ)
  decrypt value associated =
      if not (value.key_version == key_version)
      then bad unsupported_key_version
      else if not (length value.nonce == aead.nonce_size)
      then bad invalid_nonce_size
      else if ltb (length value.ciphertext) aead.overhead
      then bad invalid_ciphertext
      else authenticated (aead.unseal value.nonce value.ciphertext associated)

-- `Text` is what base64 writes.
module _ {Text : Type 0} (encode : List ℕ → Text) (decode : Text → Option (List ℕ)) where
  -- `EncodeCompact`: the version in two bytes, the nonce and the ciphertext.
  unfoldable pub encode_compact : EncryptedValue → Text
  encode_compact value =
      encode (
        value.key_version / 256 % 256 ∷ value.key_version % 256 ∷ (value.nonce ++ value.ciphertext))

  abbrev pub versioned : ℕ → List ℕ → Outcome EncryptedValue
  versioned nonce_size (high ∷ low ∷ rest) = good (record {
    key_version = high * 256 + low;
    nonce = take nonce_size rest;
    ciphertext = drop nonce_size rest;
  })
  versioned nonce_size _ = bad invalid_ciphertext

  -- `DecodeCompact`.
  unfoldable pub decode_compact : Text → ℕ → Outcome EncryptedValue
  unfolding take drop
  decode_compact encoded nonce_size = elim (decode encoded) [
    | none ↦ bad not_base64
    | some raw ↦
        if (nonce_size == 0) || ltb (length raw) (2 + nonce_size + 16)
        then bad invalid_ciphertext
        else versioned nonce_size raw
  ]
