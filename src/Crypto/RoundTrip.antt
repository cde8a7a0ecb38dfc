-- ===== src/Crypto/RoundTrip.antt =====
-- What is encrypted or encoded is read back (internal/platform/crypto/aesgcm.go).
use meta_posting.Prelude.{
  ℕ, ◌+◌, ◌*◌, ◌/◌, ◌%◌, ◌≤◌, ◌<◌, false, ◌≡◌, refl, ap, Option, some, List, [], ◌∷◌, ◌++◌, ◌==◌,
  ==_iff, ltb, length, arith,
}
use mathlib.Core.Path.{subst}
use meta_posting.Insights.Rotation.{take, drop}
use meta_posting.Crypto.{
  EncryptedValue, Aead, good, bad, unsupported_key_version, sealed, encrypt, decrypt,
  encode_compact, decode_compact,
}

swapped : (a b : ℕ) → (a == b) ≡ false → (b == a) ≡ false
swapped a b h = ground arith

-- What a text encrypts to under a nonce of the right size decrypts to the text with the same key
-- version and associated data, and no other key version accepts it. The cipher opens what it has
-- sealed, and what it seals is at least as long as its tag.
pub decrypt-encrypt :
    (aead : Aead)
    → ((nonce plaintext associated : List ℕ)
        → aead.unseal nonce (aead.seal nonce plaintext associated) associated ≡ some plaintext)
    → ((nonce plaintext associated : List ℕ)
        → aead.overhead ≤ length (aead.seal nonce plaintext associated))
    → (version other : ℕ) (nonce plaintext associated : List ℕ) (value : EncryptedValue)
    → length nonce ≡ aead.nonce_size
    → encrypt aead version (some nonce) plaintext associated ≡ good value
    → (decrypt aead version value associated ≡ good plaintext)
      × ((other == version) ≡ false
          → decrypt aead other value associated ≡ bad unsupported_key_version)
unfolding encrypt decrypt
decrypt-encrypt aead opens long version other nonce plaintext associated value size h =
    let same : sealed aead version nonce plaintext associated ≡ value = ground (arith, h) in
    let fits = (==_iff (length nonce) aead.nonce_size).1 size in
    let own = (==_iff version version).1 refl in
    let tagged : ltb (length (aead.seal nonce plaintext associated)) aead.overhead ≡ false =
      let enough = long nonce plaintext associated in ground arith in
    subst
      (λ v.
        (decrypt aead version v associated ≡ good plaintext)
        × ((other == version) ≡ false
            → decrypt aead other v associated ≡ bad unsupported_key_version))
      same
      (
        rw (own, fits, tagged, opens nonce plaintext associated, decrypt) refl,
        (λ differs. rw (swapped other version differs, decrypt) refl),
      )

length-append-nat : (xs ys : List ℕ) → length (xs ++ ys) ≡ length xs + length ys
length-append-nat [] ys = omega arith
length-append-nat (x ∷ xs) ys = let rest = length-append-nat xs ys in omega arith

take-append : (xs ys : List ℕ) → take (length xs) (xs ++ ys) ≡ xs
unfolding take
take-append [] ys = refl
take-append (x ∷ xs) ys = ap (λ zs. x ∷ zs) (take-append xs ys)

drop-append : (xs ys : List ℕ) → drop (length xs) (xs ++ ys) ≡ ys
unfolding drop
drop-append [] ys = refl
drop-append (x ∷ xs) ys = drop-append xs ys

-- A value whose nonce is not empty, whose ciphertext has the 16 bytes of a tag, and whose version
-- is an int16 that is not negative is read back from its compact form. Base64 decodes what it encodes.
pub decode_compact-encode_compact :
    {Text : Type 0} (encode : List ℕ → Text) (decode : Text → Option (List ℕ))
    → ((bytes : List ℕ) → decode (encode bytes) ≡ some bytes)
    → (value : EncryptedValue) → 1 ≤ length value.nonce
    → 16 ≤ length value.ciphertext
    → value.key_version < 32768
    → decode_compact encode decode (encode_compact encode decode value) (length value.nonce)
      ≡ good value
unfolding decode_compact encode_compact
decode_compact-encode_compact encode decode law value one tag fits =
    let raw =
      value.key_version / 256 % 256 ∷ value.key_version % 256 ∷ (value.nonce ++ value.ciphertext) in
    let size = length-append-nat value.nonce value.ciphertext in
    let some_nonce : (length value.nonce == 0) ≡ false = ground arith in
    let enough : ltb (length raw) (2 + length value.nonce + 16) ≡ false = ground arith in
    let version : value.key_version / 256 % 256 * 256 + value.key_version % 256
        ≡ value.key_version =
      omega arith in
    rw
      (
        law raw,
        some_nonce,
        enough,
        version,
        take-append value.nonce value.ciphertext,
        drop-append value.nonce value.ciphertext,
        decode_compact,
      )
      refl
