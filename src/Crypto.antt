-- ===== src/Crypto.antt =====
-- internal/crypto/crypto.go: the key derivation label, the canonical AAD, Encrypt and Decrypt.
-- HKDF-SHA256, AES-GCM and the system's random bytes are parameters.
pub mod Aad
use tabby_sync.Common.{
  ℕ, zero, suc, ◌+◌, ◌-◌, ◌/◌, ◌%◌, ◌^◌, ℤ, pos, negsuc, Bytes, lit, print_ℤ, Bool, true, false,
  Option, none, some, List, [], ◌∷◌, ◌++◌, ◌≡◌, length, ◌==◌, if◌then◌else◌, inl, inr, arith,
}
use tabby_sync.Store.{Result, ok, err, decrypt_failed, internal, Result-cases}

abbrev pub crypto_version : ℕ
crypto_version = 1

abbrev pub nonce_size : ℕ
nonce_size = 12

abbrev pub key_size : ℕ
key_size = 32

unfoldable pub hkdf_info : ℤ → Bytes
hkdf_info user_id = lit "tabby-sync/v1/user/" ++ print_ℤ user_id

-- uint64(x): the two's complement bit pattern.
unfoldable pub uint64 : ℤ → ℕ
uint64 (pos n) = n % 2 ^ 64
uint64 (negsuc n) = 2 ^ 64 - 1 - n % 2 ^ 64

-- The `k` low bytes of a number, the most significant first (binary.BigEndian.PutUint64 at 8).
unfoldable pub big_endian : ℕ → ℕ → Bytes
big_endian zero n = []
big_endian (suc k) n = big_endian k (n / 256) ++ n % 256 ∷ []

unfoldable pub build_aad : ℤ → ℤ → Bytes
unfolding big_endian uint64
build_aad user_id config_id =
    crypto_version ∷ (big_endian 8 (uint64 user_id) ++ big_endian 8 (uint64 config_id))

-- What the code takes from crypto/aes, crypto/cipher and golang.org/x/crypto/hkdf.
pub record Primitives : Type 0 where
  -- 32 bytes of HKDF-SHA256 of a key under an info label; `none` where the read fails.
  pub hkdf : Bytes → Bytes → Option Bytes
  -- AES-256-GCM: key, nonce, plaintext, associated data.
  pub seal : Bytes → Bytes → Bytes → Bytes → Bytes
  -- AES-256-GCM: key, nonce, ciphertext, associated data; `none` where the tag does not match.
  pub open_sealed : Bytes → Bytes → Bytes → Bytes → Option Bytes

-- Their documented behaviour: HKDF delivers as many bytes as a derived key has, what was sealed
-- opens under the same key, nonce and associated data, and a ciphertext carries a 16 byte tag.
pub record IsAead (prim : Primitives) : Type 0 where
  pub derives :
      (key info : Bytes) → length key ≡ key_size → (sub : Bytes) × (prim.hkdf key info ≡ some sub)
  pub opens :
      (key nonce plain aad : Bytes)
      → prim.open_sealed key nonce (prim.seal key nonce plain aad) aad ≡ some plain
  pub tagged :
      (key nonce plain aad : Bytes) → length (prim.seal key nonce plain aad) ≡ length plain + 16

module _ (prim : Primitives) where
  unfoldable pub derive_subkey : Bytes → ℤ → Result Bytes
  derive_subkey master_key user_id =
      if length master_key == key_size
      then (elim (prim.hkdf master_key (hkdf_info user_id)) [ none ↦ err internal | some k ↦ ok k ])
      else err internal

  -- `random` is what one read of 12 bytes from crypto/rand gives. The result is the ciphertext and
  -- the nonce.
  unfoldable pub encrypt : Option Bytes → Bytes → ℤ → ℤ → Bytes → Result (Bytes × Bytes)
  encrypt random master_key user_id config_id plaintext = elim (derive_subkey master_key user_id) [
    | err e ↦ err e
    | ok subkey ↦ elim random [
      | none ↦ err internal
      | some nonce ↦ ok (prim.seal subkey nonce plaintext (build_aad user_id config_id), nonce)
    ]
  ]

  -- Every failure is ErrDecrypt.
  unfoldable pub decrypt : Bytes → ℤ → ℤ → Bytes → Bytes → Result Bytes
  decrypt master_key user_id config_id ciphertext nonce =
      if length nonce == nonce_size
      then (elim (derive_subkey master_key user_id) [
        | err e ↦ err decrypt_failed
        | ok subkey ↦
            elim (prim.open_sealed subkey nonce ciphertext (build_aad user_id config_id)) [
              | none ↦ err decrypt_failed
              | some plaintext ↦ ok plaintext
            ]
      ])
      else err decrypt_failed

  -- If the cipher has the AEAD laws and Encrypt returned a ciphertext and a nonce of 12 bytes,
  -- Decrypt returns the plaintext for the same key, user and configuration.
  pub decrypt-encrypt :
      (aead : IsAead prim) (random : Option Bytes) (key : Bytes) (u id : ℤ)
      (plain ciphertext nonce : Bytes)
      → encrypt random key u id plain ≡ ok (ciphertext, nonce)
      → length nonce ≡ nonce_size
      → decrypt key u id ciphertext nonce ≡ ok plain
  unfolding encrypt decrypt
  decrypt-encrypt aead random key u id plain ct nonce e l =
      elim (Result-cases (derive_subkey key u)) [
        | inl (subkey, derived) ↦ ground (arith, aead.opens subkey nonce plain (build_aad u id))
        | inr (f, failed) ↦ ground arith
      ]
