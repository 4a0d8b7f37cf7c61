-- ===== src/Encrypted/Sealing.antt =====
-- What Encrypt delivers to the store: a ciphertext and a nonce that the store accepts and that
-- Decrypt opens.
use tabby_sync.Common.{
  ℕ, suc, ◌+◌, ℤ, Bytes, is_empty, false, some, List, [], ◌∷◌, ◌≡◌, refl, arith, length,
}
use tabby_sync.Store.{ok}
use tabby_sync.Crypto.{
  Primitives, IsAead, derive_subkey, hkdf_info, build_aad, encrypt, decrypt, decrypt-encrypt,
  key_size, nonce_size,
}

pub not_empty : {A : Type 0} (xs : List A) (n k : ℕ) → length xs ≡ n + suc k → is_empty xs ≡ false
not_empty [] n k e = absurd (omega arith)
not_empty (x ∷ xs) n k e = refl

module _ (prim : Primitives) (aead : IsAead prim) (key : Bytes) (sized : length key ≡ key_size)
    (u : ℤ) (nonce : Bytes) (fresh : length nonce ≡ nonce_size) where
  -- A ciphertext and its facts.
  pub record Sealed (id : ℤ) (plain : Bytes) : Type 0 where
    pub ciphertext : Bytes
    pub encrypted : encrypt prim (some nonce) key u id plain ≡ ok (ciphertext, nonce)
    pub stored : is_empty ciphertext ≡ false
    pub stored_nonce : is_empty nonce ≡ false
    pub opened : decrypt prim key u id ciphertext nonce ≡ ok plain

  derived : (sub : Bytes) × (derive_subkey prim key u ≡ ok sub)
  unfolding derive_subkey
  derived = let (sub, e) = aead.derives key (hkdf_info u) sized in (sub, ground arith)

  pub seal_lem : (id : ℤ) (plain : Bytes) → Sealed id plain
  unfolding encrypt
  seal_lem id plain =
      let (sub, e) = derived in
      let ct = prim.seal sub nonce plain (build_aad u id) in
      let sealed : encrypt prim (some nonce) key u id plain ≡ ok (ct, nonce) = ground arith in
      record {
        ciphertext = ct;
        encrypted = sealed;
        stored = not_empty ct (length plain) 15 (aead.tagged sub nonce plain (build_aad u id));
        stored_nonce = not_empty nonce 0 11 (omega arith);
        opened = decrypt-encrypt prim aead (some nonce) key u id plain ct nonce sealed fresh;
      }
