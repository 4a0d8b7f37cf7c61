-- ===== src/Encrypted/RoundTrip.antt =====
-- CreateConfigPlaintext, and the read after it (internal/store/encrypted/encrypted.go).
use tabby_sync.Common.{
  ℕ, ◌+◌, ◌<◌, ℤ, pos, Bytes, some, [], ◌∷◌, ◌≡◌, refl, arith, length, true, ◌++◌,
}
use tabby_sync.Store.{Time, CreateConfigPlaintextInput, CreateConfigInput, ConfigWithPlaintext, ok}
use tabby_sync.Crypto.{Primitives, IsAead, key_size, nonce_size}
use tabby_sync.Sqlite.Driver.{Db, healthy}
use tabby_sync.Sqlite.{max_int64, validate_create_input, build_config, from_null, null_if_empty}
use tabby_sync.Sqlite.Invariant.{IsSound}
use tabby_sync.Sqlite.Contract.{get_config-read}
use tabby_sync.Sqlite.Contract.Create.{create_config_with_id_stores, get-create_with_id, stored_row}
use tabby_sync.Encrypted.{
  build_create, open_row, to_plaintext, create_config_plaintext, get_config_plaintext,
}
use tabby_sync.Encrypted.Sealing.{seal_lem}

pub null_if_empty-from_null : (s : Bytes) → from_null (null_if_empty s) ≡ s
unfolding from_null null_if_empty
null_if_empty-from_null [] = refl
null_if_empty-from_null (x ∷ s) = refl

module _ (prim : Primitives) (aead : IsAead prim) (key : Bytes) (sized : length key ≡ key_size)
    (now : ℕ → Time) (u : ℤ) (nonce : Bytes) (fresh : length nonce ≡ nonce_size)
    (i : CreateConfigPlaintextInput) (db : Db) (sound : IsSound db)
    (room : db.seq < max_int64) where
  pub record Created : Type 0 where
    pub config : ConfigWithPlaintext
    pub after : Db
    pub returned :
        create_config_plaintext prim (healthy now) key u (some nonce) i db ≡ (ok config, after)
    pub id : config.id ≡ pos (db.seq + 1)
    pub user_id : config.user_id ≡ u
    pub name : config.name ≡ i.name
    pub content : config.content ≡ i.content
    pub last_used_with_version : config.last_used_with_version ≡ i.last_used_with_version
    pub later : config.created_at < config.modified_at
    pub read_back : (get_config_plaintext prim (healthy now) key u config.id after).0 ≡ ok config

  -- With a cipher that has the AEAD laws, a key and a nonce of the right sizes, a sound table with
  -- a free id and no failing driver call, CreateConfigPlaintext returns the input under the next id
  -- with modified_at after created_at, and GetConfigPlaintext then returns the same configuration.
  pub create-get : Created
  unfolding create_config_plaintext get_config_plaintext build_create validate_create_input
      to_plaintext build_config stored_row open_row
  create-get =
      let s = seal_lem prim aead key sized u nonce fresh (pos (db.seq + 1)) i.content in
      let input : CreateConfigInput = record {
        name = i.name;
        content_ciphertext = s.ciphertext;
        content_nonce = nonce;
        last_used_with_version = i.last_used_with_version;
      } in
      let built : build_create prim (healthy now) key u (some nonce) i (pos (db.seq + 1))
          ≡ ok input =
        ground (arith, s.encrypted) in
      let valid : validate_create_input input ≡ true = ground (arith, s.stored, s.stored_nonce) in
      let (c, m, n, lt, ran) =
        create_config_with_id_stores now u (build_create prim (healthy now) key u (some nonce) i)
          input db sound room built valid in
      let row = stored_row db.seq u input c m in
      let end : Db = record { rows = db.rows ++ row ∷ []; seq = db.seq + 1; calls = n } in
      record {
        config = to_plaintext (build_config row c m) i.content;
        after = end;
        returned = ground (arith, ran);
        id = refl;
        user_id = refl;
        name = refl;
        content = refl;
        last_used_with_version = null_if_empty-from_null i.last_used_with_version;
        later = lt;
        read_back = ground (
          arith,
          get_config-read now u (pos (db.seq + 1)) end,
          get-create_with_id now u (build_create prim (healthy now) key u (some nonce) i) input db
              sound room built valid c m n,
          s.opened,
        );
      }
