-- ===== src/Encrypted.antt =====
-- internal/store/encrypted/encrypted.go: the encrypting wrapper over the SQLite store.
pub mod Sealing
pub mod RoundTrip
pub mod Retry
pub mod Merge
pub mod Patch
use tabby_sync.Common.{
  ℕ, zero, suc, ℤ, Bytes, bytes_eq, Bool, true, false, not, ◌||◌, Option, none, some, List, [], ◌∷◌,
  length, ◌==◌, if◌then◌else◌,
}
use tabby_sync.Store.{
  Config, CreateConfigInput, UpdateConfigPatch, CreateConfigPlaintextInput,
  UpdateConfigPlaintextPatch, ConfigWithPlaintext, Result, ok, err, config_changed, decrypt_failed,
  internal, EncryptedStore,
}
use tabby_sync.Sqlite.Driver.{Env, Db, M, ◌>>=◌, ◌>>◌, pure}
use tabby_sync.Sqlite.{
  lift, get_config, create_config_with_id, list_configs_by_user, update_config, delete_config,
  count_configs_by_user,
}
use tabby_sync.Crypto.{Primitives, encrypt, decrypt, key_size}

-- toPlaintext
unfoldable pub to_plaintext : Config → Bytes → ConfigWithPlaintext
to_plaintext row plain = record {
  id = row.id;
  user_id = row.user_id;
  name = row.name;
  content = plain;
  last_used_with_version = row.last_used_with_version;
  created_at = row.created_at;
  modified_at = row.modified_at;
}

-- New: the wrapper's copy of the master key.
unfoldable pub new_store : Bytes → Result Bytes
new_store master_key = if length master_key == key_size then ok master_key else err internal

-- patch.X != nil && *patch.X != current
unfoldable pub differs : Option Bytes → Bytes → Bool
differs none current = false
differs (some new) current = not (bytes_eq new current)

-- The pointer, if the field changed.
abbrev pub only_if {ℓ} : {A : Type ℓ} → Bool → Option A → Option A
only_if b o = if b then o else none

-- What one round of UpdateConfigPlaintext's loop ends with.
pub data Round : Type 0 where
  return : Result ConfigWithPlaintext × Db → Round
  continue : Db → Round

module _ (prim : Primitives) (env : Env) (key : Bytes) (user_id : ℤ) where
  -- What the builder passed to CreateConfigWithID returns for the reserved id.
  unfoldable pub build_create :
      Option Bytes → CreateConfigPlaintextInput → ℤ → Result CreateConfigInput
  build_create random i config_id = elim (encrypt prim random key user_id config_id i.content) [
    | ok sealed ↦ ok (record {
      name = i.name;
      content_ciphertext = sealed.0;
      content_nonce = sealed.1;
      last_used_with_version = i.last_used_with_version;
    })
    | err e ↦ err e
  ]

  unfoldable pub create_config_plaintext :
      Option Bytes → CreateConfigPlaintextInput → M ConfigWithPlaintext
  unfolding to_plaintext
  create_config_plaintext random i = do
    row ← create_config_with_id env user_id (some (build_create random i))
    pure (to_plaintext row i.content)

  -- A row decrypted as it is read, under the id that is asked for.
  unfoldable pub open_row : ℤ → Config → Result ConfigWithPlaintext
  unfolding to_plaintext
  open_row config_id row =
      elim (decrypt prim key user_id config_id row.content_ciphertext row.content_nonce) [
        | ok plain ↦ ok (to_plaintext row plain)
        | err e ↦ err decrypt_failed
      ]

  unfoldable pub get_config_plaintext : ℤ → M ConfigWithPlaintext
  get_config_plaintext config_id = do
    row ← get_config env user_id config_id
    lift (open_row config_id row)

  unfoldable pub open_all : List Config → Result (List ConfigWithPlaintext)
  open_all [] = ok []
  open_all (row ∷ rows) =
      let rest = open_all rows in
      elim (open_row row.id row) [
        | ok c ↦ elim rest [ ok cs ↦ ok (c ∷ cs) | err e ↦ err e ]
        | err e ↦ err decrypt_failed
      ]

  unfoldable pub list_configs_by_user_plaintext : M (List ConfigWithPlaintext)
  list_configs_by_user_plaintext = do rows ← list_configs_by_user env user_id; lift (open_all rows)

  unfoldable pub delete_config_plaintext : ℤ → M (Unit {0})
  delete_config_plaintext = delete_config env user_id

  unfoldable pub count_configs_plaintext : M ℕ
  count_configs_plaintext = count_configs_by_user env user_id

  -- The patch of a real change: only what changed, and the version as given.
  unfoldable pub change_patch :
      Option Bytes → ℤ → UpdateConfigPlaintextPatch → ConfigWithPlaintext → Result UpdateConfigPatch
  change_patch random config_id patch current =
      let named = only_if (differs patch.name current.name) patch.name in
      elim (only_if (differs patch.content current.content) patch.content) [
        | none ↦ ok (record {
          name = named;
          content_ciphertext = [];
          content_nonce = [];
          last_used_with_version = patch.last_used_with_version;
          preserve_modified_at = false;
          expected_modified_at = none;
        })
        | some content ↦ elim (encrypt prim random key user_id config_id content) [
          | ok sealed ↦ ok (record {
            name = named;
            content_ciphertext = sealed.0;
            content_nonce = sealed.1;
            last_used_with_version = patch.last_used_with_version;
            preserve_modified_at = false;
            expected_modified_at = none;
          })
          | err e ↦ err e
        ]
      ]

  -- The patch of a request that changes neither name nor content.
  unfoldable pub idle_patch : UpdateConfigPlaintextPatch → ConfigWithPlaintext → UpdateConfigPatch
  idle_patch patch current = record {
    name = none;
    content_ciphertext = [];
    content_nonce = [];
    last_used_with_version =
        only_if (differs patch.last_used_with_version current.last_used_with_version)
          patch.last_used_with_version;
    preserve_modified_at = true;
    expected_modified_at = some current.modified_at;
  }

  unfoldable pub is_change : UpdateConfigPlaintextPatch → ConfigWithPlaintext → Bool
  is_change patch current = differs patch.name current.name || differs patch.content current.content

  -- What follows the conditional update: ErrConfigChanged starts the next round.
  unfoldable pub after_idle : ℤ → Result Config → Db → Round
  after_idle config_id (ok row) db = return (get_config_plaintext config_id db)
  after_idle config_id (err config_changed) db = continue db
  after_idle config_id (err e) db = return (err e, db)

  -- ctx.Err(), by the round; what other connections commit between the read and the write of a
  -- round; and the random bytes of its encryption.
  module _ (cancelled : ℕ → Bool) (others : ℕ → Db → Db) (random : ℕ → Option Bytes) (config_id : ℤ)
      (patch : UpdateConfigPlaintextPatch) where
    unfoldable pub write_round : ℕ → ConfigWithPlaintext → Db → Round
    write_round n current db =
        if is_change patch current
        then return (
            (do
              inner ← lift (change_patch (random n) config_id patch current)
              update_config env user_id config_id inner
              get_config_plaintext config_id)
              db)
        else (let r = update_config env user_id config_id (idle_patch patch current) db in
            after_idle config_id r.0 r.1)

    unfoldable pub update_round : ℕ → Db → Round
    update_round n db =
        if cancelled n
        then return (err internal, db)
        else (let r = get_config_plaintext config_id db in
            elim r.0 [
              | ok current ↦ write_round n current (others n r.1)
              | err e ↦ return (err e, r.1)
            ])

    -- The loop, on fuel: `none` means that the fuel ran out.
    unfoldable pub update_loop : ℕ → ℕ → Db → Option (Result ConfigWithPlaintext × Db)
    update_loop zero n db = none
    update_loop (suc fuel) n db = elim (update_round n db) [
      | return r ↦ some r
      | continue db' ↦ update_loop fuel (suc n) db'
    ]

-- The wrapper as an EncryptedStore. `random` is what the create reads of the system's random
-- source, and `update` the whole update, its loop included.
unfoldable pub encrypted_store :
    Primitives
    → Env
    → Bytes
    → Option Bytes
    → (ℤ → ℤ → UpdateConfigPlaintextPatch → M ConfigWithPlaintext)
    → EncryptedStore Db
unfolding delete_config_plaintext count_configs_plaintext
encrypted_store prim env key random update = record {
  create_config_plaintext = λ u. create_config_plaintext prim env key u random;
  get_config_plaintext = λ u. get_config_plaintext prim env key u;
  list_configs_by_user_plaintext = λ u. list_configs_by_user_plaintext prim env key u;
  update_config_plaintext = update;
  delete_config = λ u. delete_config_plaintext prim env key u;
  count_configs_by_user = λ u. count_configs_plaintext prim env key u;
}
