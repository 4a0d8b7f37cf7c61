-- ===== src/Sqlite.antt =====
-- internal/store/sqlite/sqlite.go: the operations of the SQLite store, statement by statement.
pub mod Driver
mod Table
pub mod Frames
pub mod Operations
pub mod Isolation
pub mod Growth
pub mod Invariant
pub mod Healthy
pub mod Atomicity
pub mod Rows
pub mod CompareAndSet
pub mod Contract
pub mod Open
unfoldable pub use Table.*
use tabby_sync.Common.{
  ℕ, ◌+◌, if◌then◌else◌, ℤ, not, ◌||◌, Option, none, some, List, [], ◌∷◌, length, ltb, ◌==◌,
}
use tabby_sync.Store.{
  Time, Config, CreateConfigInput, UpdateConfigPatch, Result, config_not_found, invalid_patch,
  config_changed, internal,
}
use Driver.{Env, M, ◌>>=◌, ◌>>◌, pure, throw, guard, call, now_fn}

module _ (env : Env) where
  -- BeginTx, the body, and Commit; if the body or the Commit fails, the deferred Rollback undoes the
  -- body, and what follows the Commit stands outside.
  abbrev pub transaction : {A : Type 0} → M A → M A
  transaction body = do call env; with_rollback (do a ← body; call env; pure a)

  unfoldable pub next_modified_at : Time → M Time
  next_modified_at old = do
    candidate ← now_fn env
    pure (if ltb old candidate then candidate else old + 1000000)

  unfoldable pub get_config : ℤ → ℤ → M Config
  get_config user_id config_id = do
    call env
    found ← select_row (addressed user_id config_id)
    row ← lift (or_not_found found)
    lift (scan_config row)

  unfoldable pub create_config : ℤ → CreateConfigInput → M Config
  create_config user_id i = do
    guard (validate_create_input i) invalid_patch
    now ← now_fn env
    call env
    id ←
        insert_row user_id i.name i.content_ciphertext i.content_nonce
          (null_if_empty i.last_used_with_version) now
    call env
    get_config user_id id

  -- From the call of the builder, for the reserved id, to the last read.
  unfoldable pub create_reserved : ℤ → (ℤ → Result CreateConfigInput) → Time → ℤ → M Config
  create_reserved user_id build created_at id = do
    call env
    i ← lift (build id)
    guard (validate_create_input i) invalid_patch
    modified_at ← next_modified_at created_at
    call env
    affected ← update_rows (addressed user_id id) (finalise i modified_at)
    call env
    guard (affected == 1) internal
    call env
    found ← select_row (addressed user_id id)
    row ← lift (or_internal found)
    lift (scan_config row)

  -- What the transaction does.
  unfoldable pub create_in_tx : ℤ → (ℤ → Result CreateConfigInput) → M Config
  create_in_tx user_id build = do
    created_at ← now_fn env
    call env
    id ← insert_row user_id [] (0 ∷ []) (0 ∷ []) none created_at
    create_reserved user_id build created_at id

  -- A nil builder is `none`.
  unfoldable pub create_config_with_id : ℤ → Option (ℤ → Result CreateConfigInput) → M Config
  create_config_with_id user_id none = throw invalid_patch
  create_config_with_id user_id (some build) = transaction (create_in_tx user_id build)

  unfoldable pub list_configs_by_user : ℤ → M (List Config)
  list_configs_by_user user_id = do
    call env
    rows ← select_rows (owned user_id)
    configs ← lift (scan_all rows)
    call env
    pure configs

  -- The timestamp that an update writes, if any.
  unfoldable pub update_stamp : UpdateConfigPatch → Time → M (Option Time)
  update_stamp p old =
      if p.preserve_modified_at then pure none else (do t ← next_modified_at old; pure (some t))

  unfoldable pub write_patch : ℤ → ℤ → UpdateConfigPatch → Option Time → M (Unit {0})
  write_patch user_id config_id p modified =
      if has_clauses p
      then (do
        call env
        update_rows (addressed user_id config_id) (apply_patch p modified)
        pure tt)
      else pure tt

  -- What the transaction does, from the read of modified_at.
  unfoldable pub update_in_tx : ℤ → ℤ → UpdateConfigPatch → M (Unit {0})
  update_in_tx user_id config_id p = do
    call env
    found ← select_row (addressed user_id config_id)
    row ← lift (or_not_found found)
    old ← lift (parse_stamp row.modified_at)
    guard (not p.preserve_modified_at || expects p.expected_modified_at old) config_changed
    modified ← update_stamp p old
    write_patch user_id config_id p modified

  unfoldable pub update_config : ℤ → ℤ → UpdateConfigPatch → M Config
  update_config user_id config_id p = do
    guard (patch_is_valid p) invalid_patch
    transaction (update_in_tx user_id config_id p)
    get_config user_id config_id

  unfoldable pub delete_config : ℤ → ℤ → M (Unit {0})
  delete_config user_id config_id = do
    call env
    affected ← delete_rows (addressed user_id config_id)
    call env
    guard (not (affected == 0)) config_not_found

  unfoldable pub count_configs_by_user : ℤ → M ℕ
  count_configs_by_user user_id = do
    call env
    rows ← select_rows (owned user_id)
    pure (length rows)
