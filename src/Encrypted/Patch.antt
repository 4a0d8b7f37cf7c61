-- ===== src/Encrypted/Patch.antt =====
-- What UpdateConfigPlaintext does to a row that it can read, when nobody else writes.
use tabby_sync.Common.{
  ℕ, ◌+◌, ◌<◌, ℤ, Bytes, Bool, true, false, Option, none, some, is_some, ◌≡◌, refl, ◌∙◌, arith,
  find?, Bool-cases, Option-cases, inl, inr, length, if◌then◌else◌, List,
}
use tabby_sync.Store.{
  Time, Config, UpdateConfigPatch, UpdateConfigPlaintextPatch, ConfigWithPlaintext, ok,
}
use tabby_sync.Crypto.{Primitives, IsAead, key_size, nonce_size}
use tabby_sync.Sqlite.Driver.{Row, at, Db, healthy, ◌>>◌}
use tabby_sync.Sqlite.{addressed, build_config, update_config, patch_is_valid, apply_patch}
use tabby_sync.Sqlite.Contract.{read, read-find, get_config_run}
use tabby_sync.Sqlite.Contract.Update.{
  update_config_applies, read-rows_after, rows_after, preserve_run,
}
use tabby_sync.Encrypted.{
  open_row, get_config_plaintext, idle_patch, is_change, differs, only_if, update_loop,
  update_round, write_round, after_idle,
}
use tabby_sync.Encrypted.Merge.{
  merged, Changed, changed, scan_r, scan-apply_patch, modified-current, scan-apply_none, versioned,
  unchanged,
}

module _ (prim : Primitives) (key : Bytes) (now : ℕ → Time) (u id : ℤ) (r : Row) (c m : Time)
    (created : r.created_at ≡ at c) (modified : r.modified_at ≡ at m) where
  module _ (db : Db) (found : find? (addressed u id) db.rows ≡ some r) where
    get_config_plaintext_run : get_config_plaintext prim (healthy now) key u id db ≡ (
      open_row prim (healthy now) key u id (build_config r c m),
      record db { calls = db.calls + 1 },
    )
    unfolding get_config_plaintext
    get_config_plaintext_run = ground (
      arith,
      get_config_run now u id db,
      read-find u id db.rows r found,
      scan_r prim key now u id r c m created modified,
    )

    -- The write of a real change, and the read behind it.
    update_get_run :
        (p : UpdateConfigPatch)
        → patch_is_valid p ≡ true
        → p.preserve_modified_at ≡ false
        → (t n : ℕ) × (m < t)
          × ((update_config (healthy now) u id p
                  >> get_config_plaintext prim (healthy now) key u id)
                db
              ≡ (
                open_row prim (healthy now) key u id (build_config (apply_patch p (some t) r) c t),
                record { rows = rows_after u id p db.rows (some t); seq = db.seq; calls = n },
              ))
    unfolding get_config_plaintext
    update_get_run p valid moves =
        let (t, n, lt, ran) = update_config_applies now u id p db r m valid found modified moves in
        let end : Db = record {
          rows = rows_after u id p db.rows (some t);
          seq = db.seq;
          calls = n;
        } in
        (
          t,
          n + 1,
          lt,
          ground (
            arith,
            ran,
            read-rows_after now u id p db r m valid found modified (some t),
            scan-apply_patch prim key now u id r c m created modified p t,
            get_config_run now u id end,
          ),
        )

  module _ (db : Db) (found : find? (addressed u id) db.rows ≡ some r)
      (current : ConfigWithPlaintext)
      (readable : open_row prim (healthy now) key u id (build_config r c m) ≡ ok current)
      (patch : UpdateConfigPlaintextPatch) (aead : IsAead prim) (sized : length key ≡ key_size)
      (nonce : Bytes) (fresh : length nonce ≡ nonce_size) where
    change :
        Changed prim key now u id r c m created modified current readable patch aead sized nonce
          fresh
    change =
        changed prim key now u id r c m created modified current readable patch aead sized nonce
          fresh

    changed_run :
        (t n : ℕ) × (m < t)
        × ((update_config (healthy now) u id change.p
                >> get_config_plaintext prim (healthy now) key u id)
              (record db { calls = db.calls + 1 })
            ≡ (
              open_row prim
                  (healthy now)
                  key
                  u
                  id
                  (build_config (apply_patch change.p (some t) r) c t),
              record { rows = rows_after u id change.p db.rows (some t); seq = db.seq; calls = n },
            ))
    changed_run =
        update_get_run (record db { calls = db.calls + 1 }) found change.p change.valid change.moves

    -- If the row is there and decrypts to `current`, the patch changes the name or the content, the
    -- context is not cancelled, nobody else writes, no driver call fails and the cipher has the
    -- AEAD laws, UpdateConfigPlaintext ends in its first round with `current` merged with the patch
    -- under a strictly later modified_at, and GetConfigPlaintext then returns the same.
    pub update_loop_change :
        (cancelled : ℕ → Bool) (others : ℕ → Db → Db) (random : ℕ → Option Bytes)
        → cancelled 0 ≡ false
        → ((d : Db) → others 0 d ≡ d)
        → random 0 ≡ some nonce
        → is_change prim (healthy now) key u patch current ≡ true
        → (t : Time) × (end : Db) × (current.modified_at < t)
          × (update_loop prim (healthy now) key u cancelled others random id patch 1 0 db
              ≡ some (
                ok (merged prim key now u id r c m created modified current readable patch t),
                end,
              ))
          × ((get_config_plaintext prim (healthy now) key u id end).0
              ≡ ok (merged prim key now u id r c m created modified current readable patch t))
    unfolding update_loop update_round write_round get_config_plaintext
    update_loop_change cancelled others random goes alone drawn differ =
        let after = record db { calls = db.calls + 1 } in
        let (t, n, lt, ran) = changed_run in
        (
          t,
          record { rows = rows_after u id change.p db.rows (some t); seq = db.seq; calls = n },
          omega (
            arith,
            modified-current prim key now u id r c m created modified current readable,
            lt,
          ),
          ground (
            arith,
            get_config_plaintext_run db found,
            readable,
            alone after,
            change.built,
            ran,
            change.reads t,
          ),
          ground (
            arith,
            get_config_run now u id (record {
              rows = rows_after u id change.p db.rows (some t);
              seq = db.seq;
              calls = n;
            }),
            read-rows_after now u id change.p db r m change.valid found modified (some t),
            scan-apply_patch prim key now u id r c m created modified change.p t,
            change.reads t,
          ),
        )

  module _ (db : Db) (found : find? (addressed u id) db.rows ≡ some r)
      (current : ConfigWithPlaintext)
      (readable : open_row prim (healthy now) key u id (build_config r c m) ≡ ok current)
      (patch : UpdateConfigPlaintextPatch)
      (idle : is_change prim (healthy now) key u patch current ≡ false) where
    pub idle_p : UpdateConfigPatch
    idle_p = idle_patch prim (healthy now) key u patch current

    pub idle_rows : List Row
    idle_rows =
        if is_some (
          only_if (differs patch.last_used_with_version current.last_used_with_version)
            patch.last_used_with_version)
        then rows_after u id idle_p db.rows none
        else db.rows

    idle_update :
        (k : ℕ)
        → (n : ℕ) × (update_config (healthy now) u id idle_p (record db { calls = k })
            ≡ (read u id idle_rows, record { rows = idle_rows; seq = db.seq; calls = n }))
    unfolding idle_p idle_rows idle_patch patch_is_valid
    idle_update k =
        preserve_run now u id idle_p (record db { calls = k }) r m refl found modified
          current.modified_at refl refl
          (modified-current prim key now u id r c m created modified current readable)

    pub goal : ConfigWithPlaintext
    goal = merged prim key now u id r c m created modified current readable patch m

    rows_read :
        read u id (rows_after u id idle_p db.rows none)
        ≡ ok (build_config (apply_patch idle_p none r) c m)
    unfolding idle_p idle_patch patch_is_valid
    rows_read =
        read-rows_after now u id idle_p db r m refl found modified none
        ∙ scan-apply_none prim key now u id r c m created modified idle_p

    idle_read :
        (row : Config) × (read u id idle_rows ≡ ok row)
        × (open_row prim (healthy now) key u id row ≡ ok goal)
    unfolding idle_rows goal idle_p
    idle_read =
        elim (Bool-cases (differs patch.last_used_with_version current.last_used_with_version)) [
          | inl new ↦ elim (Option-cases patch.last_used_with_version) [
            | inl absent ↦ absurd (unfold differs in ground arith)
            | inr (v, given) ↦ (
              build_config (apply_patch idle_p none r) c m,
              ground (arith, rows_read),
              versioned prim key now u id r c m created modified current readable patch idle,
            )
          ]
          | inr same ↦ (
            build_config r c m,
            ground (
              arith,
              read-find u id db.rows r found,
              scan_r prim key now u id r c m created modified,
            ),
            ground (
              arith,
              readable,
              unchanged prim key now u id r c m created modified current readable patch idle same,
            ),
          )
        ]

    -- If the row is there and decrypts to `current`, the patch changes neither the name nor the
    -- content, the context is not cancelled, nobody else writes and no driver call fails,
    -- UpdateConfigPlaintext ends in its first round with `current` merged with the patch under the
    -- old modified_at; the rows stay as they were unless last_used_with_version changes, and then
    -- only the conditional update was applied to the row.
    pub update_loop_idle :
        (cancelled : ℕ → Bool) (others : ℕ → Db → Db) (random : ℕ → Option Bytes)
        → cancelled 0 ≡ false
        → ((d : Db) → others 0 d ≡ d)
        → (end : Db) × (update_loop prim (healthy now) key u cancelled others random id patch 1 0 db
            ≡ some (ok goal, end))
          × (end.rows ≡ idle_rows)
    unfolding update_loop update_round write_round after_idle get_config_plaintext idle_p
    update_loop_idle cancelled others random goes alone =
        let (n, ran) = idle_update (db.calls + 1) in
        let (row, got, opened) = idle_read in
        let end : Db = record { rows = idle_rows; seq = db.seq; calls = n + 1 } in
        (
          end,
          ground (
            arith,
            get_config_plaintext_run db found,
            readable,
            alone (record db { calls = db.calls + 1 }),
            ran,
            got,
            opened,
            get_config_run now u id (record { rows = idle_rows; seq = db.seq; calls = n }),
          ),
          refl,
        )
