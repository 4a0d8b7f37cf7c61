-- ===== src/Sqlite/CompareAndSet.antt =====
-- The compare-and-set of UpdateConfig's PreserveModifiedAt mode, whichever driver calls fail.
use tabby_sync.Common.{
  ◌+◌, ℤ, true, some, ◌≡◌, ◌≢◌, arith, find?, Option-cases, inl, inr, Option, none,
}
use tabby_sync.Store.{Time, Config, UpdateConfigPatch, ok, err, config_changed}
use tabby_sync.Sqlite.Driver.{Row, Env, Db, ◌>>=◌, ◌>>◌, call, now_fn, at, M}
use tabby_sync.Sqlite.{
  addressed, expects, parse_stamp, scan_config, get_config, select_row, update_config, update_in_tx,
  update_stamp, next_modified_at, write_patch, update_rows, with_rollback, transaction,
}

module _ (env : Env) (u id : ℤ) where
  -- A successful read: the row is there, its timestamp is the one returned, the table is unchanged.
  pub get_config-found :
      (db : Db) (c : Config)
      → (get_config env u id db).0 ≡ ok c
      → (r : Row) × (find? (addressed u id) db.rows ≡ some r)
        × (r.modified_at ≡ at c.modified_at)
        × ((get_config env u id db).1.rows ≡ db.rows)
  unfolding get_config call select_row scan_config parse_stamp
  get_config-found db c h = elim (Option-cases (find? (addressed u id) db.rows)) [
    | inl missing ↦ absurd (ground arith)
    | inr (r, there) ↦ (r, there, ground arith, ground arith)
  ]

  module _ (p : UpdateConfigPatch) where
    get_config-ne-changed : (db : Db) → (get_config env u id db).0 ≢ err config_changed
    unfolding get_config call select_row scan_config parse_stamp
    get_config-ne-changed db h = ground arith

    rest-ne-changed :
        (old : Time) (db : Db)
        → ((update_stamp env p old >>= λ t. write_patch env u id p t) db).0 ≢ err config_changed
    unfolding update_stamp next_modified_at now_fn write_patch update_rows call
    rest-ne-changed old db h = ground arith

    update_in_tx-ne-changed :
        (db : Db) (r : Row) (old : Time)
        → find? (addressed u id) db.rows ≡ some r
        → parse_stamp r.modified_at ≡ ok old
        → expects p.expected_modified_at old ≡ true
        → (update_in_tx env u id p db).0 ≢ err config_changed
    unfolding update_in_tx call select_row
    update_in_tx-ne-changed db r old there parsed same h =
        ground (arith, rest-ne-changed old (record db { calls = db.calls + 1 }))

    expects-same : (o : Option Time) (t : Time) → o ≡ some t → expects o t ≡ true
    unfolding expects
    expects-same none t e = absurd (ground arith)
    expects-same (some s) t e = ground arith

    -- A transaction whose body does not return ErrConfigChanged, and the read behind it.
    transaction-ne-changed :
        (m : M (Unit {0})) (db : Db)
        → (m (record db { calls = db.calls + 1 })).0 ≢ err config_changed
        → ((transaction env m >> get_config env u id) db).0 ≢ err config_changed
    unfolding with_rollback call
    transaction-ne-changed m db h e =
        let started : Db = record db { calls = db.calls + 1 } in
        ground (
          arith,
          h,
          get_config-ne-changed (record (m started).1 { calls = (m started).1.calls + 1 }),
        )

    -- If the addressed row's modified_at is the one that the patch expects, UpdateConfig does not
    -- return ErrConfigChanged, whichever driver calls fail.
    pub update_config-ne-changed :
        (db : Db) (r : Row) (old : Time)
        → find? (addressed u id) db.rows ≡ some r
        → r.modified_at ≡ at old
        → p.expected_modified_at ≡ some old
        → (update_config env u id p db).0 ≢ err config_changed
    unfolding update_config parse_stamp
    update_config-ne-changed db r old there parsed same h = ground (
      arith,
      transaction-ne-changed (update_in_tx env u id p) db (
          update_in_tx-ne-changed (record db { calls = db.calls + 1 }) r old there
            (ground (arith, parsed)) (expects-same p.expected_modified_at old same)),
    )
