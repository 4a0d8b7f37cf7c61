-- ===== src/Sqlite/Contract.antt =====
-- What the operations do when no driver call fails: the reads.
pub mod Create
pub mod Needs
pub mod Update
pub mod Listing
use tabby_sync.Common.{
  ℕ, ◌+◌, ◌<◌, ℤ, pos, eqb_ℤ_iff, Bytes, Bool, true, false, Option, none, some, List, [], ◌∷◌, ◌++◌,
  ◌≡◌, refl, arith, filter, find?, ◌≡◌, some, none, length, leb, ltb, if◌then◌else◌, is_some, ◌≢◌,
}
use tabby_sync.Store.{
  Time, Config, CreateConfigInput, UpdateConfigPatch, Result, ok, err, config_not_found,
  config_not_found, config_changed,
}
use tabby_sync.Sqlite.Driver.{Row, at, Env, Db, M, healthy, call, now_fn, ◌>>=◌, ◌>>◌}
use tabby_sync.Sqlite.{
  max_int64, new_row, finalise, addressed, validate_create_input, scan_config, build_config,
  parse_stamp, create_config_with_id, create_in_tx, get_config, with_rollback, insert_row,
  update_rows, select_row, next_modified_at, patch_is_valid, update_config, update_in_tx,
  update_stamp, write_patch, has_clauses, apply_patch, update_where, expects, or_not_found,
}
use tabby_sync.Sqlite.Invariant.{IsSound, Ids}
use tabby_sync.Sqlite.Rows.{update_where-miss, filter-miss, find?-miss, Ids-fresh, Misses}

-- What GetConfig reads in a table.
unfoldable pub read : ℤ → ℤ → List Row → Result Config
read user_id config_id rs = elim (or_not_found (find? (addressed user_id config_id) rs)) [
  | ok r ↦ scan_config r
  | err e ↦ err e
]

pub read-find :
    (u id : ℤ) (rs : List Row) (r : Row)
    → find? (addressed u id) rs ≡ some r
    → read u id rs ≡ scan_config r
unfolding read
read-find u id rs r e = ground arith

pub read-find_none :
    (u id : ℤ) (rs : List Row)
    → find? (addressed u id) rs ≡ none
    → read u id rs ≡ err config_not_found
unfolding read
read-find_none u id rs e = ground arith

pub get_config-read :
    (now : ℕ → Time) (u id : ℤ) (db : Db) → (get_config (healthy now) u id db).0 ≡ read u id db.rows
unfolding get_config read call select_row
get_config-read now u id db = ground arith

pub later : Time → Time → Time
later old candidate = if ltb old candidate then candidate else old + 1000000

pub lt-later : (old candidate : Time) → old < later old candidate
unfolding later
lt-later old candidate = ground arith

pub get_config_run :
    (now : ℕ → Time) (u id : ℤ) (db : Db)
    → get_config (healthy now) u id db ≡ (read u id db.rows, record db { calls = db.calls + 1 })
unfolding get_config read call select_row
get_config_run now u id db = ground arith
