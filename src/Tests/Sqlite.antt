-- ===== src/Tests/Sqlite.antt =====
-- Examples of the theorems on the SQLite store.
use tabby_sync.Common.{
  ◌==◌, eqb_ℤ, ℕ, ◌<◌, ℤ, pos, some, List, [], ◌∷◌, ◌++◌, ◌≡◌, ◌≢◌, refl, arith, find?, length, ◌⊎◌,
}
use tabby_sync.Store.{Config, ok, err, config_not_found, Error}
use tabby_sync.Sqlite.Driver.{Env, healthy, call, Db}
use tabby_sync.Sqlite.{
  addressed, create_config_with_id, update_config, list_configs_by_user, count_configs_by_user,
  validate_create_input, patch_is_valid, with_rollback, update_in_tx, select_row, get_config,
}
use tabby_sync.Sqlite.Operations.{Op, create_with_id, delete, update, run_all}
use tabby_sync.Sqlite.Isolation.{rows_of, run_all-SameRows}
use tabby_sync.Sqlite.Invariant.{IsSound, run_all-IsSound}
use tabby_sync.Sqlite.Atomicity.{SameTable, create_config_with_id_atomic, update_config_atomic}
use tabby_sync.Sqlite.Contract.Create.{new_config, new_stored_row, create_config_with_id_run}
use tabby_sync.Sqlite.Contract.Update.{patched_config, update_config_run}
use tabby_sync.Sqlite.Contract.Listing.{Listed, list-get-count}
use tabby_sync.Tests.{clock, row1, sample_db, sample_db-IsSound, sample_input, rename}
use tabby_sync.Sqlite.Contract.Needs.{Created}

-- The driver call of number `n` fails.
abbrev failing : ℕ → Env
failing n = record { now = clock; faulty = λ k. k == n }

abbrev sample_ops : List (ℤ × Op)
sample_ops =
    (pos 7, delete (pos 1))
    ∷ (pos 7, create_with_id (some (λ id. ok sample_input)))
    ∷ (pos 7, update (pos 2) rename)
    ∷ []

apart : pos 7 ≢ pos 8
apart e = ground arith

run_all-SameRows_example :
    rows_of (pos 8) (run_all (failing 2) sample_ops sample_db) ≡ rows_of (pos 8) sample_db
run_all-SameRows_example =
    run_all-SameRows (failing 2) (pos 8) sample_ops sample_db (apart, (apart, (apart, tt)))

run_all-IsSound_example : IsSound (run_all (failing 2) sample_ops sample_db)
run_all-IsSound_example = run_all-IsSound (failing 2) sample_ops sample_db sample_db-IsSound

-- The driver call of number 5 fails.
create_config_with_id_atomic_example :
    let (r, after) =
      create_config_with_id (failing 5) (pos 7) (some (λ id. ok sample_input)) sample_db in
    ((e : Error) × (r ≡ err e) × SameTable after sample_db)
    ⊎ ((c : Config) × (r ≡ ok c) × Created (pos 7) (some (λ id. ok sample_input)) sample_db c after)
create_config_with_id_atomic_example =
    create_config_with_id_atomic (failing 5) (pos 7) (some (λ id. ok sample_input)) sample_db
      sample_db-IsSound

-- The other user's row is not found.
update_config_atomic_example :
    SameTable (update_config (healthy clock) (pos 7) (pos 2) rename sample_db).1 sample_db
update_config_atomic_example =
    update_config_atomic (healthy clock) (pos 7) (pos 2) rename sample_db config_not_found
      (unfold update_config update_in_tx with_rollback call select_row find? addressed eqb_ℤ
          patch_is_valid in
        refl)
      (λ e. ground arith)

found1 : find? (addressed (pos 7) (pos 1)) sample_db.rows ≡ some row1
unfolding find? addressed eqb_ℤ
found1 = refl

create_config_with_id_run_example :
    (c m n : ℕ) × (c < m)
    × (create_config_with_id (healthy clock) (pos 7) (some (λ id. ok sample_input)) sample_db ≡ (
      ok (new_config (pos 3) (pos 7) sample_input c m),
      record {
        rows = sample_db.rows ++ new_stored_row (pos 3) (pos 7) sample_input c m ∷ [];
        seq = 3;
        calls = n;
      },
    ))
create_config_with_id_run_example =
    create_config_with_id_run clock (pos 7) (λ id. ok sample_input) sample_input sample_db
      sample_db-IsSound (omega arith) refl (unfold validate_create_input in refl)

update_config_run_example :
    (m : ℕ) × (after : Db) × (9 < m)
    × (update_config (healthy clock) (pos 7) (pos 1) rename sample_db
        ≡ (ok (patched_config rename row1 5 m), after))
    × ((get_config (healthy clock) (pos 7) (pos 1) after).0 ≡ ok (patched_config rename row1 5 m))
    × ((v k : ℤ)
        → ((v ≢ pos 7) ⊎ (k ≢ pos 1))
        → (get_config (healthy clock) v k after).0 ≡ (get_config (healthy clock) v k sample_db).0)
update_config_run_example =
    update_config_run clock (pos 7) (pos 1) rename sample_db row1 9 (unfold patch_is_valid in refl)
      found1 refl 5 refl refl

list-get-count_example :
    (cs : List Config) × ((list_configs_by_user (healthy clock) (pos 7) sample_db).0 ≡ ok cs)
    × ((count_configs_by_user (healthy clock) (pos 7) sample_db).0 ≡ ok (length cs))
    × Listed (pos 7) sample_db.rows 0 cs
list-get-count_example = list-get-count clock (pos 7) sample_db sample_db-IsSound
