-- ===== src/Sqlite/Atomicity.antt =====
-- What a failed operation leaves behind.
use tabby_sync.Common.{
  ◌+◌, ℤ, Option, none, some, ◌≡◌, arith, find?, ◌≢◌, refl, if◌then◌else◌, ltb, Option-cases, ◌⊎◌,
  inl, inr, sym, ap, ◌∙◌,
}
use tabby_sync.Store.{
  CreateConfigInput, Result, err, Error, Time, UpdateConfigPatch, internal, ok, Result-cases,
  Config,
}
use tabby_sync.Sqlite.Driver.{Env, Db, M, call, now_fn, ◌>>◌, ◌>>=◌, Stamp, at, garbled, pure}
use tabby_sync.Sqlite.{
  create_config_with_id, create_in_tx, with_rollback, update_stamp, next_modified_at, write_patch,
  update_rows, addressed, apply_patch, update_in_tx, select_row, update_config, get_config,
  parse_stamp, scan_config, transaction,
}
use tabby_sync.Sqlite.Rows.{find?-update_where-none}
use tabby_sync.Sqlite.Invariant.{IsSound}
use tabby_sync.Sqlite.Healthy.{Agrees-create_config_with_id}
use mathlib.Core.Path.{subst}
use tabby_sync.Sqlite.Contract.Needs.{Created, healthy-Created}

-- The same rows, and the same AUTOINCREMENT counter.
abbrev pub SameTable : Db → Db → Type 0
SameTable a b = (a.rows ≡ b.rows) × (a.seq ≡ b.seq)

with_rollback-err :
    {A : Type 0} (m : M A) (db : Db) (e : Error)
    → (with_rollback m db).0 ≡ err e
    → SameTable (with_rollback m db).1 db
unfolding with_rollback
with_rollback-err m db e h = ground arith

transaction-err :
    {A : Type 0} (env : Env) (m : M A) (db : Db) (e : Error)
    → (transaction env m db).0 ≡ err e
    → SameTable (transaction env m db).1 db
unfolding call
transaction-err env m db e h = ground (
  arith,
  with_rollback-err (m >>= λ a. call env >> pure a) (record db { calls = db.calls + 1 }) e,
)

create_config_with_id-err :
    (env : Env) (user_id : ℤ) (build : Option (ℤ → Result CreateConfigInput)) (db : Db) (e : Error)
    → (create_config_with_id env user_id build db).0 ≡ err e
    → SameTable (create_config_with_id env user_id build db).1 db
unfolding create_config_with_id
create_config_with_id-err env u none db e h = (refl, refl)
create_config_with_id-err env u (some build) db e h =
    transaction-err env (create_in_tx env u build) db e h

-- Whichever driver calls fail, CreateConfigWithID on a sound table is all or nothing: either it
-- returns an error, and the rows and the AUTOINCREMENT counter are as they were, or the builder
-- gave a valid input for the next id, and one row was added, which has that input under that id
-- with modified_at after created_at, and which is what is returned.
pub create_config_with_id_atomic :
    (env : Env) (user_id : ℤ) (build : Option (ℤ → Result CreateConfigInput)) (db : Db)
    → IsSound db
    → let (r, after) = create_config_with_id env user_id build db in
      ((e : Error) × (r ≡ err e) × SameTable after db)
      ⊎ ((c : Config) × (r ≡ ok c) × Created user_id build db c after)
create_config_with_id_atomic env u build db sound =
    elim (Result-cases (create_config_with_id env u build db).0) [
      | inr (e, fails) ↦ inl (e, fails, create_config_with_id-err env u build db e fails)
      | inl (c, fine) ↦
          let same = (Agrees-create_config_with_id env u build).at db c fine in
          inr (
            c,
            fine,
            subst (λ r. Created u build db c r.1) (sym same)
                (healthy-Created env.now u build db c sound (sym (ap (λ r. r.0) same) ∙ fine)),
          )
    ]

parse_stamp-cases :
    (s : Stamp) → ((t : Time) × (parse_stamp s ≡ ok t)) ⊎ (parse_stamp s ≡ err internal)
unfolding parse_stamp
parse_stamp-cases (at t) = inl (t, refl)
parse_stamp-cases (garbled b) = inr refl

module _ (env : Env) (u id : ℤ) (p : UpdateConfigPatch) where
  rows-update_stamp : (old : Time) (db : Db) → (update_stamp env p old db).1.rows ≡ db.rows
  unfolding update_stamp next_modified_at now_fn
  rows-update_stamp old db = ground arith

  find-write_patch :
      (t : Option Time) (db : Db)
      → find? (addressed u id) (write_patch env u id p t db).1.rows ≡ none
      → find? (addressed u id) db.rows ≡ none
  unfolding write_patch update_rows call addressed apply_patch
  find-write_patch t db =
      ground (arith, find?-update_where-none (addressed u id) (apply_patch p t) db.rows (λ r. refl))

  -- What follows the read of the old timestamp.
  stamp_and_write : Time → M (Unit {0})
  stamp_and_write old = update_stamp env p old >>= λ t. write_patch env u id p t

  find-stamp_and_write :
      (old : Time) (db : Db)
      → find? (addressed u id) (stamp_and_write old db).1.rows ≡ none
      → find? (addressed u id) db.rows ≡ none
  unfolding stamp_and_write update_stamp next_modified_at now_fn call
  find-stamp_and_write old db =
      let candidate = env.now db.calls in
      ground (
        arith,
        find-write_patch none db,
        find-write_patch (some (if ltb old candidate then candidate else old + 1000000))
            (record db { calls = db.calls + 1 }),
      )

  -- A transaction that commits has found the row, and leaves it there.
  update_in_tx-found :
      (db : Db)
      → (update_in_tx env u id p db).0 ≡ ok tt
      → find? (addressed u id) (update_in_tx env u id p db).1.rows ≢ none
  unfolding update_in_tx call select_row stamp_and_write
  update_in_tx-found db h e = elim (Option-cases (find? (addressed u id) db.rows)) [
    | inl missing ↦ ground arith
    | inr (r, there) ↦ elim (parse_stamp-cases r.modified_at) [
      | inl (old, parsed) ↦
          ground (arith, find-stamp_and_write old (record db { calls = db.calls + 1 }))
      | inr unparsed ↦ ground arith
    ]
  ]

  get_config-errors :
      (db : Db) (e : Error)
      → find? (addressed u id) db.rows ≢ none
      → (get_config env u id db).0 ≡ err e
      → e ≡ internal
  unfolding get_config call select_row scan_config parse_stamp
  get_config-errors db e there h = ground arith

  -- The transaction, and the read behind it.
  update_errors :
      (db : Db) (e : Error)
      → ((transaction env (update_in_tx env u id p) >> get_config env u id) db).0 ≡ err e
      → e ≢ internal
      → SameTable ((transaction env (update_in_tx env u id p) >> get_config env u id) db).1 db
  unfolding with_rollback call
  update_errors db e h ne =
      let begun : Db = record db { calls = db.calls + 1 } in
      let done = (update_in_tx env u id p begun).1 in
      ground (
        arith,
        update_in_tx-found begun,
        get_config-errors (record done { calls = done.calls + 1 }) e,
      )

  -- If UpdateConfig returns an error other than `internal` (that is ErrInvalidPatch,
  -- ErrConfigNotFound or ErrConfigChanged), the rows and the counter are as they were, whichever
  -- driver calls fail.
  pub update_config_atomic :
      (db : Db) (e : Error)
      → (update_config env u id p db).0 ≡ err e
      → e ≢ internal
      → SameTable (update_config env u id p db).1 db
  unfolding update_config
  update_config_atomic db e h ne = ground (arith, update_errors db e)
