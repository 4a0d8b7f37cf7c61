-- ===== src/Sqlite/Isolation.antt =====
-- The isolation of users from one another, which internal/store/store.go asks for.
use tabby_sync.Common.{
  ℤ, eqb_ℤ, eqb_ℤ_iff, Bool, true, false, not, List, [], ◌∷◌, ◌≡◌, ◌≢◌, refl, sym, ◌∙◌, arith,
  filter, filter-snoc, All,
}
use tabby_sync.Sqlite.Driver.{Row, Env, Db}
use tabby_sync.Sqlite.{
  owned, addressed, update_where, update_rows, insert_row, insert_row_cases, delete_rows, finalise,
  apply_patch,
}
use tabby_sync.Sqlite.Frames.{Writes}
use tabby_sync.Sqlite.Operations.{Op, run, run_all, run-Writes}

-- The rows of one user, in order of their ids.
abbrev pub rows_of : ℤ → Db → List Row
rows_of v db = filter (owned v) db.rows

module _ (v : ℤ) where
  SameRows : Db → Db → Type 0
  SameRows a b = rows_of v a ≡ rows_of v b

  filter-update_where :
      (p : Row → Bool) (f : Row → Row)
      → ((r : Row) → p r ≡ true → (owned v r ≡ false) × (owned v (f r) ≡ false))
      → (rs : List Row) → filter (owned v) rs ≡ filter (owned v) (update_where p f rs)
  unfolding filter update_where
  filter-update_where p f h [] = refl
  filter-update_where p f h (r ∷ rs) = ground (arith, h r, filter-update_where p f h rs)

  filter-filter-not :
      (p : Row → Bool)
      → ((r : Row) → p r ≡ true → owned v r ≡ false)
      → (rs : List Row) → filter (owned v) rs ≡ filter (owned v) (filter (λ r. not (p r)) rs)
  unfolding filter
  filter-filter-not p h [] = refl
  filter-filter-not p h (r ∷ rs) = ground (arith, h r, filter-filter-not p h rs)

  not_owned : (u id : ℤ) (r : Row) → u ≢ v → addressed u id r ≡ true → owned v r ≡ false
  unfolding addressed owned
  not_owned u id r ne h = ground (arith, eqb_ℤ_iff r.user_id u, eqb_ℤ_iff r.user_id v)

  not_owned_new : (u : ℤ) → u ≢ v → eqb_ℤ u v ≡ false
  not_owned_new u ne = ground (arith, eqb_ℤ_iff u v)

  SameRows-Writes : (u : ℤ) → u ≢ v → Writes SameRows u
  unfolding SameRows insert_row update_rows delete_rows finalise apply_patch owned
  SameRows-Writes u ne = record {
    is_frame = record { calls = λ db n. refl; trans = λ a b c p q. p ∙ q };
    insert = λ name ct nonce last t. record {
      at = λ db.
          insert_row_cases u name ct nonce last t (SameRows db) db refl
            (λ _. filter-snoc (owned v) db.rows _ (not_owned_new u ne));
    };
    finalise = λ id i t. record {
      at = λ db.
          filter-update_where _ _ (λ r h. (not_owned u id r ne h, not_owned u id r ne h)) db.rows;
    };
    patch = λ id p t. record {
      at = λ db.
          filter-update_where _ _ (λ r h. (not_owned u id r ne h, not_owned u id r ne h)) db.rows;
    };
    delete = λ id. record { at = λ db. filter-filter-not _ (λ r h. not_owned u id r ne h) db.rows };
  }

-- Whatever the operations of other users, whichever driver calls fail and whatever the clock reads,
-- the rows of user `v` stay the same, their order and contents included.
pub run-SameRows :
    (env : Env) (u v : ℤ) (op : Op) (db : Db) → u ≢ v → rows_of v (run env u op db) ≡ rows_of v db
unfolding SameRows
run-SameRows env u v op db ne = sym (run-Writes env (SameRows-Writes v u ne) op db)

-- Whatever operations other users run, whichever driver calls fail and whatever the clock reads,
-- the rows of user `v` stay the same, their order and contents included.
pub run_all-SameRows :
    (env : Env) (v : ℤ) (ops : List (ℤ × Op)) (db : Db)
    → All (λ o. o.0 ≢ v) ops
    → rows_of v (run_all env ops db) ≡ rows_of v db
unfolding run_all
run_all-SameRows env v [] db h = refl
run_all-SameRows env v ((u, op) ∷ ops) db (ne, h) =
    run_all-SameRows env v ops (run env u op db) h ∙ run-SameRows env u v op db ne
