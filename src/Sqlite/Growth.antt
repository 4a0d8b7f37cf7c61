-- ===== src/Sqlite/Growth.antt =====
-- How many rows CreateConfigWithID (internal/store/sqlite/sqlite.go) adds, whatever fails.
use tabby_sync.Common.{
  ℕ, ◌+◌, ◌≤◌, ℤ, Bytes, Bool, Option, none, some, List, [], ◌∷◌, ◌++◌, ◌≡◌, refl, arith, filter,
  length, ◌⊎◌,
}
use tabby_sync.Store.{Time, CreateConfigInput, Result, ok, err, internal, Config}
use tabby_sync.Sqlite.Driver.{Row, Env, Db, M, ◌>>=◌, rollback, call, now_fn, pure, ◌>>◌}
use tabby_sync.Sqlite.{
  owned, addressed, insert_row, insert_row_cases, update_rows, update_where, finalise, create_in_tx,
  with_rollback, create_config_with_id, next_modified_at, count_configs_by_user, select_rows,
  create_reserved,
}
use tabby_sync.Sqlite.Frames.{Frame, IsFrame, frame_rules, Frame-call, Frame-now_fn}
use tabby_sync.Sqlite.Isolation.{rows_of}

-- How many rows the user has.
abbrev pub count_of : ℤ → Db → ℕ
count_of v db = length (rows_of v db)

module _ (v : ℤ) where
  NoGrowth : Db → Db → Type 0
  NoGrowth a b = count_of v b ≤ count_of v a

  NoGrowth-IsFrame : IsFrame NoGrowth
  unfolding NoGrowth
  NoGrowth-IsFrame = record { calls = λ db n. omega arith; trans = λ a b c p q. omega arith }

  owned_finalise :
      (i : CreateConfigInput) (t : Time) (r : Row) → owned v (finalise i t r) ≡ owned v r
  unfolding owned finalise
  owned_finalise i t r = refl

  length-filter-update_where :
      (p : Row → Bool) (f : Row → Row)
      → ((r : Row) → owned v (f r) ≡ owned v r)
      → (rs : List Row)
      → length (filter (owned v) (update_where p f rs)) ≡ length (filter (owned v) rs)
  unfolding filter update_where
  length-filter-update_where p f h [] = refl
  length-filter-update_where p f h (r ∷ rs) =
      ground (arith, h r, length-filter-update_where p f h rs)

  finalise-NoGrowth :
      (u id : ℤ) (i : CreateConfigInput) (t : Time)
      → Frame NoGrowth (update_rows (addressed u id) (finalise i t))
  unfolding NoGrowth update_rows
  finalise-NoGrowth u id i t = record {
    at = λ db. omega (
      arith,
      length-filter-update_where (addressed u id) (finalise i t) (owned_finalise i t) db.rows,
    );
  }

  -- The action adds at most `k` rows of the user.
  pub record Grows {A : Type 0} (k : ℕ) (m : M A) : Type 0 where
    pub at : (db : Db) → count_of v (m db).1 ≤ count_of v db + k

  Grows-Frame : {A : Type 0} (m : M A) → Frame NoGrowth m → Grows 0 m
  unfolding NoGrowth
  Grows-Frame m f = record { at = λ db. omega (arith, f.at db) }

  bind-Grows :
      {A B : Type 0} (j k : ℕ) (r : Result A) (f : A → M B) (start db : Db)
      → count_of v db ≤ count_of v start + j
      → ((a : A) → Grows k (f a))
      → count_of v (elim r as (λ _. Result B × Db) [ ok a ↦ f a db | err e ↦ (err e, db) ]).1
        ≤ count_of v start + (j + k)
  bind-Grows j k (ok a) f start db h g = omega (arith, (g a).at db)
  bind-Grows j k (err e) f start db h g = omega arith

  Grows-bind :
      {A B : Type 0} (j k : ℕ) (m : M A) (f : A → M B)
      → Grows j m
      → ((a : A) → Grows k (f a))
      → Grows (j + k) (m >>= f)
  Grows-bind j k m f g h = record { at = λ db. bind-Grows j k (m db).0 f db (m db).1 (g.at db) h }

  length-filter-snoc :
      (rs : List Row) (r : Row)
      → length (filter (owned v) (rs ++ r ∷ [])) ≤ length (filter (owned v) rs) + 1
  unfolding filter
  length-filter-snoc [] r = ground arith
  length-filter-snoc (x ∷ rs) r = ground (arith, length-filter-snoc rs r)

  insert-Grows :
      (u : ℤ) (name ciphertext nonce : Bytes) (last : Option Bytes) (t : Time)
      → Grows 1 (insert_row u name ciphertext nonce last t)
  insert-Grows u name ct nonce last t = record {
    at = λ db.
        insert_row_cases u name ct nonce last t (λ b. count_of v b ≤ count_of v db + 1) db
          (omega arith) (λ _. length-filter-snoc db.rows _);
  }

  create_reserved-NoGrowth :
      (env : Env) (u : ℤ) (build : ℤ → Result CreateConfigInput) (t : Time) (id : ℤ)
      → Frame NoGrowth (create_reserved env u build t id)
  unfolding create_reserved next_modified_at
  create_reserved-NoGrowth env u build t id =
      search (frame_rules, NoGrowth-IsFrame, finalise-NoGrowth) depth 40

  create_in_tx-Grows :
      (env : Env) (u : ℤ) (build : ℤ → Result CreateConfigInput)
      → Grows 1 (create_in_tx env u build)
  unfolding create_in_tx
  create_in_tx-Grows env u build =
      Grows-bind 0 1 (now_fn env) _ (Grows-Frame _ (Frame-now_fn NoGrowth-IsFrame env)) (λ created.
        Grows-bind 0 1 (call env) _ (Grows-Frame _ (Frame-call NoGrowth-IsFrame env)) (λ _.
          Grows-bind 1 0 (insert_row u [] (0 ∷ []) (0 ∷ []) none created)
            (create_reserved env u build created) (insert-Grows u _ _ _ _ _)
            (λ id. Grows-Frame _ (create_reserved-NoGrowth env u build created id))))

  rollback-Grows :
      {A : Type 0} (start : Db) (r : Result A × Db)
      → count_of v r.1 ≤ count_of v start + 1
      → count_of v
          (elim r.0 as (λ _. Result A × Db) [ ok a ↦ r | err e ↦ (err e, rollback start r.1) ]).1
        ≤ count_of v start + 1
  rollback-Grows start (ok a, db) h = h
  rollback-Grows start (err e, db) h = omega arith

  Grows-with_rollback : {A : Type 0} (m : M A) → Grows 1 m → Grows 1 (with_rollback m)
  unfolding with_rollback
  Grows-with_rollback m g = record { at = λ db. rollback-Grows db (m db) (g.at db) }

  returned_NoGrowth : (env : Env) (c : Config) → Frame NoGrowth (call env >> pure c)
  returned_NoGrowth env c = search (frame_rules, NoGrowth-IsFrame)

  -- CreateConfigWithID adds at most one row of any user.
  pub create_config_with_id-Grows :
      (env : Env) (u : ℤ) (build : ℤ → Result CreateConfigInput)
      → Grows 1 (create_config_with_id env u (some build))
  unfolding create_config_with_id
  create_config_with_id-Grows env u build =
      Grows-bind 0 1 (call env) _ (Grows-Frame _ (Frame-call NoGrowth-IsFrame env)) (λ _.
        Grows-with_rollback _ (
          Grows-bind 1 0 (create_in_tx env u build) _ (create_in_tx-Grows env u build)
            (λ c. Grows-Frame (call env >> pure c) (returned_NoGrowth env c))))

-- The same of the state after it.
pub create_config_with_id_bound :
    (env : Env) (u v : ℤ) (build : ℤ → Result CreateConfigInput) (db : Db)
    → count_of v (create_config_with_id env u (some build) db).1 ≤ count_of v db + 1
create_config_with_id_bound env u v build db = (create_config_with_id-Grows v env u build).at db

-- A count that CountConfigsByUser returns is the number of the user's rows, and stays so.
pub count_configs_by_user-exact :
    (env : Env) (u : ℤ) (db : Db)
    → (((count_configs_by_user env u db).0 ≡ ok (count_of u db))
        ⊎ ((count_configs_by_user env u db).0 ≡ err internal))
      × ((count_configs_by_user env u db).1.rows ≡ db.rows)
unfolding count_configs_by_user call select_rows
count_configs_by_user-exact env u db = ground arith
