-- ===== src/Sqlite/Contract/Needs.antt =====
-- What CreateConfigWithID needs in order to succeed, and what it has done then.
use tabby_sync.Common.{
  ◌+◌, ℤ, Option, none, some, ◌≡◌, arith, refl, inl, inr, ap, Bool-cases, true, false, leb, pos,
  ◌∷◌, ◌++◌, [], ◌<◌, ℕ,
}
use tabby_sync.Store.{
  CreateConfigInput, Result, err, Error, Time, internal, ok, Result-cases, Config, invalid_patch,
}
use tabby_sync.Sqlite.Driver.{Db, call, now_fn, healthy}
use tabby_sync.Sqlite.{
  create_config_with_id, create_in_tx, with_rollback, validate_create_input, max_int64,
  create_reserved,
}
use tabby_sync.Sqlite.Invariant.{IsSound}
use tabby_sync.Sqlite.Contract.Create.{
  new_config, new_stored_row, create_config_with_id_run, insert_row-room, insert_row-full,
}

-- What a successful CreateConfigWithID has needed: a free id, and a valid input from the builder.
module _ (now : ℕ → Time) (u : ℤ) (f : ℤ → Result CreateConfigInput) (db : Db) where
  -- The state at the INSERT.
  abbrev begun : Db
  begun = record db { calls = db.calls + 1 + 1 + 1 }

  full_fails :
      leb max_int64 db.seq ≡ true
      → (create_config_with_id (healthy now) u (some f) db).0 ≡ err internal
  unfolding create_config_with_id create_in_tx with_rollback call now_fn
  full_fails full =
      ground (
        arith,
        insert_row-full u [] (0 ∷ []) (0 ∷ []) none (now (db.calls + 1)) begun (ground arith),
      )

  unbuilt_fails :
      (x : Error)
      → leb max_int64 db.seq ≡ false
      → f (pos (db.seq + 1)) ≡ err x
      → (create_config_with_id (healthy now) u (some f) db).0 ≡ err x
  unfolding create_config_with_id create_in_tx create_reserved with_rollback call now_fn
  unbuilt_fails x room fails = ground (
    arith,
    insert_row-room u [] (0 ∷ []) (0 ∷ []) none (now (db.calls + 1)) begun (ground arith),
    fails,
  )

  invalid_fails :
      (i : CreateConfigInput)
      → leb max_int64 db.seq ≡ false
      → f (pos (db.seq + 1)) ≡ ok i
      → validate_create_input i ≡ false
      → (create_config_with_id (healthy now) u (some f) db).0 ≡ err invalid_patch
  unfolding create_config_with_id create_in_tx create_reserved with_rollback call now_fn
  invalid_fails i room built invalid = ground (
    arith,
    insert_row-room u [] (0 ∷ []) (0 ∷ []) none (now (db.calls + 1)) begun (ground arith),
    built,
    invalid,
  )

-- The configuration was built for the next id, and its row is the only new one.
pub record Created (user_id : ℤ) (build : Option (ℤ → Result CreateConfigInput)) (db : Db)
    (c : Config) (after : Db) : Type 0 where
  pub builder : ℤ → Result CreateConfigInput
  pub input : CreateConfigInput
  pub given : build ≡ some builder
  pub built : builder (pos (db.seq + 1)) ≡ ok input
  pub valid : validate_create_input input ≡ true
  pub created : Time
  pub modified : Time
  pub later : created < modified
  pub returned : c ≡ new_config (pos (db.seq + 1)) user_id input created modified
  pub rows :
      after.rows ≡ db.rows ++ new_stored_row (pos (db.seq + 1)) user_id input created modified ∷ []
  pub seq : after.seq ≡ db.seq + 1

pub healthy-Created :
    (now : ℕ → Time) (u : ℤ) (build : Option (ℤ → Result CreateConfigInput)) (db : Db) (c : Config)
    → IsSound db
    → (create_config_with_id (healthy now) u build db).0 ≡ ok c
    → Created u build db c (create_config_with_id (healthy now) u build db).1
healthy-Created now u none db c sound e = absurd (unfold create_config_with_id in ground arith)
healthy-Created now u (some f) db c sound e = elim (Bool-cases (leb max_int64 db.seq)) [
  | inl full ↦ absurd (ground (arith, full_fails now u f db full))
  | inr room ↦ elim (Result-cases (f (pos (db.seq + 1)))) [
    | inr (x, fails) ↦ absurd (ground (arith, unbuilt_fails now u f db x room fails))
    | inl (i, built) ↦ elim (Bool-cases (validate_create_input i)) [
      | inr invalid ↦ absurd (ground (arith, invalid_fails now u f db i room built invalid))
      | inl valid ↦
          let (t, m, n, lt, ran) =
            create_config_with_id_run now u f i db sound (ground (arith, room)) built valid in
          record {
            builder = f;
            input = i;
            given = refl;
            built = built;
            valid = valid;
            created = t;
            modified = m;
            later = lt;
            returned = ground (arith, ran);
            rows = ap (λ r. r.1.rows) ran;
            seq = ap (λ r. r.1.seq) ran;
          }
    ]
  ]
]
