-- ===== src/Api/Hiding.antt =====
-- What a response can tell about the rows of other users: the handlers of
-- internal/api/handlers.go over the SQLite store.
use tabby_sync.Common.{
  ℕ, ℤ, Bytes, Option, none, some, List, [], ◌∷◌, ◌≡◌, ◌≢◌, refl, sym, ap, ◌∙◌, arith, filter,
  find?, All, ◌⊎◌, inl, inr, ◌+◌, lit, pos, map, Option-cases,
}
use tabby_sync.Store.{
  Time, ConfigWithPlaintext, UpdateConfigPlaintextPatch, Result, ok, err, config_not_found,
  EncryptedStore, Config, Result-cases,
}
use tabby_sync.Crypto.{Primitives}
use tabby_sync.Sqlite.Driver.{Row, Env, Db, M, healthy}
use tabby_sync.Sqlite.{addressed, owned, list_configs_by_user, scan_all}
use tabby_sync.Sqlite.Operations.{Op, run_all}
use tabby_sync.Sqlite.Isolation.{rows_of, run_all-SameRows}
use tabby_sync.Sqlite.Contract.{read, read-find_none, get_config_run}
use tabby_sync.Sqlite.Contract.Listing.{delete_lem, list_configs_by_user_run}
use tabby_sync.Encrypted.{
  encrypted_store, get_config_plaintext, list_configs_by_user_plaintext, delete_config_plaintext,
  open_row,
}
use tabby_sync.Auth.{User}
use tabby_sync.Api.{
  Answer, respond, handle_get_config, handle_list_configs, handle_delete_config, parse_config_id,
  write_error, err_not_found, write_store_error, write_json, config_response, configs_response,
  new_config_response,
}

-- An addressed row is one of the user's rows.
find?-owned :
    (u id : ℤ) (rs : List Row)
    → find? (addressed u id) (filter (owned u) rs) ≡ find? (addressed u id) rs
unfolding find? filter addressed owned
find?-owned u id [] = refl
find?-owned u id (r ∷ rs) = ground (arith, find?-owned u id rs)

read-owned : (u id : ℤ) (rs : List Row) → read u id (filter (owned u) rs) ≡ read u id rs
unfolding read
read-owned u id rs = ground (arith, find?-owned u id rs)

-- The answer of an unknown id.
abbrev pub not_found : Answer
not_found = write_error 404 err_not_found

module _ (prim : Primitives) (now : ℕ → Time) (key : Bytes) (random : Option Bytes)
    (update : ℤ → ℤ → UpdateConfigPlaintextPatch → M ConfigWithPlaintext) where
  abbrev enc : EncryptedStore Db
  enc = encrypted_store prim (healthy now) key random update

  opened : ℤ → ℤ → Result Config → Result ConfigWithPlaintext
  opened u id (ok c) = open_row prim (healthy now) key u id c
  opened u id (err e) = err e

  get_config_plaintext_run :
      (u id : ℤ) (db : Db)
      → get_config_plaintext prim (healthy now) key u id db
        ≡ (opened u id (read u id db.rows), record db { calls = db.calls + 1 })
  unfolding get_config_plaintext opened
  get_config_plaintext_run u id db = elim (Result-cases (read u id db.rows)) [
    | inl (c, e) ↦ ground (arith, e, get_config_run now u id db)
    | inr (x, e) ↦ ground (arith, e, get_config_run now u id db)
  ]

  respond-answer :
      {A : Type 0} (op : Bytes) (u id : ℤ) (f : A → Answer) (r s : Result A × Db)
      → r.0 ≡ s.0
      → (respond enc op u id f r).0 ≡ (respond enc op u id f s).0
  respond-answer op u id f (ok x, a) (ok y, b) e = ground arith
  respond-answer op u id f (err x, a) (err y, b) e = ground arith
  respond-answer op u id f (ok x, a) (err y, b) e = absurd (ground arith)
  respond-answer op u id f (err x, a) (ok y, b) e = absurd (ground arith)

  get_same :
      (u : User) (id : ℤ) (a b : Db)
      → rows_of u.id a ≡ rows_of u.id b
      → (get_config_plaintext prim (healthy now) key u.id id a).0
        ≡ (get_config_plaintext prim (healthy now) key u.id id b).0
  get_same u id a b e =
      ap (λ r. r.0) (get_config_plaintext_run u.id id a)
      ∙ ap (opened u.id id)
          (sym (read-owned u.id id a.rows) ∙ ap (read u.id id) e ∙ read-owned u.id id b.rows)
      ∙ sym (ap (λ r. r.0) (get_config_plaintext_run u.id id b))

  handle_get_config-same :
      (u : User) (raw : Bytes) (a b : Db)
      → rows_of u.id a ≡ rows_of u.id b
      → (handle_get_config enc (some u) raw a).0 ≡ (handle_get_config enc (some u) raw b).0
  unfolding handle_get_config encrypted_store
  handle_get_config-same u raw a b e = elim (Option-cases (parse_config_id raw)) [
    | inl bad ↦ ground (arith, bad)
    | inr (id, good) ↦ ground (
      arith,
      good,
      respond-answer (lit "get_config") u.id id
          (λ row. write_json 200 (config_response (new_config_response row)))
          (get_config_plaintext prim (healthy now) key u.id id a)
          (get_config_plaintext prim (healthy now) key u.id id b) (get_same u id a b e),
    )
  ]

  list_same :
      (u : ℤ) (a b : Db)
      → rows_of u a ≡ rows_of u b
      → (list_configs_by_user_plaintext prim (healthy now) key u a).0
        ≡ (list_configs_by_user_plaintext prim (healthy now) key u b).0
  unfolding list_configs_by_user_plaintext
  list_same u a b e =
      let same =
        list_configs_by_user_run now u a ∙ ap scan_all e ∙ sym (list_configs_by_user_run now u b) in
      elim (Result-cases (list_configs_by_user (healthy now) u a).0) [
        | inl (cs, ran) ↦ ground (arith, ran, same)
        | inr (x, ran) ↦ ground (arith, ran, same)
      ]

  handle_list_configs-same :
      (u : User) (a b : Db)
      → rows_of u.id a ≡ rows_of u.id b
      → (handle_list_configs enc (some u) a).0 ≡ (handle_list_configs enc (some u) b).0
  unfolding handle_list_configs encrypted_store
  handle_list_configs-same u a b e =
      respond-answer (lit "list_configs") u.id (pos 0)
        (λ rows. write_json 200 (configs_response (map new_config_response rows)))
        (list_configs_by_user_plaintext prim (healthy now) key u.id a)
        (list_configs_by_user_plaintext prim (healthy now) key u.id b) (list_same u.id a b e)

  -- If no driver call fails during the request, GET /api/1/configs/{id} and GET /api/1/configs are
  -- answered the same before and after any operations of other users, whatever fails during those.
  pub unobservable :
      (env : Env) (u : User) (raw : Bytes) (ops : List (ℤ × Op)) (db : Db)
      → All (λ o. o.0 ≢ u.id) ops
      → ((handle_get_config enc (some u) raw (run_all env ops db)).0
          ≡ (handle_get_config enc (some u) raw db).0)
        × ((handle_list_configs enc (some u) (run_all env ops db)).0
            ≡ (handle_list_configs enc (some u) db).0)
  unobservable env u raw ops db h =
      let same = run_all-SameRows env u.id ops db h in
      (
        handle_get_config-same u raw (run_all env ops db) db same,
        handle_list_configs-same u (run_all env ops db) db same,
      )

  -- A path id that parseConfigID refuses, or that addresses no row of the user.
  abbrev pub NoSuchConfig : User → Bytes → Db → Type 0
  NoSuchConfig u raw db =
      (parse_config_id raw ≡ none)
      ⊎ ((id : ℤ) × (parse_config_id raw ≡ some id) × (find? (addressed u.id id) db.rows ≡ none))

  get_absent :
      (u id : ℤ) (db : Db)
      → find? (addressed u id) db.rows ≡ none
      → (get_config_plaintext prim (healthy now) key u id db).0 ≡ err config_not_found
  get_absent u id db e =
      ap (λ r. r.0) (get_config_plaintext_run u id db)
      ∙ ap (opened u id) (read-find_none u id db.rows e)
      ∙ opened_err
    where
      opened_err : opened u id (err config_not_found) ≡ err config_not_found
      opened_err = unfold opened in refl

  delete_absent :
      (u id : ℤ) (db : Db)
      → find? (addressed u id) db.rows ≡ none
      → (delete_config_plaintext prim (healthy now) key u id db).0 ≡ err config_not_found
  unfolding delete_config_plaintext
  delete_absent u id db e = ground (arith, e, (delete_lem now u id db).0)

  -- If no driver call fails, GET and DELETE of a path id that is malformed or under which the user
  -- has no configuration (absent, or another user's) are answered with the same 404 "not found",
  -- and log nothing.
  pub NoSuchConfig-404 :
      (u : User) (raw : Bytes) (db : Db)
      → NoSuchConfig u raw db
      → ((handle_get_config enc (some u) raw db).0 ≡ not_found)
        × ((handle_delete_config enc (some u) raw db).0 ≡ not_found)
  unfolding handle_get_config handle_delete_config encrypted_store write_store_error
  NoSuchConfig-404 u raw db (inl bad) = (ground (arith, bad), ground (arith, bad))
  NoSuchConfig-404 u raw db (inr (id, good, gone)) = (
    ground (arith, good, get_absent u.id id db gone),
    ground (arith, good, delete_absent u.id id db gone),
  )
