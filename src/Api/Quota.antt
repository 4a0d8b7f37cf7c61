-- ===== src/Api/Quota.antt =====
-- The limit of 50 configurations per user: handleCreateConfig of internal/api/handlers.go over the
-- SQLite store.
use tabby_sync.Common.{
  ℕ, ◌+◌, ◌≤◌, ℤ, Bytes, Option, some, ◌≡◌, refl, arith, leb, is_empty, Bool-cases, Option-cases,
  inl, inr, ◌⊎◌, length, [], lit, pos, ap, filter,
}
use tabby_sync.Store.{
  ConfigWithPlaintext, CreateConfigPlaintextInput, UpdateConfigPlaintextPatch, Result, Result-cases,
  ok, err, internal,
}
use tabby_sync.Crypto.{Primitives}
use tabby_sync.Sqlite.Driver.{Env, Db, M}
use tabby_sync.Sqlite.{count_configs_by_user, create_config_with_id, owned}
use tabby_sync.Sqlite.Growth.{count_of, create_config_with_id_bound, count_configs_by_user-exact}
use tabby_sync.Encrypted.{
  encrypted_store, create_config_plaintext, count_configs_plaintext, build_create,
}
use tabby_sync.Auth.{User}
use tabby_sync.Api.{
  Input, CreateConfigRequest, respond, handle_create_config, create_within_quota, decode_json,
  Answer, write_json, config_response, new_config_response,
}

module _ (prim : Primitives) (env : Env) (key : Bytes) (random : Option Bytes)
    (update : ℤ → ℤ → UpdateConfigPlaintextPatch → M ConfigWithPlaintext) where
  create_config_plaintext_bound :
      (u v : ℤ) (i : CreateConfigPlaintextInput) (db : Db)
      → count_of v (create_config_plaintext prim env key u random i db).1 ≤ count_of v db + 1
  unfolding create_config_plaintext
  create_config_plaintext_bound u v i db =
      elim (Result-cases
        (create_config_with_id env u (some (build_create prim env key u random i)) db).0) [
          | inl (row, e) ↦ ground (
            arith,
            e,
            create_config_with_id_bound env u v (build_create prim env key u random i) db,
          )
          | inr (x, e) ↦ ground (
            arith,
            e,
            create_config_with_id_bound env u v (build_create prim env key u random i) db,
          )
        ]

  respond-state :
      {A : Type 0} (op : Bytes) (u id : ℤ) (f : A → Answer) (r : Result A × Db)
      → (respond (encrypted_store prim env key random update) op u id f r).1 ≡ r.1
  respond-state op u id f (ok a, db) = refl
  respond-state op u id f (err e, db) = refl

  -- Whatever the state, the other requests add at most `n` rows of the user.
  abbrev pub AddsAtMost : ℕ → ℤ → (Db → Db) → Type 0
  AddsAtMost n u meanwhile = (db : Db) → count_of u (meanwhile db) ≤ count_of u db + n

  create_within_quota_bound :
      (meanwhile : Db → Db) (k : ℕ) (u : User) (name : Bytes) (r : Result ℕ) (db : Db)
      → AddsAtMost k u.id meanwhile
      → ((r ≡ ok (count_of u.id db)) ⊎ (r ≡ err internal))
      → count_of u.id db ≤ 50
      → count_of u.id
          (create_within_quota
            (encrypted_store prim env key random update)
            meanwhile
            u
            name
            (r, db)).1
        ≤ 50 + k
  unfolding create_within_quota encrypted_store
  create_within_quota_bound meanwhile k u name (err e) db adds h le = omega arith
  create_within_quota_bound meanwhile k u name (ok n) db adds (inr h) le = absurd (ground arith)
  create_within_quota_bound meanwhile k u name (ok n) db adds (inl h) le =
      elim (Bool-cases (leb 50 n)) [
        | inl full ↦ ground (arith, full)
        | inr room ↦ ground (
          arith,
          room,
          adds db,
          respond-state (lit "create_config") u.id (pos 0)
              (λ row. write_json 201 (config_response (new_config_response row)))
              (create_config_plaintext prim env key u.id random
                (record { name = name; content = []; last_used_with_version = [] }) (meanwhile db)),
          create_config_plaintext_bound u.id u.id
              (record { name = name; content = []; last_used_with_version = [] }) (meanwhile db),
        )
      ]

  -- If a user has at most 50 configurations before POST /api/1/configs and other requests add at
  -- most `k` of theirs between its count and its create, they have at most 50 + `k` after it, so at
  -- most 50 if nobody else adds one there, whichever driver calls fail and whatever the body is.
  pub handle_create_config-quota :
      (meanwhile : Db → Db) (k : ℕ) (u : User) (r : Input CreateConfigRequest) (db : Db)
      → AddsAtMost k u.id meanwhile
      → count_of u.id db ≤ 50
      → count_of u.id
          (handle_create_config
            (encrypted_store prim env key random update)
            meanwhile
            (some u)
            r
            db).1
        ≤ 50 + k
  unfolding handle_create_config encrypted_store count_configs_plaintext
  handle_create_config-quota meanwhile k u r db adds h =
      let (counted, same) = count_configs_by_user-exact env u.id db in
      let after = (count_configs_by_user env u.id db).1 in
      let kept : count_of u.id after ≡ count_of u.id db =
        ap (λ rs. length (filter (owned u.id) rs)) same in
      elim (Option-cases (decode_json r)) [
        | inl bad ↦ ground (arith, bad)
        | inr (req, good) ↦ elim (Bool-cases (is_empty req.name)) [
          | inl empty ↦ ground (arith, good, empty)
          | inr named ↦ ground (
            arith,
            good,
            named,
            create_within_quota_bound meanwhile k u req.name (count_configs_by_user env u.id db).0
                after adds (rw kept counted) (omega arith),
          )
        ]
      ]
