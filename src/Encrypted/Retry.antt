-- ===== src/Encrypted/Retry.antt =====
-- When the retry loop of UpdateConfigPlaintext (internal/store/encrypted/encrypted.go) ends.
use tabby_sync.Common.{
  ℕ, zero, suc, ◌+◌, ℤ, Bytes, Bool, Option, none, some, ◌≡◌, ◌≢◌, refl, ◌∙◌, arith, find?,
  Bool-cases, inl, inr, ap,
}
use tabby_sync.Store.{
  Config, UpdateConfigPlaintextPatch, ConfigWithPlaintext, Result, ok, err, config_changed,
  Result-cases,
}
use tabby_sync.Crypto.{Primitives}
use tabby_sync.Sqlite.Driver.{Env, Db}
use tabby_sync.Sqlite.{addressed, expects, get_config, update_config}
use tabby_sync.Sqlite.CompareAndSet.{get_config-found, update_config-ne-changed}
use tabby_sync.Encrypted.{
  Round, return, continue, open_row, get_config_plaintext, idle_patch, is_change, after_idle,
  write_round, update_round, update_loop,
}
use native.Mathlib.Nat.{zero-add}
use mathlib.Core.Path.{subst}

-- The round ends the loop.
abbrev Returns : Round → Type 0
Returns (return x) = Unit
Returns (continue db) = ⊥

module _ (prim : Primitives) (env : Env) (key : Bytes) (u id : ℤ) where
  opened_row :
      (db : Db) (current : ConfigWithPlaintext)
      → (get_config_plaintext prim env key u id db).0 ≡ ok current
      → (c : Config) × ((get_config env u id db).0 ≡ ok c)
        × (c.modified_at ≡ current.modified_at)
        × ((get_config_plaintext prim env key u id db).1 ≡ (get_config env u id db).1)
  unfolding get_config_plaintext open_row
  opened_row db current h = elim (Result-cases (get_config env u id db).0) [
    | inl (c, read) ↦ (c, read, ground arith, ground arith)
    | inr (e, failed) ↦ absurd (ground arith)
  ]

  module _ (cancelled : ℕ → Bool) (others : ℕ → Db → Db) (random : ℕ → Option Bytes)
      (patch : UpdateConfigPlaintextPatch) where
    -- Between the read and the write of round `n`, nobody else touches the row.
    abbrev pub IsQuiet : ℕ → Type 0
    IsQuiet n =
        (db : Db) → find? (addressed u id) (others n db).rows ≡ find? (addressed u id) db.rows

    idle_ends :
        (n : ℕ) (db : Db) (current : ConfigWithPlaintext)
        → IsQuiet n
        → (get_config_plaintext prim env key u id db).0 ≡ ok current
        → (update_config env u id
            (idle_patch prim env key u patch current)
            (others n (get_config_plaintext prim env key u id db).1)).0
          ≢ err config_changed
    unfolding idle_patch expects
    idle_ends n db current quiet h =
        let (c, read, same, state) = opened_row db current h in
        let (r, there, parsed, kept) = get_config-found env u id db c read in
        let mid = others n (get_config_plaintext prim env key u id db).1 in
        update_config-ne-changed env u id (idle_patch prim env key u patch current) mid r
          c.modified_at
          (quiet _
            ∙ ap (λ (d : Db). find? (addressed u id) d.rows) state
            ∙ ap (find? (addressed u id)) kept
            ∙ there)
          parsed (ground arith)

    after_idle-Returns :
        (r : Result Config) (db : Db)
        → r ≢ err config_changed
        → Returns (after_idle prim env key u id r db)
    unfolding after_idle
    after_idle-Returns (ok c) db h = tt
    after_idle-Returns (err config_changed) db h = absurd (h refl)
    after_idle-Returns (err e) db h = tt

    write_round-Returns :
        (n : ℕ) (current : ConfigWithPlaintext) (db : Db)
        → (update_config env u id (idle_patch prim env key u patch current) db).0
          ≢ err config_changed
        → Returns (write_round prim env key u cancelled others random id patch n current db)
    unfolding write_round
    write_round-Returns n current db h =
        elim (Bool-cases (is_change prim env key u patch current)) [
          | inl changed ↦ rw changed tt
          | inr idle ↦ rw idle (after_idle-Returns _ _ h)
        ]

    read_cases :
        (n : ℕ) (r : Result ConfigWithPlaintext) (db : Db)
        → ((current : ConfigWithPlaintext)
            → r ≡ ok current
            → Returns (
                write_round prim env key u cancelled others random id patch n current
                  (others n db)))
        → Returns (elim r as (λ _. Round) [
          | ok current ↦
              write_round prim env key u cancelled others random id patch n current (others n db)
          | err e ↦ return (err e, db)
        ])
    read_cases n (ok current) db h = h current refl
    read_cases n (err e) db h = tt

    quiet_round :
        (n : ℕ) (db : Db)
        → IsQuiet n
        → Returns (update_round prim env key u cancelled others random id patch n db)
    unfolding update_round
    quiet_round n db quiet = elim (Bool-cases (cancelled n)) [
      | inl stops ↦ rw stops tt
      | inr goes ↦ rw goes (
          read_cases n _ _
            λ current h. write_round-Returns n current _ (idle_ends n db current quiet h))
    ]

    loop_step :
        (fuel n : ℕ) (x : Round)
        → ((db : Db)
            → update_loop prim env key u cancelled others random id patch fuel (suc n) db ≢ none)
        → (elim x as (λ _. Option (Result ConfigWithPlaintext × Db)) [
          | return r ↦ some r
          | continue db ↦
              update_loop prim env key u cancelled others random id patch fuel (suc n) db
        ])
          ≢ none
    loop_step fuel n (return r) h = cc
    loop_step fuel n (continue db) h = h db

    last_step :
        (n : ℕ) (x : Round)
        → Returns x
        → (elim x as (λ _. Option (Result ConfigWithPlaintext × Db)) [
          | return r ↦ some r
          | continue db ↦ none
        ])
          ≢ none
    last_step n (return r) h = cc
    last_step n (continue db) h = absurd h

    -- If round `k + n` is quiet (whatever the state, what other connections commit between its read
    -- and its write leaves the addressed row as it was), the loop of UpdateConfigPlaintext that
    -- starts at round `n` returns a result within `k + 1` rounds, whichever driver calls fail.
    pub update_loop-ends :
        (k n : ℕ) (db : Db)
        → IsQuiet (k + n)
        → update_loop prim env key u cancelled others random id patch (suc k) n db ≢ none
    unfolding update_loop
    update_loop-ends zero n db quiet = last_step n _ (quiet_round n db (rw zero-add at quiet))
    update_loop-ends (suc k) n db quiet =
        loop_step (suc k) n _
          (λ db'. update_loop-ends k (suc n) db' (subst IsQuiet (omega arith) quiet))
