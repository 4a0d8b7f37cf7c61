-- ===== src/Sqlite/Driver.antt =====
-- The database as internal/store/sqlite/sqlite.go sees it through database/sql: the table of
-- configurations, statements that may fail, the clock seam, and transactions.
use tabby_sync.Common.{ℕ, ◌+◌, ℤ, Bytes, Bool, true, false, Option, List, if◌then◌else◌}
use tabby_sync.Store.{Time, Result, ok, err, Error, internal}

-- A TEXT timestamp column: an RFC3339Nano text, by the instant that it denotes, or any other text.
pub data Stamp : Type 0 where
  at : Time → Stamp
  garbled : Bytes → Stamp

-- A row of `configs`. `last_used_with_version` is nullable.
pub record Row : Type 0 where
  pub id : ℤ
  pub user_id : ℤ
  pub name : Bytes
  pub content_ciphertext : Bytes
  pub content_nonce : Bytes
  pub last_used_with_version : Option Bytes
  pub created_at : Stamp
  pub modified_at : Stamp

-- The outside world: what the clock reads, and which driver calls fail, by a running number of the
-- calls made so far.
pub record Env : Type 0 where
  pub now : ℕ → Time
  pub faulty : ℕ → Bool

-- The rows in rowid order, the AUTOINCREMENT counter (sqlite_sequence), and the calls made.
pub record Db : Type 0 where
  pub rows : List Row
  pub seq : ℕ
  pub calls : ℕ

-- An action that may fail.
abbrev pub M : Type 0 → Type 0
M A = Db → Result A × Db

infixl 5 ◌>>=◌ ◌>>◌
abbrev pub ◌>>=◌ : {A B : Type 0} → M A → (A → M B) → M B
◌>>=◌ m f db = let r = m db in elim r.0 [ ok a ↦ f a r.1 | err e ↦ (err e, r.1) ]

abbrev pub ◌>>◌ : {A B : Type 0} → M A → M B → M B
m >> k = m >>= λ _. k

abbrev pub pure : {A : Type 0} → A → M A
pure a db = (ok a, db)

abbrev pub throw : {A : Type 0} → Error → M A
throw e db = (err e, db)

abbrev pub guard : Bool → Error → M (Unit {0})
guard true e = pure tt
guard false e = throw e

module _ (env : Env) where
  -- One call of the driver, which may fail: Exec, Query, LastInsertId, RowsAffected, Begin, Commit.
  unfoldable pub call : M (Unit {0})
  call db =
      (if env.faulty db.calls then err internal else ok tt, record db { calls = db.calls + 1 })

  -- nowFn().UTC()
  unfoldable pub now_fn : M Time
  now_fn db = (ok (env.now db.calls), record db { calls = db.calls + 1 })

-- Rollback: the table and its counter are as they were at BEGIN.
abbrev pub rollback : Db → Db → Db
rollback start db = record start { calls = db.calls }

-- No driver call fails.
abbrev pub healthy : (ℕ → Time) → Env
healthy now = record { now = now; faulty = λ _. false }
