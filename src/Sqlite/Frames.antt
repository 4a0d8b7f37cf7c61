-- ===== src/Sqlite/Frames.antt =====
-- Relations between the state before and after an action of the SQLite store, with one rule for
-- each way to build an action, and the operations of the Store interface as data.
use tabby_sync.Common.{ℕ, ℤ, Bytes, Bool, true, false, Option, if◌then◌else◌}
use tabby_sync.Store.{Time, CreateConfigInput, UpdateConfigPatch, Result, ok, err, Error}
use tabby_sync.Sqlite.Driver.{Row, Env, Db, M, ◌>>=◌, pure, throw, guard, call, now_fn, rollback}
use tabby_sync.Sqlite.{
  lift, addressed, insert_row, select_row, select_rows, update_rows, delete_rows, with_rollback,
  finalise, apply_patch,
}

-- A relation that driver calls keep, and that composes.
pub record IsFrame (R : Db → Db → Type 0) : Type 0 where
  pub calls : (db : Db) (n : ℕ) → R db (record db { calls = n })
  pub trans : (a b c : Db) → R a b → R b c → R a c

pub record Frame {A : Type 0} (R : Db → Db → Type 0) (m : M A) : Type 0 where
  pub at : (db : Db) → R db (m db).1

module _ {R : Db → Db → Type 0} where
  pub Frame-pure : {A : Type 0} → IsFrame R → (a : A) → Frame R (pure a)
  Frame-pure f a = record { at = λ db. f.calls db db.calls }

  pub Frame-throw : {A : Type 0} → IsFrame R → (e : Error) → Frame R (throw {A = A} e)
  Frame-throw f e = record { at = λ db. f.calls db db.calls }

  pub Frame-lift : {A : Type 0} → IsFrame R → (r : Result A) → Frame R (lift r)
  Frame-lift f r = record { at = λ db. f.calls db db.calls }

  pub Frame-guard : IsFrame R → (b : Bool) (e : Error) → Frame R (guard b e)
  Frame-guard f true e = record { at = λ db. f.calls db db.calls }
  Frame-guard f false e = record { at = λ db. f.calls db db.calls }

  bind_at :
      {A B : Type 0}
      → IsFrame R
      → (r : Result A) (f : A → M B) (start db : Db) → R start db
      → ((a : A) → Frame R (f a))
      → R start (elim r as (λ _. Result B × Db) [ ok a ↦ f a db | err e ↦ (err e, db) ]).1
  bind_at fr (ok a) f start db h kf = fr.trans start db (f a db).1 h ((kf a).at db)
  bind_at fr (err e) f start db h kf = h

  pub Frame-bind :
      {A B : Type 0}
      → IsFrame R
      → (m : M A) (f : A → M B) → Frame R m
      → ((a : A) → Frame R (f a))
      → Frame R (m >>= f)
  Frame-bind fr m f km kf = record { at = λ db. bind_at fr (m db).0 f db (m db).1 (km.at db) kf }

  pub Frame-if :
      {A : Type 0} (b : Bool) (m n : M A) → Frame R m → Frame R n → Frame R (if b then m else n)
  Frame-if true m n km kn = km
  Frame-if false m n km kn = kn

  pub Frame-call : IsFrame R → (env : Env) → Frame R (call env)
  unfolding call
  Frame-call f env = record { at = λ db. f.calls db _ }

  pub Frame-now_fn : IsFrame R → (env : Env) → Frame R (now_fn env)
  unfolding now_fn
  Frame-now_fn f env = record { at = λ db. f.calls db _ }

  pub Frame-select_row : IsFrame R → (p : Row → Bool) → Frame R (select_row p)
  unfolding select_row
  Frame-select_row f p = record { at = λ db. f.calls db db.calls }

  pub Frame-select_rows : IsFrame R → (p : Row → Bool) → Frame R (select_rows p)
  unfolding select_rows
  Frame-select_rows f p = record { at = λ db. f.calls db db.calls }

  rollback_at :
      {A : Type 0}
      → IsFrame R
      → (start : Db) (r : Result A × Db) → R start r.1
      → R start
          (elim r.0 as (λ _. Result A × Db) [ ok a ↦ r | err e ↦ (err e, rollback start r.1) ]).1
  rollback_at f start (ok a, db) h = h
  rollback_at f start (err e, db) h = f.calls start db.calls

  pub Frame-with_rollback :
      {A : Type 0} → IsFrame R → (m : M A) → Frame R m → Frame R (with_rollback m)
  unfolding with_rollback
  Frame-with_rollback f m km = record { at = λ db. rollback_at f db (m db) (km.at db) }

pub ruleset frame_rules = (
  Frame-pure, Frame-throw, Frame-lift, Frame-guard, Frame-bind, Frame-if, Frame-call, Frame-now_fn,
  Frame-select_row, Frame-select_rows, Frame-with_rollback,
)

-- What the writing statements of the operations of `user_id` do.
pub record Writes (R : Db → Db → Type 0) (user_id : ℤ) : Type 0 where
  pub is_frame : IsFrame R
  pub insert :
      (name ciphertext nonce : Bytes) (last : Option Bytes) (t : Time)
      → Frame R (insert_row user_id name ciphertext nonce last t)
  pub finalise :
      (id : ℤ) (i : CreateConfigInput) (t : Time)
      → Frame R (update_rows (addressed user_id id) (finalise i t))
  pub patch :
      (id : ℤ) (p : UpdateConfigPatch) (t : Option Time)
      → Frame R (update_rows (addressed user_id id) (apply_patch p t))
  pub delete : (id : ℤ) → Frame R (delete_rows (addressed user_id id))
