-- ===== src/Sqlite/Invariant.antt =====
-- The invariant of the `configs` table: ids are positive, strictly ascending and within the
-- AUTOINCREMENT counter, the counter is an int64, and every timestamp column can be parsed.
use tabby_sync.Common.{
  ℕ, ◌+◌, ◌≤◌, ◌<◌, ℤ, pos, Bool, Option, none, some, List, [], ◌∷◌, ◌++◌, ◌≡◌, refl, arith, filter,
  All, All-append, Bool-cases, inl, inr,
}
use tabby_sync.Store.{Time, CreateConfigInput, UpdateConfigPatch}
use tabby_sync.Sqlite.Driver.{Row, Env, Db, at}
use tabby_sync.Sqlite.{
  max_int64, new_row, update_where, update_rows, insert_row_cases, delete_rows, finalise,
  apply_patch,
}
use tabby_sync.Sqlite.Frames.{Frame, Writes}
use tabby_sync.Sqlite.Operations.{Op, run_all, run_all-Writes}

-- The ids of the rows ascend strictly, from above `lo` up to `hi`.
abbrev pub Ids : ℕ → ℕ → List Row → Type 0
Ids lo hi [] = lo ≤ hi
Ids lo hi (r ∷ rs) = (n : ℕ) × (r.id ≡ pos n) × (lo < n) × Ids n hi rs

abbrev pub IsReadable : Row → Type 0
IsReadable r = (c m : Time) × (r.created_at ≡ at c) × (r.modified_at ≡ at m)

pub record IsSound (db : Db) : Type 0 where
  pub ids : Ids 0 db.seq db.rows
  pub bounded : db.seq ≤ max_int64
  pub stamps : All IsReadable db.rows

Ids-snoc :
    (lo hi : ℕ) (rs : List Row) (r : Row)
    → Ids lo hi rs
    → r.id ≡ pos (hi + 1)
    → Ids lo (hi + 1) (rs ++ r ∷ [])
Ids-snoc lo hi [] r h e = (hi + 1, e, omega arith, omega arith)
Ids-snoc lo hi (s ∷ rs) r (n, es, lt, h) e = (n, es, lt, Ids-snoc n hi rs r h e)

Ids-update_where :
    (p : Row → Bool) (f : Row → Row)
    → ((r : Row) → (f r).id ≡ r.id)
    → (lo hi : ℕ) (rs : List Row) → Ids lo hi rs
    → Ids lo hi (update_where p f rs)
unfolding update_where
Ids-update_where p f k lo hi [] h = h
Ids-update_where p f k lo hi (r ∷ rs) (n, e, lt, h) =
    (n, ground (arith, k r), lt, Ids-update_where p f k n hi rs h)

Ids-weaken : (lo lo' hi : ℕ) (rs : List Row) → lo ≤ lo' → Ids lo' hi rs → Ids lo hi rs
Ids-weaken lo lo' hi [] le h = omega arith
Ids-weaken lo lo' hi (r ∷ rs) le (n, e, lt, h) = (n, e, omega arith, h)

Ids-filter : (p : Row → Bool) (lo hi : ℕ) (rs : List Row) → Ids lo hi rs → Ids lo hi (filter p rs)
unfolding filter
Ids-filter p lo hi [] h = h
Ids-filter p lo hi (r ∷ rs) (n, e, lt, h) = elim (Bool-cases (p r)) [
  | inl kept ↦ rw kept (n, e, lt, Ids-filter p n hi rs h)
  | inr dropped ↦ rw dropped (Ids-weaken lo n hi _ (omega arith) (Ids-filter p n hi rs h))
]

All-update_where :
    (p : Row → Bool) (f : Row → Row)
    → ((r : Row) → IsReadable r → IsReadable (f r))
    → (rs : List Row) → All IsReadable rs
    → All IsReadable (update_where p f rs)
unfolding update_where
All-update_where p f k [] h = h
All-update_where p f k (r ∷ rs) (q, h) = elim (Bool-cases (p r)) [
  | inl hit ↦ rw hit (k r q, All-update_where p f k rs h)
  | inr miss ↦ rw miss (q, All-update_where p f k rs h)
]

All-filter : (p : Row → Bool) (rs : List Row) → All IsReadable rs → All IsReadable (filter p rs)
unfolding filter
All-filter p [] h = h
All-filter p (r ∷ rs) (q, h) = elim (Bool-cases (p r)) [
  | inl kept ↦ rw kept (q, All-filter p rs h)
  | inr dropped ↦ rw dropped (All-filter p rs h)
]

KeepsSound : Db → Db → Type 0
KeepsSound a b = IsSound a → IsSound b

updated :
    (p : Row → Bool) (f : Row → Row)
    → ((r : Row) → (f r).id ≡ r.id)
    → ((r : Row) → IsReadable r → IsReadable (f r))
    → Frame KeepsSound (update_rows p f)
unfolding KeepsSound update_rows
updated p f k q = record {
  at = λ db s. record {
    ids = Ids-update_where p f k 0 db.seq db.rows s.ids;
    bounded = s.bounded;
    stamps = All-update_where p f q db.rows s.stamps;
  };
}

finalise-IsReadable :
    (i : CreateConfigInput) (t : Time) (r : Row) → IsReadable r → IsReadable (finalise i t r)
unfolding finalise
finalise-IsReadable i t r (c, m, ec, em) = (c, t, ec, refl)

apply_patch-IsReadable :
    (p : UpdateConfigPatch) (t : Option Time) (r : Row)
    → IsReadable r
    → IsReadable (apply_patch p t r)
unfolding apply_patch
apply_patch-IsReadable p none r h = h
apply_patch-IsReadable p (some t) r (c, m, ec, em) = (c, t, ec, refl)

KeepsSound-Writes : (u : ℤ) → Writes KeepsSound u
unfolding KeepsSound new_row delete_rows finalise apply_patch
KeepsSound-Writes u = record {
  is_frame = record {
    calls = λ db n s. record { ids = s.ids; bounded = s.bounded; stamps = s.stamps };
    trans = λ a b c f g s. g (f s);
  };
  insert = λ name ct nonce last t. record {
    at = λ db s. insert_row_cases u name ct nonce last t IsSound db s λ room. record {
      ids = Ids-snoc 0 db.seq db.rows _ s.ids refl;
      bounded = omega arith;
      stamps = All-append IsReadable db.rows _ s.stamps ((t, t, refl, refl), tt);
    };
  };
  finalise = λ id i t. updated _ _ (λ r. refl) (finalise-IsReadable i t);
  patch = λ id p t. updated _ _ (λ r. refl) (apply_patch-IsReadable p t);
  delete = λ id. record {
    at = λ db s. record {
      ids = Ids-filter _ 0 db.seq db.rows s.ids;
      bounded = s.bounded;
      stamps = All-filter _ db.rows s.stamps;
    };
  };
}

-- From a sound table (ids positive, strictly ascending and within the counter, the counter an
-- int64, all timestamps parseable), every sequence of operations of any users leads to a sound
-- table, failed operations included.
pub run_all-IsSound :
    (env : Env) (ops : List (ℤ × Op)) (db : Db) → IsSound db → IsSound (run_all env ops db)
unfolding KeepsSound
run_all-IsSound env ops db s =
    run_all-Writes env (KeepsSound-Writes (pos 0)).is_frame KeepsSound-Writes ops db s
