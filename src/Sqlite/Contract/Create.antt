-- ===== src/Sqlite/Contract/Create.antt =====
-- CreateConfigWithID when no driver call fails.
use tabby_sync.Common.{
  ℕ, ◌+◌, ◌<◌, ℤ, pos, eqb_ℤ_iff, Bytes, true, false, Option, none, some, [], ◌∷◌, ◌++◌, ◌≡◌, refl,
  arith, filter, find?, leb, sym, ap, is_empty, if◌then◌else◌,
}
use tabby_sync.Store.{Time, CreateConfigInput, Result, ok, Config, err, internal}
use tabby_sync.Sqlite.Driver.{Row, Db, healthy, call, now_fn, at}
use tabby_sync.Sqlite.{
  max_int64, new_row, finalise, addressed, validate_create_input, scan_config, build_config,
  create_config_with_id, create_in_tx, with_rollback, insert_row, update_rows, select_row,
  next_modified_at, update_where, create_reserved, null_if_empty, from_null,
}
use tabby_sync.Sqlite.Invariant.{IsSound}
use tabby_sync.Sqlite.Rows.{update_where-miss, filter-miss, find?-miss, Ids-fresh, Misses}
use tabby_sync.Sqlite.Contract.{read, later, lt-later}

-- The row that CreateConfigWithID stores.
unfoldable pub stored_row : ℕ → ℤ → CreateConfigInput → Time → Time → Row
unfolding new_row finalise
stored_row seq u i created modified =
    finalise i modified (new_row seq u [] (0 ∷ []) (0 ∷ []) none created)

-- A configuration of the input, and its row: each column by name.
abbrev pub new_config : ℤ → ℤ → CreateConfigInput → Time → Time → Config
new_config id u i created modified = record {
  id = id;
  user_id = u;
  name = i.name;
  content_ciphertext = i.content_ciphertext;
  content_nonce = i.content_nonce;
  last_used_with_version = i.last_used_with_version;
  created_at = created;
  modified_at = modified;
}

abbrev pub new_stored_row : ℤ → ℤ → CreateConfigInput → Time → Time → Row
new_stored_row id u i created modified = record {
  id = id;
  user_id = u;
  name = i.name;
  content_ciphertext = i.content_ciphertext;
  content_nonce = i.content_nonce;
  last_used_with_version =
      if is_empty i.last_used_with_version then none else some i.last_used_with_version;
  created_at = at created;
  modified_at = at modified;
}

pub stored-fields :
    (seq : ℕ) (u : ℤ) (i : CreateConfigInput) (c m : Time)
    → stored_row seq u i c m ≡ new_stored_row (pos (seq + 1)) u i c m
unfolding stored_row finalise new_row null_if_empty
stored-fields seq u i c m = refl

from_null-null_if_empty : (s : Bytes) → from_null (null_if_empty s) ≡ s
unfolding from_null null_if_empty
from_null-null_if_empty [] = refl
from_null-null_if_empty (c ∷ s) = refl

pub returned-fields :
    (seq : ℕ) (u : ℤ) (i : CreateConfigInput) (c m : Time)
    → build_config (stored_row seq u i c m) c m ≡ new_config (pos (seq + 1)) u i c m
unfolding stored_row finalise new_row build_config
returned-fields seq u i c m =
    ap (λ l. record (new_config (pos (seq + 1)) u i c m) { last_used_with_version = l })
      (from_null-null_if_empty i.last_used_with_version)

abbrev pub appended : Db → Row → Db
appended db r = record db { rows = db.rows ++ r ∷ []; seq = db.seq + 1 }

pub insert_row-full :
    (u : ℤ) (n ct nonce : Bytes) (l : Option Bytes) (t : Time) (db : Db)
    → leb max_int64 db.seq ≡ true
    → insert_row u n ct nonce l t db ≡ (err internal, db)
unfolding insert_row
insert_row-full u n ct nonce l t db full = rw full refl

pub insert_row-room :
    (u : ℤ) (n ct nonce : Bytes) (l : Option Bytes) (t : Time) (db : Db)
    → leb max_int64 db.seq ≡ false
    → insert_row u n ct nonce l t db
      ≡ (ok (pos (db.seq + 1)), appended db (new_row db.seq u n ct nonce l t))
unfolding insert_row
insert_row-room u n ct nonce l t db room = rw room

module _ (u : ℤ) (r : Row) (db : Db) (f : Row → Row) (hit : addressed u (pos (db.seq + 1)) r ≡ true)
    (fresh : Misses (addressed u (pos (db.seq + 1))) db.rows) (n : ℕ) where
  update_rows-new :
      update_rows
        (addressed u (pos (db.seq + 1)))
        f
        (record { rows = db.rows ++ r ∷ []; seq = db.seq + 1; calls = n })
      ≡ (ok 1, record { rows = db.rows ++ f r ∷ []; seq = db.seq + 1; calls = n })
  unfolding update_rows update_where filter
  update_rows-new =
      rw (update_where-miss _ f db.rows (r ∷ []) fresh, filter-miss _ db.rows (r ∷ []) fresh, hit)

  select_row-new :
      select_row
        (addressed u (pos (db.seq + 1)))
        (record { rows = db.rows ++ r ∷ []; seq = db.seq + 1; calls = n })
      ≡ (ok (some r), record { rows = db.rows ++ r ∷ []; seq = db.seq + 1; calls = n })
  unfolding select_row find?
  select_row-new = rw (find?-miss _ db.rows (r ∷ []) fresh, hit)

module _ (now : ℕ → Time) (u : ℤ) (build : ℤ → Result CreateConfigInput) (i : CreateConfigInput)
    (db : Db) (sound : IsSound db) (room : db.seq < max_int64)
    (built : build (pos (db.seq + 1)) ≡ ok i) (valid : validate_create_input i ≡ true) where
  created_time : Time
  created_time = now (db.calls + 1)

  modified_time : Time
  modified_time = later (now (db.calls + 1)) (now (db.calls + 1 + 1 + 1 + 1))

  stored : Row
  stored = stored_row db.seq u i created_time modified_time

  calls_after : ℕ
  calls_after = db.calls + 1 + 1 + 1 + 1 + 1 + 1 + 1 + 1

  hit :
      (r : Row) → r.id ≡ pos (db.seq + 1) → r.user_id ≡ u → addressed u (pos (db.seq + 1)) r ≡ true
  unfolding addressed
  hit r e f = ground (arith, eqb_ℤ_iff r.id (pos (db.seq + 1)), eqb_ℤ_iff r.user_id u)

  create_in_tx_run : create_in_tx (healthy now) u build (record db { calls = db.calls + 1 }) ≡ (
    ok (build_config stored created_time modified_time),
    record { rows = db.rows ++ stored ∷ []; seq = db.seq + 1; calls = calls_after },
  )
  unfolding create_in_tx create_reserved call now_fn next_modified_at created_time modified_time
      calls_after stored stored_row later scan_config
  create_in_tx_run =
      let fresh = Ids-fresh u 0 db.seq (db.seq + 1) db.rows sound.ids (omega arith) in
      let r0 = new_row db.seq u [] (0 ∷ []) (0 ∷ []) none (now (db.calls + 1)) in
      let begun = record db { calls = db.calls + 1 + 1 + 1 } in
      ground (
        arith,
        insert_row-room u [] (0 ∷ []) (0 ∷ []) none (now (db.calls + 1)) begun (ground arith),
        built,
        valid,
        update_rows-new u r0 db (finalise i modified_time) (hit r0 refl refl) fresh
            (db.calls + 1 + 1 + 1 + 1 + 1 + 1),
        select_row-new u stored db (finalise i modified_time) (hit stored refl refl) fresh
            (db.calls + 1 + 1 + 1 + 1 + 1 + 1 + 1 + 1),
      )

  pub create_config_with_id_stores :
      (c m n : ℕ) × (c < m)
      × (create_config_with_id (healthy now) u (some build) db ≡ (
        ok (build_config (stored_row db.seq u i c m) c m),
        record { rows = db.rows ++ stored_row db.seq u i c m ∷ []; seq = db.seq + 1; calls = n },
      ))
  unfolding create_config_with_id with_rollback call stored calls_after
  create_config_with_id_stores = (
    created_time,
    modified_time,
    calls_after + 1,
    unfold created_time modified_time in lt-later _ _,
    ground (arith, create_in_tx_run),
  )

  -- If no driver call fails, the table is sound and has a free id, and the builder returns a valid
  -- input for that id, CreateConfigWithID succeeds: it appends one row and returns it, with the
  -- next id, the user, and the name, content and version of the input; its modified_at is after its
  -- created_at.
  pub create_config_with_id_run :
      (c m n : ℕ) × (c < m)
      × (create_config_with_id (healthy now) u (some build) db ≡ (
        ok (new_config (pos (db.seq + 1)) u i c m),
        record {
          rows = db.rows ++ new_stored_row (pos (db.seq + 1)) u i c m ∷ [];
          seq = db.seq + 1;
          calls = n;
        },
      ))
  create_config_with_id_run =
      let (c, m, n, lt, ran) = create_config_with_id_stores in
      (
        c,
        m,
        n,
        lt,
        rw (sym (stored-fields db.seq u i c m), sym (returned-fields db.seq u i c m)) ran,
      )

  -- What was created reads back at once, as what CreateConfigWithID returned.
  pub get-create_with_id :
      (c m n : ℕ)
      → read u (pos (db.seq + 1)) (db.rows ++ stored_row db.seq u i c m ∷ [])
        ≡ ok (build_config (stored_row db.seq u i c m) c m)
  unfolding read stored_row scan_config find?
  get-create_with_id c m n =
      let fresh = Ids-fresh u 0 db.seq (db.seq + 1) db.rows sound.ids (omega arith) in
      ground (
        arith,
        find?-miss (addressed u (pos (db.seq + 1))) db.rows (stored_row db.seq u i c m ∷ []) fresh,
        hit (stored_row db.seq u i c m) refl refl,
      )
