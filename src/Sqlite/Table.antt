-- ===== src/Sqlite/Table.antt =====
-- internal/store/sqlite/sqlite.go: the rows, the statements on the table, and the checks of inputs.
use tabby_sync.Common.{
  ℕ, ◌+◌, ◌-◌, ◌^◌, ℤ, pos, eqb_ℤ, Bytes, is_empty, Bool, false, not, ◌&&◌, ◌||◌, xor, is_some,
  Option, none, some, List, [], ◌∷◌, ◌++◌, length, filter, find?, leb, ◌==◌, if◌then◌else◌,
  Bool-cases, inl, inr, ◌<◌, arith, or_else,
}
use tabby_sync.Store.{
  Time, Config, CreateConfigInput, UpdateConfigPatch, Result, ok, err, config_not_found, internal,
}
use tabby_sync.Sqlite.Driver.{Stamp, at, garbled, Row, Db, M, rollback}

-- time.Parse(time.RFC3339Nano, …)
unfoldable pub parse_stamp : Stamp → Result Time
parse_stamp (at t) = ok t
parse_stamp (garbled s) = err internal

-- "" is NULL on disk.
unfoldable pub null_if_empty : Bytes → Option Bytes
null_if_empty s = if is_empty s then none else some s

unfoldable pub from_null : Option Bytes → Bytes
from_null none = []
from_null (some s) = s

unfoldable pub build_config : Row → Time → Time → Config
unfolding from_null
build_config r created modified = record {
  id = r.id;
  user_id = r.user_id;
  name = r.name;
  content_ciphertext = r.content_ciphertext;
  content_nonce = r.content_nonce;
  last_used_with_version = from_null r.last_used_with_version;
  created_at = created;
  modified_at = modified;
}

-- scanConfig
unfoldable pub scan_config : Row → Result Config
unfolding parse_stamp build_config
scan_config r = elim (parse_stamp r.created_at) [
  | ok c ↦ elim (parse_stamp r.modified_at) [ ok m ↦ ok (build_config r c m) | err e ↦ err e ]
  | err e ↦ err e
]

abbrev pub lift : {A : Type 0} → Result A → M A
lift r db = (r, db)

-- WHERE id = ? AND user_id = ?
unfoldable pub addressed : ℤ → ℤ → Row → Bool
addressed user_id config_id r = eqb_ℤ r.id config_id && eqb_ℤ r.user_id user_id

-- WHERE user_id = ?
unfoldable pub owned : ℤ → Row → Bool
owned user_id r = eqb_ℤ r.user_id user_id

unfoldable pub update_where : (Row → Bool) → (Row → Row) → List Row → List Row
update_where p f [] = []
update_where p f (r ∷ rs) = (if p r then f r else r) ∷ update_where p f rs

abbrev pub max_int64 : ℕ
max_int64 = 2 ^ 63 - 1

-- The row that INSERT writes under the next AUTOINCREMENT id.
unfoldable pub new_row : ℕ → ℤ → Bytes → Bytes → Bytes → Option Bytes → Time → Row
new_row seq user_id name ciphertext nonce last_used now = record {
  id = pos (seq + 1);
  user_id = user_id;
  name = name;
  content_ciphertext = ciphertext;
  content_nonce = nonce;
  last_used_with_version = last_used;
  created_at = at now;
  modified_at = at now;
}

-- The effect of INSERT: a full counter is an error (SQLITE_FULL).
unfoldable pub insert_row : ℤ → Bytes → Bytes → Bytes → Option Bytes → Time → M ℤ
unfolding new_row
insert_row user_id name ciphertext nonce last_used now db =
    if leb max_int64 db.seq then (err internal, db) else (
      ok (pos (db.seq + 1)),
      record db {
        rows = db.rows ++ new_row db.seq user_id name ciphertext nonce last_used now ∷ [];
        seq = db.seq + 1;
      },
    )

-- INSERT leaves the state, or appends a row under an id within int64.
pub insert_row_cases :
    (u : ℤ) (name ciphertext nonce : Bytes) (last : Option Bytes) (t : Time) (P : Db → Type 0)
    (db : Db)
    → P db
    → (db.seq < max_int64
        → P (record db {
          rows = db.rows ++ new_row db.seq u name ciphertext nonce last t ∷ [];
          seq = db.seq + 1;
        }))
    → P (insert_row u name ciphertext nonce last t db).1
unfolding insert_row
insert_row_cases u name ciphertext nonce last t P db h k =
    elim (Bool-cases (leb max_int64 db.seq)) [
      | inl full ↦ rw full h
      | inr room ↦ rw room (k (ground arith))
    ]

unfoldable pub select_row : (Row → Bool) → M (Option Row)
select_row p db = (ok (find? p db.rows), db)

unfoldable pub select_rows : (Row → Bool) → M (List Row)
select_rows p db = (ok (filter p db.rows), db)

-- The effect of UPDATE, and RowsAffected.
unfoldable pub update_rows : (Row → Bool) → (Row → Row) → M ℕ
unfolding update_where
update_rows p f db = (ok (length (filter p db.rows)), record db { rows = update_where p f db.rows })

unfoldable pub delete_rows : (Row → Bool) → M ℕ
delete_rows p db =
    (ok (length (filter p db.rows)), record db { rows = filter (λ r. not (p r)) db.rows })

-- `defer tx.Rollback()`: an error inside the transaction undoes its writes.
unfoldable pub with_rollback : {A : Type 0} → M A → M A
with_rollback body db = let r = body db in elim r.0 [ ok a ↦ r | err e ↦ (err e, rollback db r.1) ]

unfoldable pub validate_create_input : CreateConfigInput → Bool
validate_create_input i = not (is_empty i.content_ciphertext || is_empty i.content_nonce)

unfoldable pub scan_all : List Row → Result (List Config)
unfolding scan_config
scan_all [] = ok []
scan_all (r ∷ rs) =
    let rest = scan_all rs in
    elim (scan_config r) [
      | ok c ↦ elim rest [ ok cs ↦ ok (c ∷ cs) | err e ↦ err e ]
      | err e ↦ err e
    ]

abbrev pub or_not_found : Option Row → Result Row
or_not_found none = err config_not_found
or_not_found (some r) = ok r

abbrev pub or_internal : Option Row → Result Row
or_internal none = err internal
or_internal (some r) = ok r

-- The assignments that CreateConfigWithID's UPDATE makes.
unfoldable pub finalise : CreateConfigInput → Time → Row → Row
unfolding null_if_empty
finalise i modified r = record r {
  name = i.name;
  content_ciphertext = i.content_ciphertext;
  content_nonce = i.content_nonce;
  last_used_with_version = null_if_empty i.last_used_with_version;
  modified_at = at modified;
}

abbrev pub has_cipher : UpdateConfigPatch → Bool
has_cipher p = not (is_empty p.content_ciphertext)

abbrev pub has_nonce : UpdateConfigPatch → Bool
has_nonce p = not (is_empty p.content_nonce)

-- The checks of UpdateConfig before it opens a transaction.
unfoldable pub patch_is_valid : UpdateConfigPatch → Bool
patch_is_valid p =
    not (xor (has_cipher p) (has_nonce p))
    && (if p.preserve_modified_at
        then is_some p.expected_modified_at && not (is_some p.name) && not (has_cipher p)
        else not (is_some p.expected_modified_at))

-- old.Equal(patch.ExpectedModifiedAt.UTC()); the checks before leave no nil pointer here.
unfoldable pub expects : Option Time → Time → Bool
expects none old = false
expects (some t) old = old == t

-- The assignments of UpdateConfig's SET clauses; `modified` is `none` where the timestamp stays.
unfoldable pub apply_patch : UpdateConfigPatch → Option Time → Row → Row
unfolding null_if_empty
apply_patch p modified r = record r {
  name = or_else p.name r.name;
  content_ciphertext = if has_cipher p then p.content_ciphertext else r.content_ciphertext;
  content_nonce = if has_cipher p then p.content_nonce else r.content_nonce;
  last_used_with_version = elim p.last_used_with_version [
    | none ↦ r.last_used_with_version
    | some s ↦ null_if_empty s
  ];
  modified_at = elim modified [ none ↦ r.modified_at | some t ↦ at t ];
}

-- len(setClauses) > 0
unfoldable pub has_clauses : UpdateConfigPatch → Bool
has_clauses p =
    not p.preserve_modified_at || is_some p.name || has_cipher p || is_some p.last_used_with_version
