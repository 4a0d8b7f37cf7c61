-- ===== src/Migrations.antt =====
-- internal/store/sqlite/migrations.go: reading the files of the migrations, and the runner over
-- statements that may fail.
pub mod Pending
pub mod Runner
use tabby_sync.Common.{
  ℕ, ◌+◌, Bytes, is_empty, Bool, true, false, not, Option, none, some, List, [], ◌∷◌, ◌++◌, ltb,
  ◌==◌, if◌then◌else◌, ◌||◌, ◌-◌, ◌*◌, leb, lit, all, bytes_eq, ◌&&◌,
}
use tabby_sync.Store.{Result, ok, err, Error, internal}
use mathlib.Core.Option.{map, bind}
use tabby_sync.Auth.Text.{trim_space}

pub record Migration : Type 0 where
  pub version : ℕ
  pub name : Bytes
  pub sql : Bytes

-- The versions recorded in schema_migrations, the statements executed, and the driver calls made.
pub record Schema : Type 0 where
  pub applied : List ℕ
  pub executed : List Bytes
  pub calls : ℕ

-- sort.Slice by version.
unfoldable pub insert_by_version : Migration → List Migration → List Migration
insert_by_version m [] = m ∷ []
insert_by_version m (k ∷ ms) =
    let rest = insert_by_version m ms in if ltb k.version m.version then k ∷ rest else m ∷ k ∷ ms

unfoldable pub sort_by_version : List Migration → List Migration
unfolding insert_by_version
sort_by_version [] = []
sort_by_version (m ∷ ms) = insert_by_version m (sort_by_version ms)

-- The check that the versions are `expected`, `expected` + 1, and so on.
unfoldable pub are_contiguous : ℕ → List Migration → Bool
are_contiguous expected [] = true
are_contiguous expected (m ∷ ms) =
    let rest = are_contiguous (expected + 1) ms in if m.version == expected then rest else false

-- A character of the class [0-9] of migrationFilenamePattern, and one of its class [a-z0-9._-].
unfoldable pub is_version_char : ℕ → Bool
is_version_char c = leb b'0' c && leb c b'9'

unfoldable pub is_name_char : ℕ → Bool
unfolding is_version_char
is_name_char c =
    leb b'a' c && leb c b'z' || is_version_char c || c == b'.' || c == b'_' || c == b'-'

-- What stands before ".sql", if the text ends with it.
unfoldable pub stem : Bytes → Option Bytes
unfolding lit
stem [] = none
stem (c ∷ s) =
    let rest = stem s in if bytes_eq (c ∷ s) (lit ".sql") then some [] else map (λ t. c ∷ t) rest

-- The name, of at least one character of its class.
unfoldable pub checked_name : Option Bytes → Option Bytes
unfolding is_name_char
checked_name none = none
checked_name (some []) = none
checked_name (some (c ∷ s)) = if all is_name_char (c ∷ s) then some (c ∷ s) else none

-- migrationFilenamePattern, and strconv.Atoi of its three digits: the version and the name.
unfoldable pub parse_filename : Bytes → Option (ℕ × Bytes)
unfolding is_version_char stem checked_name
parse_filename (x ∷ y ∷ z ∷ u ∷ s) =
    let version = 100 * (x - b'0') + 10 * (y - b'0') + (z - b'0') in
    let name = map (λ t. (version, t)) (checked_name (stem s)) in
    if all is_version_char (x ∷ y ∷ z ∷ []) && u == b'_' then name else none
parse_filename s = none

-- An entry of the directory; what fs.ReadFile gives for it, `none` if that fails.
pub record DirEntry : Type 0 where
  pub is_dir : Bool
  pub name : Bytes
  pub body : Option Bytes

-- The loop of loadMigrations over the entries.
unfoldable pub read_entry : DirEntry → Option Migration
unfolding parse_filename bind
read_entry e =
    bind (parse_filename e.name)
      (λ (version, name). map (λ sql. record { version = version; name = name; sql = sql }) e.body)

unfoldable pub read_entries : List DirEntry → Option (List Migration)
unfolding read_entry bind
read_entries [] = some []
read_entries (e ∷ es) =
    let rest = read_entries es in
    let read = bind (read_entry e) (λ m. map (λ ms. m ∷ ms) rest) in if e.is_dir then rest else read

unfoldable pub in_order : List Migration → Result (List Migration)
unfolding sort_by_version are_contiguous
in_order read =
    let migs = sort_by_version read in if are_contiguous 1 migs then ok migs else err internal

-- loadMigrations, from what fs.ReadDir gives, `none` if that fails.
unfoldable pub load_migrations : Option (List DirEntry) → Result (List Migration)
unfolding read_entries in_order bind
load_migrations entries = elim (bind entries read_entries) [
  | none ↦ err internal
  | some read ↦ in_order read
]

-- The parts between the semicolons.
unfoldable pub split_from : Bytes → Bytes → List Bytes
split_from part [] = part ∷ []
split_from part (c ∷ s) =
    let same = split_from (part ++ c ∷ []) s in
    let next = split_from [] s in if c == b';' then part ∷ next else same

unfoldable pub keep_statements : List Bytes → List Bytes
keep_statements [] = []
keep_statements (p ∷ ps) =
    let rest = keep_statements ps in if is_empty (trim_space p) then rest else trim_space p ∷ rest

unfoldable pub split_sql_statements : Bytes → List Bytes
unfolding split_from keep_statements
split_sql_statements raw = keep_statements (split_from [] raw)

unfoldable pub is_applied : ℕ → List ℕ → Bool
is_applied v [] = false
is_applied v (w ∷ ws) = w == v || is_applied v ws

module _ (faulty : ℕ → Bool) where
  -- One driver call.
  abbrev pub attempt : {A : Type 0} → (Schema → Result A × Schema) → Schema → Result A × Schema
  attempt next s =
      let after = record s { calls = s.calls + 1 } in
      let answered = next after in if faulty s.calls then (err internal, after) else answered

  -- The statements of a migration, its record, and the commit.
  unfoldable pub run_statements : ℕ → List Bytes → Schema → Result (Unit {0}) × Schema
  run_statements version [] s =
      attempt (λ s. attempt (λ s. (ok tt, s)) (record s { applied = s.applied ++ version ∷ [] })) s
  run_statements version (stmt ∷ stmts) s =
      attempt (λ s. run_statements version stmts (record s { executed = s.executed ++ stmt ∷ [] }))
        s

  -- A failed transaction is rolled back.
  unfoldable pub rolled_back : Schema → Result (Unit {0}) × Schema → Result (Unit {0}) × Schema
  rolled_back start (ok a, s) = (ok a, s)
  rolled_back start (err e, s) = (err e, record start { calls = s.calls })

  unfoldable pub apply_migration : Migration → Schema → Result (Unit {0}) × Schema
  unfolding run_statements rolled_back
  apply_migration m s =
      attempt (λ s. rolled_back s (run_statements m.version (split_sql_statements m.sql) s)) s

  -- The loop, with the versions that were recorded when it began.
  unfoldable pub apply_pending : List ℕ → List Migration → Schema → Result (Unit {0}) × Schema
  apply_pending applied [] s = (ok tt, s)
  apply_pending applied (m ∷ ms) s =
      let skipped = apply_pending applied ms s in
      let done = apply_migration m s in
      let rest = apply_pending applied ms done.1 in
      if is_applied m.version applied
      then skipped
      else elim done.0 [ ok a ↦ rest | err e ↦ (err e, done.1) ]

  -- applyMigrations: the bookkeeping table, the recorded versions, the loop.
  unfoldable pub apply_migrations : Option (List DirEntry) → Schema → Result (Unit {0}) × Schema
  unfolding load_migrations
  apply_migrations files s = elim (load_migrations files) [
    | err e ↦ (err e, s)
    | ok migs ↦ attempt (λ s. attempt (λ s. apply_pending s.applied migs s) s) s
  ]
