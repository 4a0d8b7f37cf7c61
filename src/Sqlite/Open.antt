-- ===== src/Sqlite/Open.antt =====
-- Open of internal/store/sqlite/sqlite.go: the pragmas that it checks, the migrations, and the modes of
-- the database's files. The driver is a record of calls.
pub mod Modes
use tabby_sync.Common.{Bytes, lit, is_empty, Bool, true, false, List, [], ◌∷◌, ◌++◌, if◌then◌else◌}
use tabby_sync.Files.{
  Node, OsError, not_exist, os_error, Ended, goes_on, returns, killed, Io, ◌>>=◌, ◌>>◌, pure,
  return_early, ignore, on_error, tried, mkdir_all, stat, chmod_path,
}
use tabby_sync.Files.Paths.{dir}
use tabby_sync.Auth.Text.{equal_fold}

-- database/sql on one database file: sql.Open, Ping, PRAGMA <name>, and Close; and the run of the
-- migrations on it.
pub record Engine : Type 0 where
  pub open_db : Io OsError (Unit {0})
  pub ping : Io OsError (Unit {0})
  pub pragma : Bytes → Io OsError Bytes
  pub migrate : Io OsError (Unit {0})
  pub close_db : Io OsError (Unit {0})

-- A pragma's name and the value that PRAGMA must report.
abbrev pub Pragma : Type 0
Pragma = Bytes × Bytes

unfoldable pub expected_pragmas : List Pragma
unfolding lit
expected_pragmas =
    (lit "journal_mode", lit "wal")
    ∷ (lit "foreign_keys", lit "1")
    ∷ (lit "busy_timeout", lit "5000")
    ∷ (lit "synchronous", lit "1")
    ∷ []

unfoldable pub sidecar_suffixes : List Bytes
unfolding lit
sidecar_suffixes = lit "-wal" ∷ lit "-shm" ∷ []

abbrev pub check_value : Bytes → Bytes → Io OsError (Unit {0})
check_value got want = if equal_fold got want then pure tt else return_early os_error

-- verifyPragmas
unfoldable pub verify_pragmas : Engine → List Pragma → Io OsError (Unit {0})
verify_pragmas e [] = pure tt
verify_pragmas e ((name, want) ∷ ps) = do
  got ← e.pragma name
  check_value got want
  verify_pragmas e ps

-- A sidecar that is missing is passed over.
abbrev pub tighten_found : Bytes → Ended OsError Node → Io OsError (Unit {0})
tighten_found p (goes_on n) = chmod_path p 384
tighten_found p (returns not_exist) = pure tt
tighten_found p (returns os_error) = return_early os_error
tighten_found p killed = return_early os_error

unfoldable pub tighten_sidecars : Bytes → List Bytes → Io OsError (Unit {0})
tighten_sidecars path [] = pure tt
tighten_sidecars path (suffix ∷ suffixes) = do
  answer ← tried (stat (path ++ suffix))
  tighten_found (path ++ suffix) answer
  tighten_sidecars path suffixes

-- tightenDBFileMode
unfoldable pub tighten_db_file_mode : Bytes → Io OsError (Unit {0})
unfolding tighten_sidecars sidecar_suffixes
tighten_db_file_mode path = do chmod_path path 384; tighten_sidecars path sidecar_suffixes

-- What Open does once the handle is there; an error closes it.
unfoldable pub prepare : Engine → Bytes → Io OsError (Unit {0})
unfolding verify_pragmas expected_pragmas tighten_db_file_mode
prepare e path = do e.ping; verify_pragmas e expected_pragmas; e.migrate; tighten_db_file_mode path

unfoldable pub open_store : Engine → Bytes → Io OsError (Unit {0})
unfolding prepare
open_store e path =
    if is_empty path
    then return_early os_error
    else (mkdir_all (dir path) >> (e.open_db >> on_error (ignore e.close_db) (prepare e path)))
