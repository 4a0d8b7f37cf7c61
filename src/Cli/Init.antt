-- ===== src/Cli/Init.antt =====
-- runInit of internal/cli/usercmd.go: the data directory, the first master key, and an empty users
-- file.
pub mod Keeps
use tabby_sync.Common.{
  Bytes, lit, bytes_eq, is_empty, Bool, true, false, not, Option, none, some, List, [],
  if◌then◌else◌, or_else, ℕ, ◌||◌,
}
use tabby_sync.Files.{
  Node, OsError, not_exist, os_error, Ended, goes_on, returns, killed, Io, ◌>>=◌, ◌>>◌, pure,
  return_early, tried, mkdir_all, stat, write_file,
}
use tabby_sync.Files.Paths.{join}
use tabby_sync.Cli.Users.{Yaml, require, or_code, resolve_users_file}

abbrev pub file_provider : Bytes → Bool
file_provider provider = is_empty provider || bytes_eq provider (lit "file")

-- os.IsNotExist of os.Stat's error; any other answer counts as a file that is there.
abbrev pub is_absent : Ended OsError Node → Bool
is_absent (goes_on n) = false
is_absent (returns not_exist) = true
is_absent (returns os_error) = false
is_absent killed = false

abbrev pub when : Bool → Io ℕ (Unit {0}) → Io ℕ (Unit {0})
when true m = m
when false m = pure tt

-- The key's bytes, written in place; `none` is an error of crypto/rand.
abbrev pub write_new_key : Bytes → Option Bytes → Io ℕ (Unit {0})
write_new_key path none = return_early 1
write_new_key path (some key) = or_code 1 (write_file path key 384)

unfoldable pub master_key_path : (Bytes → Bytes) → Bytes
unfolding join lit
master_key_path getenv = join (getenv (lit "TABBY_SYNC_DATA_DIR")) (lit "master.key")

module _ (yaml : Yaml) (open_database : Io OsError (Unit {0})) (getenv : Bytes → Bytes)
    (random : Option Bytes) where
  unfoldable pub init_key : Io ℕ (Unit {0})
  unfolding master_key_path
  init_key = do
    answer ← or_code 1 (tried (stat (master_key_path getenv)))
    when (is_absent answer) (write_new_key (master_key_path getenv) random)

  unfoldable pub init_users : Io ℕ (Unit {0})
  unfolding resolve_users_file
  init_users = do
    answer ← or_code 1 (tried (stat (resolve_users_file getenv)))
    when (is_absent answer)
        (or_code 1 (write_file (resolve_users_file getenv) (or_else (yaml.marshal []) []) 384))

  unfoldable pub run_init : Io ℕ (Unit {0})
  unfolding init_key init_users lit
  run_init = do
    require (not (is_empty (getenv (lit "TABBY_SYNC_DATA_DIR")))) 2
    or_code 1 (mkdir_all (getenv (lit "TABBY_SYNC_DATA_DIR")))
    when (file_provider (getenv (lit "TABBY_SYNC_MASTER_KEY_PROVIDER"))) init_key
    init_users
    or_code 1 open_database
