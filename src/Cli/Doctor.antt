-- ===== src/Cli/Doctor.antt =====
-- runDoctor of internal/cli/usercmd.go: the checks of the environment. Each check goes on with the
-- number of issues that it has found.
pub mod Passes
use tabby_sync.Common.{
  ℕ, ◌+◌, ◌*◌, ◌==◌, Bytes, lit, bytes_eq, is_empty, Bool, true, false, not, ◌&&◌, Option, none,
  some, List, length, if◌then◌else◌,
}
use tabby_sync.Files.{
  Node, regular, directory, OsError, Ended, goes_on, returns, killed, Io, ◌>>=◌, ◌>>◌, pure,
  return_early, ignore, tried, or_return, stat, write_file, remove,
}
use tabby_sync.Files.Paths.{join}
use tabby_sync.Auth.{User}
use tabby_sync.Auth.Loading.{load_users_file}
use tabby_sync.Keys.{master_key_size}

abbrev pub issue_if : Bool → Io ℕ ℕ
issue_if true = pure 1
issue_if false = pure 0

-- An error of a call is one issue; what else there is to look at, the rest says.
abbrev pub looked_at : {E A : Type 0} → (A → Io ℕ ℕ) → Ended E A → Io ℕ ℕ
looked_at f (goes_on a) = f a
looked_at f (returns e) = pure 1
looked_at f killed = pure 1

abbrev pub check : {E A : Type 0} → Io E A → (A → Io ℕ ℕ) → Io ℕ ℕ
check m f = or_return (λ e. 1) (tried m) >>= looked_at f

-- The directory is probed with a file.
unfoldable pub probe : Bytes → Io ℕ ℕ
unfolding join lit
probe data_dir =
    let file = join data_dir (lit ".doctor-probe") in
    check (write_file file (lit "ok") 384) (λ u. ignore (remove file) >> pure 0)

abbrev pub probe_directory : Bytes → Node → Io ℕ ℕ
probe_directory data_dir (regular bytes mode) = pure 1
probe_directory data_dir directory = probe data_dir

unfoldable pub check_data_dir : Bytes → Io ℕ ℕ
unfolding probe
check_data_dir data_dir =
    if is_empty data_dir then pure 1 else check (stat data_dir) (probe_directory data_dir)

unfoldable pub doctor_users_file : Bytes → Bytes → Bytes
unfolding join lit
doctor_users_file users_file data_dir =
    if is_empty users_file && not (is_empty data_dir)
    then join data_dir (lit "users.yml")
    else users_file

unfoldable pub check_users_file : (Bytes → Option (List User)) → Bytes → Io ℕ ℕ
unfolding load_users_file
check_users_file decode path =
    if is_empty path then pure 1 else check (load_users_file decode path) (λ us. pure 0)

-- The size of the file is that of a key; a directory's size is none.
abbrev pub check_size : Node → Io ℕ ℕ
check_size (regular bytes mode) = issue_if (not (length bytes == master_key_size))
check_size directory = pure 1

unfoldable pub check_key_file : Bytes → Io ℕ ℕ
unfolding join lit
check_key_file data_dir =
    if is_empty data_dir then pure 1 else check (stat (join data_dir (lit "master.key"))) check_size

unfoldable pub check_key_variable : Bytes → Io ℕ ℕ
check_key_variable key =
    if is_empty key then pure 1 else issue_if (not (length key == master_key_size * 2))

unfoldable pub check_master_key : Bytes → Bytes → Bytes → Io ℕ ℕ
unfolding check_key_file check_key_variable lit
check_master_key provider data_dir key =
    if is_empty provider
    then pure 1
    else if bytes_eq provider (lit "file")
    then check_key_file data_dir
    else if bytes_eq provider (lit "env")
    then check_key_variable key
    else pure 1

module _ (decode : Bytes → Option (List User))
    (open_database close_database : Io OsError (Unit {0})) (getenv : Bytes → Bytes) where
  unfoldable pub check_database : Bytes → Io ℕ ℕ
  check_database data_dir =
      if is_empty data_dir
      then pure 0
      else check open_database (λ u. ignore close_database >> pure 0)

  abbrev pub verdict : ℕ → Io ℕ (Unit {0})
  verdict issues = if issues == 0 then pure tt else return_early 1

  unfoldable pub run_doctor : Io ℕ (Unit {0})
  unfolding check_data_dir doctor_users_file check_users_file check_master_key check_database lit
  run_doctor = do
    dir_issues ← check_data_dir (getenv (lit "TABBY_SYNC_DATA_DIR"))
    user_issues ← check_users_file decode (
        doctor_users_file (getenv (lit "TABBY_SYNC_USERS_FILE"))
          (getenv (lit "TABBY_SYNC_DATA_DIR")))
    key_issues ←
        check_master_key (getenv (lit "TABBY_SYNC_MASTER_KEY_PROVIDER"))
          (getenv (lit "TABBY_SYNC_DATA_DIR")) (getenv (lit "TABBY_SYNC_MASTER_KEY"))
    database_issues ← check_database (getenv (lit "TABBY_SYNC_DATA_DIR"))
    verdict (dir_issues + user_issues + key_issues + database_issues)
