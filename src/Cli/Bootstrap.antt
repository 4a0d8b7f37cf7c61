-- ===== src/Cli/Bootstrap.antt =====
-- runInit and runBootstrap of internal/cli/usercmd.go: the first files of a data directory.
pub mod Credentials
pub mod Entry
use tabby_sync.Common.{
  ℕ, ◌==◌, ℤ, pos, Bytes, lit, is_empty, Bool, true, false, not, Option, none, some, List, [], ◌∷◌,
  ◌++◌, length, ◌≡◌, ◌≢◌, refl, sym, ◌∙◌, ap, arith, inl, inr, ◌⊎◌, if◌then◌else◌, bytes_eq,
}
use tabby_sync.Files.{
  Node, OsError, not_exist, os_error, World, Ended, goes_on, returns, killed, Io, ◌>>=◌, ◌>>◌, pure,
  return_early, panic, ignore, on_error, tried, mkdir_all, stat, remove, write_file,
}
use tabby_sync.Files.Paths.{dir, join}
use tabby_sync.Auth.{User}
use tabby_sync.Auth.Text.{trim_space}
use tabby_sync.Cli.Atomic.{write_file_atomic}
use tabby_sync.Cli.Users.{
  Yaml, Inputs, Token, require, or_code, arg_at, resolve_users_file, generate_token, new_user,
  save_users_yaml,
}

-- os.Stat's answer to "is there a file": an error other than fs.ErrNotExist is `none`.
abbrev pub is_there : Ended OsError Node → Option Bool
is_there (goes_on n) = some true
is_there (returns not_exist) = some false
is_there (returns os_error) = none
is_there killed = none

-- generateToken, in code that makes system calls.
abbrev pub drawn_token : (Bytes → Bytes) → Option Bytes → Io ℕ Token
drawn_token sha256 none = panic
drawn_token sha256 (some random) = pure (generate_token sha256 random)

-- What bootstrap takes from outside: besides the token's bytes, the random parts of the names of
-- two temporary files.
pub record BootstrapInputs : Type 0 where
  pub random : Option Bytes
  pub token_suffix : Bytes
  pub users_suffix : Bytes

unfoldable pub token_path : (Bytes → Bytes) → Bytes
unfolding join lit
token_path getenv = join (getenv (lit "TABBY_SYNC_DATA_DIR")) (lit "token.txt")

abbrev pub first_user : Bytes → Token → List User
first_user name t = new_user (pos 1) name t ∷ []

module _ (sha256 : Bytes → Bytes) (yaml : Yaml) (getenv : Bytes → Bytes)
    (inputs : BootstrapInputs) where
  -- The files that bootstrap writes: the token first, then the users file; if the users file cannot
  -- be written, the token is removed again.
  unfoldable pub create_credentials : Bytes → Io ℕ (Unit {0})
  unfolding token_path save_users_yaml
  create_credentials name = do
    token ← drawn_token sha256 inputs.random
    or_code 1 (
        write_file_atomic inputs.token_suffix (token_path getenv) (token.plaintext ++ b'\n' ∷ [])
          384)
    on_error (ignore (remove (token_path getenv))) (
        or_code 1 (
          save_users_yaml yaml inputs.users_suffix (resolve_users_file getenv)
            (first_user name token)))

  -- The users file exists (0, "skipped"), cannot be inspected (1), or is to be created.
  abbrev pub unless_there : Bytes → Option Bool → Io ℕ (Unit {0})
  unless_there name none = return_early 1
  unless_there name (some true) = return_early 0
  unless_there name (some false) = create_credentials name

  unfoldable pub run_bootstrap : List Bytes → Io ℕ (Unit {0})
  unfolding create_credentials lit
  run_bootstrap args = do
    require (length args == 3) 2
    require (not (is_empty (trim_space (arg_at 2 args)))) 2
    require (not (is_empty (getenv (lit "TABBY_SYNC_DATA_DIR")))) 2
    require (not (is_empty (resolve_users_file getenv))) 2
    or_code 1 (mkdir_all (getenv (lit "TABBY_SYNC_DATA_DIR")))
    or_code 1 (mkdir_all (dir (resolve_users_file getenv)))
    answer ← or_code 1 (tried (stat (resolve_users_file getenv)))
    unless_there (trim_space (arg_at 2 args)) (is_there answer)
