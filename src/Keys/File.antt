-- ===== src/Keys/File.antt =====
-- internal/keys/file_provider.go: the master key in a file, and its generation on the first start;
-- and LoadFromConfig of internal/keys/keys.go, which chooses the provider.
use tabby_sync.Common.{◌==◌, Bytes, lit, bytes_eq, Option, none, some, length, if◌then◌else◌, ◌++◌}
use tabby_sync.Files.{
  OsError, not_exist, os_error, Ended, goes_on, returns, killed, Io, ◌>>=◌, ◌>>◌, pure,
  return_early, ignore, on_error, or_return, tried, read_file, mkdir_all, chmod_path, create_temp,
  close, rename, remove,
}
use tabby_sync.Files.Paths.{dir, join}
use tabby_sync.Keys.{Key, loaded, missing, not_hex, invalid_length, master_key_size, load_env}
use tabby_sync.Files.Fill.{fill}

-- ErrInvalidLength, ErrMissing, and the other errors.
pub data KeyError : Type 0 where
  wrong_length not_configured failed unsupported : KeyError

-- os.CreateTemp's name for ".master.key.*".
unfoldable pub key_temp_path : Bytes → Bytes → Bytes
unfolding dir join lit
key_temp_path path suffix = join (dir path) (lit ".master.key." ++ suffix)

-- A deferred call, whose error is dropped.
abbrev pub deferred : {A : Type 0} → Io KeyError (Unit {0}) → Ended KeyError A → Io KeyError A
deferred c killed w = (killed, w)
deferred c (goes_on a) w = (c >> pure a) w
deferred c (returns e) w = (c >> return_early e) w

abbrev pub finally : {A : Type 0} → Io KeyError (Unit {0}) → Io KeyError A → Io KeyError A
finally c m w = deferred c (m w).0 (m w).1

-- `if err := m; err != nil { return nil, err }`
abbrev pub or_fail : {A : Type 0} → Io OsError A → Io KeyError A
or_fail m = or_return (λ e. failed) m

-- crypto/rand's bytes; `none` is its error.
abbrev pub random_key : Option Bytes → Io KeyError Bytes
random_key none = return_early failed
random_key (some key) = pure key

-- The temporary file has the key; it is closed early if a call fails.
unfoldable pub write_key : Bytes → Bytes → Io KeyError (Unit {0})
unfolding close fill
write_key temp key = do
  on_error (ignore (close temp)) (or_fail (fill temp key 384))
  or_fail (close temp)

unfoldable pub place_key : Bytes → Bytes → Bytes → Io KeyError (Unit {0})
unfolding write_key
place_key temp path key = do
  write_key temp key
  or_fail (rename temp path)
  or_fail (chmod_path path 384)

unfoldable pub generate : Bytes → Option Bytes → Bytes → Io KeyError Bytes
unfolding key_temp_path place_key
generate path random suffix = do
  or_fail (mkdir_all (dir path))
  ignore (chmod_path (dir path) 448)
  key ← random_key random
  or_fail (create_temp (key_temp_path path suffix))
  finally (ignore (remove (key_temp_path path suffix)))
      (place_key (key_temp_path path suffix) path key)
  pure key

-- A key that was read, or the error of reading it.
abbrev pub from_file : Io KeyError Bytes → Ended OsError Bytes → Io KeyError Bytes
from_file absent (goes_on raw) =
    if length raw == master_key_size then pure raw else return_early wrong_length
from_file absent (returns not_exist) = absent
from_file absent (returns os_error) = return_early failed
from_file absent killed = return_early failed

-- FileProvider.Load
unfoldable pub load_file : Bytes → Option Bytes → Bytes → Io KeyError Bytes
unfolding generate
load_file path random suffix = do
  raw ← or_fail (tried (read_file path))
  from_file (generate path random suffix) raw

abbrev pub from_env : Key → Io KeyError Bytes
from_env (loaded key) = pure key
from_env missing = return_early not_configured
from_env not_hex = return_early failed
from_env invalid_length = return_early wrong_length

-- LoadFromConfig, of the configuration's provider and data directory and of the variable's value.
unfoldable pub load_from_config : Bytes → Bytes → Bytes → Option Bytes → Bytes → Io KeyError Bytes
unfolding load_file load_env join lit
load_from_config provider data_dir env random suffix =
    if bytes_eq provider (lit "file")
    then load_file (join data_dir (lit "master.key")) random suffix
    else if bytes_eq provider (lit "env")
    then from_env (load_env env)
    else return_early unsupported
