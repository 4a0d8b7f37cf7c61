-- ===== src/Tests/KeyFile.antt =====
-- Examples of the theorems on the file of the master key, and on the database's.
use tabby_sync.Common.{
  Bytes, lit, bytes_eq, none, some, List, [], ◌∷◌, ◌≡◌, ◌≢◌, refl, All, ◌++◌, false, if◌then◌else◌,
}
use tabby_sync.Files.{
  succeeds, dies, World, read_file, stat, mkdir_all, chmod_path, chmod, create_temp, write, sync,
  close, rename, remove, goes_on, regular, update, is_missing,
}
use tabby_sync.Files.Paths.{dir, base, split, join}
use tabby_sync.Files.Fill.{fill}
use tabby_sync.Keys.File.{load_file, generate, place_key, write_key, key_temp_path}
use tabby_sync.Keys.Starts.{
  Start, Started, load_file-Started, keys_of_starts, keys_of_starts-AreAll,
}
use tabby_sync.Auth.Text.{equal_fold, to_lower, lower}
use tabby_sync.Sqlite.Open.{
  Engine, open_store, prepare, verify_pragmas, expected_pragmas, tighten_db_file_mode,
  tighten_sidecars, sidecar_suffixes,
}
use tabby_sync.Sqlite.Open.Modes.{IsVerified, IsPrivate, open_store-IsPrivate}
use tabby_sync.Tests.{sample_key}
use tabby_sync.Tests.Toys.{differ}

abbrev reported : Bytes → Bytes
reported name =
    if bytes_eq name (lit "journal_mode")
    then lit "WAL"
    else if bytes_eq name (lit "busy_timeout")
    then lit "5000"
    else lit "1"

abbrev key_file : Bytes
key_file = lit "/d/master.key"

is_key : base key_file ≡ lit "master.key"
unfolding base split lit
is_key = refl

dir_ne : dir key_file ≢ key_file
dir_ne = differ (dir key_file) key_file (unfold dir split bytes_eq lit in refl)

-- The process is killed while it writes the key.
abbrev crashing : World
crashing = record {
  disk = λ p. none;
  fates = succeeds ∷ succeeds ∷ succeeds ∷ succeeds ∷ succeeds ∷ dies 7 ∷ [];
}

load_file-Started_example :
    Started key_file
      (some sample_key)
      (lit "1")
      (crashing.disk key_file)
      (load_file key_file (some sample_key) (lit "1") crashing)
load_file-Started_example =
    load_file-Started key_file (some sample_key) (lit "1") is_key dir_ne crashing

abbrev starts : List Start
starts =
    record { random = some sample_key; suffix = lit "1"; fates = crashing.fates }
    ∷ record { random = some sample_key; suffix = lit "2"; fates = [] }
    ∷ record { random = none; suffix = lit "3"; fates = [] }
    ∷ []

keys_of_starts-AreAll_example :
    (k : Bytes) × All (λ k'. k' ≡ k) (keys_of_starts key_file (λ p. none) starts)
keys_of_starts-AreAll_example = keys_of_starts-AreAll key_file is_key dir_ne (λ p. none) starts

-- The interrupted start leaves no key; the second one generates it, the third one reads it.
two_keys : keys_of_starts key_file (λ p. none) starts ≡ sample_key ∷ sample_key ∷ []
unfolding keys_of_starts load_file generate read_file stat mkdir_all chmod_path chmod create_temp
    place_key write_key fill write sync close rename remove key_temp_path join dir base split
    bytes_eq lit
two_keys = refl

-- A database engine that reports what is expected, and whose file is there.
abbrev engine : Engine
engine = record {
  open_db = λ w. (goes_on tt, w);
  ping = λ w. (goes_on tt, w);
  pragma = λ name w. (goes_on (reported name), w);
  migrate = λ w. (goes_on tt, w);
  close_db = λ w. (goes_on tt, w);
}

abbrev database : Bytes
database = lit "/d/tabby-sync.db"

-- The database file can be read by all.
abbrev with_database : World
with_database = record { disk = update database (some (regular [] 420)) (λ p. none); fates = [] }

opens : (open_store engine database with_database).0 ≡ goes_on tt
unfolding open_store prepare verify_pragmas expected_pragmas tighten_db_file_mode tighten_sidecars
    sidecar_suffixes mkdir_all chmod_path stat dir split equal_fold to_lower lower bytes_eq lit
opens = refl

open_store-IsPrivate_example :
    let after = (open_store engine database with_database).1 in
    All (IsVerified engine) expected_pragmas
    × (is_missing (after.disk database) ≡ false)
    × IsPrivate (after.disk database)
    × All (λ s. IsPrivate (after.disk (database ++ s))) sidecar_suffixes
open_store-IsPrivate_example = open_store-IsPrivate engine database with_database opens
