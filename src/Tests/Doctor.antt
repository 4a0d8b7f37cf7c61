-- ===== src/Tests/Doctor.antt =====
-- Examples of the theorems on loading the users file, and on doctor.
use tabby_sync.Common.{
  Bytes, lit, bytes_eq, none, some, List, [], ◌∷◌, ◌≡◌, refl, false, all, eqb_ℤ, find?,
  if◌then◌else◌, or_else, ◌↔◌,
}
use tabby_sync.Files.{
  World, goes_on, regular, directory, update, stat, read_file, write_file, open_truncated, write,
  close, remove,
}
use tabby_sync.Files.Paths.{join}
use tabby_sync.Auth.{
  User, validate_and_normalise, validate_from, check_entry, normalise, has_id, has_name, with_hash,
  lookup, new_user_snapshot, snapshot_from,
}
use tabby_sync.Auth.Text.{trim_space, to_lower, is_hash}
use tabby_sync.Auth.Tokens.{Has}
use tabby_sync.Auth.Loading.{
  load_users_file, reload_all, IsServable, reload_all-lookup, load_users_file-IsServable,
}
use tabby_sync.Cli.Doctor.{
  run_doctor, probe, check_data_dir, doctor_users_file, check_users_file, check_key_file,
  check_key_variable, check_master_key, check_database,
}
use tabby_sync.Cli.Doctor.Passes.{HasKey, run_doctor-Passes}
use tabby_sync.Tests.{sample_key}
use tabby_sync.Tests.Auth.{alice}
use tabby_sync.Tests.Toys.{toy_yaml, get_users}

abbrev env : Bytes → Bytes
env name =
    if bytes_eq name (lit "TABBY_SYNC_DATA_DIR")
    then lit "/d"
    else if bytes_eq name (lit "TABBY_SYNC_MASTER_KEY_PROVIDER")
    then lit "file"
    else []

abbrev raw : Bytes
raw = or_else (toy_yaml.marshal (alice ∷ [])) []

abbrev healthy : World
healthy = record {
  disk = update (lit "/d") (some directory) (
      update (lit "/d/users.yml") (some (regular raw 384))
        (update (lit "/d/master.key") (some (regular sample_key 384)) (λ p. none)));
  fates = [];
}

abbrev missing : World
missing = record { disk = λ p. none; fates = [] }

loads : (load_users_file toy_yaml.unmarshal (lit "/d/users.yml") healthy).0 ≡ goes_on (alice ∷ [])
unfolding load_users_file read_file stat get_users validate_and_normalise validate_from check_entry
    normalise is_hash trim_space to_lower lit has_id has_name all eqb_ℤ bytes_eq new_user_snapshot
    snapshot_from with_hash find?
loads = refl

servable : IsServable (alice ∷ [])
servable =
    (load_users_file-IsServable toy_yaml.unmarshal (lit "/d/users.yml") healthy (alice ∷ [])
      loads).6

-- The second reload finds no file.
reload_all-lookup_example :
    let now =
      reload_all toy_yaml.unmarshal (lit "/d/users.yml") (alice ∷ []) (healthy ∷ missing ∷ []) in
    IsServable now
    × ((lookup (λ token. alice.token_hash) now (lit "secret") ≡ some alice)
        ↔ (Has alice now × (alice.token_hash ≡ alice.token_hash) × (false ≡ false)))
reload_all-lookup_example =
    reload_all-lookup toy_yaml.unmarshal (λ token. alice.token_hash) (lit "/d/users.yml")
      (alice ∷ []) (healthy ∷ missing ∷ []) (lit "secret") alice servable

passes :
    (run_doctor toy_yaml.unmarshal (λ w. (goes_on tt, w)) (λ w. (goes_on tt, w)) env healthy).0
    ≡ goes_on tt
unfolding run_doctor check_data_dir probe doctor_users_file check_users_file check_key_file
    check_key_variable check_master_key check_database join write_file open_truncated write close
    remove load_users_file read_file stat get_users validate_and_normalise validate_from check_entry
    normalise is_hash trim_space to_lower lit has_id has_name all eqb_ℤ bytes_eq new_user_snapshot
    snapshot_from with_hash find?
passes = refl

run_doctor-Passes_example :
    let data_dir = env (lit "TABBY_SYNC_DATA_DIR") in
    let users_file = doctor_users_file (env (lit "TABBY_SYNC_USERS_FILE")) data_dir in
    let at_users = (check_data_dir data_dir healthy).1 in
    let at_key = (check_users_file toy_yaml.unmarshal users_file at_users).1 in
    (healthy.disk data_dir ≡ some directory)
    × ((us : List User) × ((load_users_file toy_yaml.unmarshal users_file at_users).0 ≡ goes_on us)
        × IsServable us)
    × HasKey
        (env (lit "TABBY_SYNC_MASTER_KEY_PROVIDER"))
        data_dir
        (env (lit "TABBY_SYNC_MASTER_KEY"))
        at_key
run_doctor-Passes_example =
    run_doctor-Passes toy_yaml.unmarshal (λ w. (goes_on tt, w)) (λ w. (goes_on tt, w)) env healthy
      passes
