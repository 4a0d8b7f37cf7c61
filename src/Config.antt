-- ===== src/Config.antt =====
-- internal/config/config.go: the configuration from the environment.
pub mod Loading
use tabby_sync.Common.{
  Bytes, lit, bytes_eq, is_empty, Bool, true, false, not, ◌||◌, List, [], ◌∷◌, if◌then◌else◌,
}

pub record Settings : Type 0 where
  pub addr : Bytes
  pub data_dir : Bytes
  pub users_file : Bytes
  pub master_key_provider : Bytes
  pub log_level : Bytes

-- Load's errors, by the variable that they name.
pub data Refusal : Type 0 where
  data_dir_missing users_file_missing provider_missing provider_unknown log_level_unknown : Refusal

pub data Loaded : Type 0 where
  settings : Settings → Loaded
  refused : Refusal → Loaded

unfoldable pub contains : List Bytes → Bytes → Bool
contains [] needle = false
contains (v ∷ vs) needle = bytes_eq v needle || contains vs needle

abbrev pub allowed_master_key_providers : List Bytes
allowed_master_key_providers = lit "env" ∷ lit "file" ∷ []

abbrev pub allowed_log_levels : List Bytes
allowed_log_levels = lit "error" ∷ lit "warn" ∷ lit "info" ∷ lit "debug" ∷ []

abbrev pub default_addr : Bytes
default_addr = lit ":8080"

abbrev pub default_log_level : Bytes
default_log_level = lit "info"

abbrev pub or_default : Bytes → Bytes → Bytes
or_default value default_value = if is_empty value then default_value else value

-- The lookups and the defaults.
unfoldable pub resolve : (Bytes → Bytes) → Settings
resolve getenv = record {
  addr = or_default (getenv (lit "TABBY_SYNC_ADDR")) default_addr;
  data_dir = getenv (lit "TABBY_SYNC_DATA_DIR");
  users_file = getenv (lit "TABBY_SYNC_USERS_FILE");
  master_key_provider = getenv (lit "TABBY_SYNC_MASTER_KEY_PROVIDER");
  log_level = or_default (getenv (lit "APP_LOG_LEVEL")) default_log_level;
}

-- The checks, in the order of the source.
unfoldable pub validate : Settings → Loaded
validate cfg =
    if is_empty cfg.data_dir
    then refused data_dir_missing
    else if is_empty cfg.users_file
    then refused users_file_missing
    else if is_empty cfg.master_key_provider
    then refused provider_missing
    else if not (contains allowed_master_key_providers cfg.master_key_provider)
    then refused provider_unknown
    else if not (contains allowed_log_levels cfg.log_level)
    then refused log_level_unknown
    else settings cfg

-- Load, with a getenv that is not nil.
unfoldable pub load : (Bytes → Bytes) → Loaded
unfolding resolve validate
load getenv = validate (resolve getenv)

-- redact
unfoldable pub redact : Bytes → Bytes
redact v = if is_empty v then lit "<unset>" else lit "<set>"
