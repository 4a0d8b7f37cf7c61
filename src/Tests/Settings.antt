-- ===== src/Tests/Settings.antt =====
-- Examples of the theorems on the configuration and the master key.
use tabby_sync.Common.{Bytes, lit, bytes_eq, ◌≡◌, ◌↔◌, if◌then◌else◌}
use tabby_sync.Config.{settings, load, resolve}
use tabby_sync.Config.Loading.{IsUsable, load_iff}

abbrev sample_env : Bytes → Bytes
sample_env name =
    if bytes_eq name (lit "TABBY_SYNC_MASTER_KEY_PROVIDER") then lit "env" else lit "info"

load_iff_example :
    (load sample_env ≡ settings (resolve sample_env))
    ↔ ((resolve sample_env ≡ resolve sample_env) × IsUsable (resolve sample_env))
load_iff_example = load_iff sample_env (resolve sample_env)
