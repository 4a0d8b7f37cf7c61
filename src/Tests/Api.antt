-- ===== src/Tests/Api.antt =====
-- Examples of the theorems on the handlers.
use tabby_sync.Common.{
  ◌≤◌, ℤ, pos, eqb_ℤ, lit, none, some, [], ◌∷◌, ◌≡◌, ◌≢◌, refl, arith, true, false, inr, print_ℕ,
  find?, filter,
}
use tabby_sync.Store.{
  EncryptedStore, ConfigWithPlaintext, UpdateConfigPlaintextPatch, ok, err, internal,
}
use tabby_sync.Sqlite.Driver.{Db, M, healthy}
use tabby_sync.Sqlite.{addressed, owned, create_config_with_id}
use tabby_sync.Sqlite.Operations.{delete, run_all}
use tabby_sync.Sqlite.Growth.{count_of, create_config_with_id_bound}
use tabby_sync.Encrypted.{encrypted_store}
use tabby_sync.Auth.{User}
use tabby_sync.Api.{
  Input, CreateConfigRequest, PatchConfigRequest, handle_get_config, handle_list_configs,
  handle_create_config, handle_delete_config,
}
use tabby_sync.Api.PathId.{parse_config_id-print_ℕ}
use tabby_sync.Api.Hiding.{unobservable, NoSuchConfig-404, not_found}
use tabby_sync.Api.Quota.{handle_create_config-quota}
use tabby_sync.Tests.{toy, clock, sample_key, sample_nonce, sample_db, sample_input}

abbrev no_update : ℤ → ℤ → UpdateConfigPlaintextPatch → M ConfigWithPlaintext
no_update u id patch db = (err internal, db)

abbrev sample_store : EncryptedStore Db
sample_store = encrypted_store toy (healthy clock) sample_key (some sample_nonce) no_update

abbrev alice : User
alice = record {
  id = pos 7;
  name = lit "alice";
  token_prefix = [];
  token_hash = [];
  disabled = false;
}

-- The other user deletes their configuration.
unobservable_example :
    ((handle_get_config sample_store
        (some alice)
        (lit "1")
        (run_all (healthy clock) ((pos 8, delete (pos 2)) ∷ []) sample_db)).0
      ≡ (handle_get_config sample_store (some alice) (lit "1") sample_db).0)
    × ((handle_list_configs sample_store
          (some alice)
          (run_all (healthy clock) ((pos 8, delete (pos 2)) ∷ []) sample_db)).0
        ≡ (handle_list_configs sample_store (some alice) sample_db).0)
unobservable_example =
    unobservable toy clock sample_key (some sample_nonce) no_update (healthy clock) alice (lit "1")
      ((pos 8, delete (pos 2)) ∷ []) sample_db (apart, tt)
  where
    apart : pos 8 ≢ pos 7
    apart e = ground arith

-- Row 2 is another user's.
NoSuchConfig-404_example :
    ((handle_get_config sample_store (some alice) (print_ℕ 2) sample_db).0 ≡ not_found)
    × ((handle_delete_config sample_store (some alice) (print_ℕ 2) sample_db).0 ≡ not_found)
NoSuchConfig-404_example =
    NoSuchConfig-404 toy clock sample_key (some sample_nonce) no_update alice (print_ℕ 2) sample_db
      (inr (
        pos 2,
        parse_config_id-print_ℕ 2 (omega arith) (omega arith),
        unfold find? addressed eqb_ℤ in refl,
      ))

abbrev new_config : Input CreateConfigRequest
new_config = record { present = true; decoded = some (record { name = lit "c" }); more = false }

-- Another request of the same user, by its effect on the table.
abbrev another : Db → Db
another db = (create_config_with_id (healthy clock) (pos 7) (some (λ id. ok sample_input)) db).1

handle_create_config-quota_example :
    count_of (pos 7) (handle_create_config sample_store another (some alice) new_config sample_db).1
    ≤ 51
handle_create_config-quota_example =
    handle_create_config-quota toy (healthy clock) sample_key (some sample_nonce) no_update another
      1 alice new_config sample_db
      (create_config_with_id_bound (healthy clock) (pos 7) (pos 7) (λ id. ok sample_input))
      (unfold owned eqb_ℤ filter in omega arith)

abbrev renaming : Input PatchConfigRequest
renaming = record {
  present = true;
  decoded = some (record { name = some (lit "d"); content = none; last_used_with_version = none });
  more = false;
}

-- A store whose update succeeds.
abbrev willing : EncryptedStore Db
willing = record sample_store {
  update_config_plaintext = λ u id patch db. (
    ok (record {
      id = id;
      user_id = u;
      name = [];
      content = [];
      last_used_with_version = [];
      created_at = 1;
      modified_at = 2;
    }),
    db,
  );
}
