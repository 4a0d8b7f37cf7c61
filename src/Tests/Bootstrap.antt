-- ===== src/Tests/Bootstrap.antt =====
-- Examples of the theorems on bootstrap, init, serve and the scrubbed texts.
use tabby_sync.Common.{
  pos, Bytes, lit, bytes_eq, true, false, some, List, [], ◌∷◌, ◌++◌, ◌≡◌, refl, inl, inr, ◌↔◌, ◌+◌,
}
use tabby_sync.Files.{World, regular, goes_on, killed}
use tabby_sync.Files.Paths.{dir, join, base, split}
use tabby_sync.Auth.{valid, validate_and_normalise, bearer}
use tabby_sync.Auth.Text.{trim_space}
use tabby_sync.Cli.Atomic.{temp_path}
use tabby_sync.Cli.Users.{resolve_users_file, new_user, generate_token}
use tabby_sync.Cli.Users.Accepted.{hex_sum}
use tabby_sync.Cli.Bootstrap.{BootstrapInputs, token_path, first_user, run_bootstrap}
use tabby_sync.Cli.Bootstrap.Credentials.{Created, run_bootstrap-Created}
use tabby_sync.Cli.Bootstrap.Entry.{first_user-Enters}
use tabby_sync.Cli.Scrub.{has_substring, scrub_paths, has_prefix}
use tabby_sync.Cli.Scrub.Secrets.{IsSecret, scrub_paths-hides}
use tabby_sync.Cli.Init.{run_init}
use tabby_sync.Cli.Init.Keeps.{run_init-Keeps}
use tabby_sync.Cli.Serve.{Steps, serve_ends, server_closed, run_serve, succeeds}
use tabby_sync.Cli.Serve.Resources.{
  opened, closed, binds, starts_up, ends_well, run_serve-Releases, leaks, count_if, ends_closed,
}
use tabby_sync.Tests.{sample_key}
use tabby_sync.Tests.Toys.{toy_yaml, toy_yaml-RoundTrips, toy_sha256, toy_sha256-IsSha256, differ}
use tabby_sync.Tests.Cli.{env, file_raw, users_file, empty_disk, failing, key_bytes}

abbrev bootstrap_inputs : BootstrapInputs
bootstrap_inputs = record {
  random = some sample_key;
  token_suffix = lit "1";
  users_suffix = lit "2";
}

abbrev bootstrap_alice : List Bytes
bootstrap_alice = lit "tabby-sync" ∷ lit "bootstrap" ∷ lit "alice" ∷ []

abbrev fresh_world : World
fresh_world = record { disk = empty_disk; fates = [] }

run_bootstrap-Created_example :
    Created toy_sha256 toy_yaml env bootstrap_inputs
      (trim_space (lit "alice"))
      (fresh_world.disk (resolve_users_file env))
      (run_bootstrap toy_sha256 toy_yaml env bootstrap_inputs bootstrap_alice fresh_world)
unfolding bytes_eq lit
run_bootstrap-Created_example =
    run_bootstrap-Created toy_sha256 toy_yaml env bootstrap_inputs bootstrap_alice fresh_world
      toy_yaml-RoundTrips
      (differ (resolve_users_file env) (token_path env)
        (unfold resolve_users_file token_path join bytes_eq lit in refl))
      (differ (temp_path (token_path env) (lit "1")) (resolve_users_file env)
        (unfold resolve_users_file token_path temp_path join dir base split bytes_eq lit in refl))
      (differ (temp_path (resolve_users_file env) (lit "2")) (token_path env)
        (unfold resolve_users_file token_path temp_path join dir base split bytes_eq lit in refl))
      (differ (lit "/d") (resolve_users_file env)
        (unfold resolve_users_file join bytes_eq lit in refl))
      (differ (dir (resolve_users_file env)) (resolve_users_file env)
        (unfold resolve_users_file dir split join bytes_eq lit in refl))

first_user-Enters_example :
    let token = generate_token toy_sha256 sample_key in
    let user = new_user (pos 1) (lit "alice") token in
    (validate_and_normalise (first_user (lit "alice") token)
      ≡ valid (first_user (lit "alice") token))
    × (bearer
          (hex_sum toy_sha256)
          (first_user (lit "alice") token)
          (lit "Bearer " ++ token.plaintext)
        ≡ some user)
first_user-Enters_example =
    first_user-Enters toy_sha256 (lit "alice") sample_key toy_sha256-IsSha256 key_bytes
      (unfold trim_space lit in refl) (unfold lit in refl)

path-IsSecret : IsSecret (lit "/d/x")
unfolding lit has_substring has_prefix
path-IsSecret = record {
  some_byte = refl;
  no_brackets = ((refl, refl), ((refl, refl), ((refl, refl), ((refl, refl), tt))));
  not_in_mark = refl;
}

scrub_paths-hides_example :
    has_substring (lit "/d/x") (scrub_paths (lit "open /d/x: no") (lit "/d" ∷ lit "/d/x" ∷ []))
    ≡ false
scrub_paths-hides_example =
    scrub_paths-hides (lit "open /d/x: no") (lit "/d" ∷ lit "/d/x" ∷ []) (lit "/d/x") path-IsSecret
      (inr (inl refl))

run_init-Keeps_example :
    (run_init toy_yaml (λ w. (goes_on tt, w)) env (some sample_key) failing).1.disk users_file
    ≡ some (regular file_raw 384)
unfolding bytes_eq lit
run_init-Keeps_example =
    run_init-Keeps toy_yaml (λ w. (goes_on tt, w)) env (some sample_key) users_file failing
      (regular file_raw 384) (differ (lit "/d") users_file refl) (λ w. refl) refl

-- Loading the users file panics.
abbrev steps : Steps
steps = record {
  config_loads = succeeds;
  store_opens = succeeds;
  users = killed;
  key_loads = succeeds;
  store_wraps = succeeds;
  listens = succeeds;
  course = serve_ends server_closed;
}

run_serve-Releases_example :
    let (end, events) = run_serve steps in
    (opened events ≡ closed events + count_if (leaks steps))
    × (ends_closed events ≡ true)
    × (binds events ≡ starts_up steps)
    × ((end ≡ goes_on tt) ↔ ((starts_up steps ≡ true) × (ends_well steps.course ≡ true)))
run_serve-Releases_example = run_serve-Releases steps
