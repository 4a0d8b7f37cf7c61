-- ===== src/Tests/Cli.antt =====
-- Examples of the theorems on the users file and the commands that edit it.
use tabby_sync.Common.{
  ℕ, ◌-◌, ◌^◌, pos, Bytes, lit, bytes_eq, true, none, some, List, [], ◌∷◌, ◌++◌, map, ◌≡◌, ◌≢◌,
  refl, arith, ◌⊎◌, find?, all, eqb_ℤ, if◌then◌else◌, or_else, ℤ, negsuc, ap, inl, inr,
}
use tabby_sync.Files.{Disk, succeeds, fails, World, regular, goes_on, update}
use tabby_sync.Files.Paths.{dir, join, base, split}
use tabby_sync.Keys.{encode_hex}
use tabby_sync.Auth.{
  User, valid, validate_and_normalise, validate_from, check_entry, normalise, has_id, has_name,
  with_hash, lookup, unless_disabled,
}
use tabby_sync.Auth.Text.{trim_space, to_lower, is_hash, equal_fold, lower}
use tabby_sync.Auth.Users.{HashesDiffer}
use tabby_sync.Api.{parse_int, is_digit, parse_magnitude}
use tabby_sync.Cli.Atomic.{temp_path, write_file_atomic, write_file_atomic-IsAtomic}
use tabby_sync.Cli.Users.{
  Inputs, resolve_users_file, max_id_from, wrapped_suc, next_id, find_user, index_where,
  index_of_id, name_is_taken, new_user, generate_token, add_user, remove_user, rotate_user,
  remove_at, set_token_at, with_token, run_user,
}
use tabby_sync.Cli.Users.Tokens.{AreBytes}
use tabby_sync.Cli.Users.Accepted.{hex_sum}
use tabby_sync.Cli.Users.Entries.{Split, NoId, NoName, find_user-Finds}
use tabby_sync.Cli.Users.Edits.{Holds}
use tabby_sync.Cli.Users.Removed.{remove_user-Revokes}
use tabby_sync.Cli.Users.Rotated.{rotate_user-Replaces}
use tabby_sync.Cli.Users.Added.{add_user-Admits}
use tabby_sync.Cli.Users.Commands.{Edited, Asked, run_user-Edited}
use tabby_sync.Tests.{sample_key}
use tabby_sync.Tests.Auth.{alice, bob}
use tabby_sync.Tests.Toys.{
  toy_yaml, toy_yaml-RoundTrips, toy_sha256, toy_sha256-IsSha256, get_users, differ,
}
use tabby_sync.Cli.Users.Completes.{HasOperand, Done, run_user-Completes}

abbrev pub env : Bytes → Bytes
env name = if bytes_eq name (lit "TABBY_SYNC_DATA_DIR") then lit "/d" else []

abbrev pub file_raw : Bytes
file_raw = or_else (toy_yaml.marshal (alice ∷ [])) []

abbrev pub users_file : Bytes
users_file = lit "/d/users.yml"

-- The users file has one user.
abbrev one_user : Disk
one_user = update users_file (some (regular file_raw 384)) (λ p. none)

abbrev pub empty_disk : Disk
empty_disk p = none

-- The third call fails.
abbrev pub failing : World
failing = record { disk = one_user; fates = succeeds ∷ succeeds ∷ fails 0 ∷ [] }

write_file_atomic-IsAtomic_example :
    let (r, after) = write_file_atomic (lit "1") users_file (lit "new") 384 failing in
    (((r ≡ goes_on tt)
        × (after.disk users_file ≡ some (regular (lit "new") 384))
        × (after.disk (temp_path users_file (lit "1")) ≡ none))
      ⊎ ((r ≢ goes_on tt) × (after.disk users_file ≡ failing.disk users_file)))
    × (after.disk (lit "/d") ≡ failing.disk (lit "/d"))
write_file_atomic-IsAtomic_example =
    write_file_atomic-IsAtomic (lit "1") users_file (lit "new") 384 failing (lit "/d")
      (differ (temp_path users_file (lit "1")) (lit "/d")
        (unfold temp_path join dir base split bytes_eq lit in refl))
      (differ users_file (lit "/d") (unfold bytes_eq lit in refl))

abbrev inputs : Inputs
inputs = record { random = some sample_key; suffix = lit "1"; answer = none }

abbrev add_carol : List Bytes
add_carol = lit "tabby-sync" ∷ lit "user" ∷ lit "add" ∷ lit "carol" ∷ []

run_user-Edited_example :
    Edited toy_yaml
      (resolve_users_file env)
      (Asked toy_sha256 toy_yaml env inputs add_carol)
      failing
      (run_user toy_sha256 toy_yaml env inputs add_carol failing)
run_user-Edited_example =
    run_user-Edited toy_sha256 toy_yaml env inputs add_carol toy_yaml-RoundTrips failing

one_accepted : validate_and_normalise (alice ∷ []) ≡ valid (alice ∷ [])
unfolding validate_and_normalise validate_from check_entry normalise is_hash trim_space to_lower lit
    has_id has_name all eqb_ℤ bytes_eq
one_accepted = refl

new_hash_is_free : with_hash (generate_token toy_sha256 sample_key).hash (alice ∷ []) ≡ none
unfolding with_hash find? bytes_eq lit generate_token encode_hex
new_hash_is_free = refl

one_differs : HashesDiffer (alice ∷ [])
unfolding with_hash find?
one_differs = (refl, tt)

pub key_bytes : AreBytes sample_key
key_bytes = ground arith

abbrev magnitude : ℤ → ℕ
magnitude (pos n) = n
magnitude (negsuc n) = n

room : max_id_from (pos 0) (alice ∷ []) ≢ pos (2 ^ 63 - 1)
unfolding max_id_from
room e = omega (arith, ap magnitude e)

abbrev carol : User
carol = new_user (pos 2) (lit "carol") (generate_token toy_sha256 sample_key)

carol_added :
    add_user toy_sha256 (lit "carol") (some sample_key) (alice ∷ []) ≡ goes_on (alice ∷ carol ∷ [])
unfolding add_user name_is_taken next_id max_id_from wrapped_suc equal_fold to_lower bytes_eq lit
carol_added = refl

add_user-Admits_example :
    let new =
      new_user (next_id (alice ∷ [])) (lit "carol") (generate_token toy_sha256 sample_key) in
    (alice ∷ carol ∷ [] ≡ (alice ∷ []) ++ new ∷ [])
    × (validate_and_normalise (alice ∷ carol ∷ []) ≡ valid ((alice ∷ []) ++ new ∷ []))
    × HashesDiffer ((alice ∷ []) ++ new ∷ [])
    × (((hex_sum toy_sha256 (lit "tbs_") ≡ new.token_hash)
          × (lookup (hex_sum toy_sha256) ((alice ∷ []) ++ new ∷ []) (lit "tbs_") ≡ some new))
        ⊎ ((hex_sum toy_sha256 (lit "tbs_") ≢ new.token_hash)
            × (lookup (hex_sum toy_sha256) ((alice ∷ []) ++ new ∷ []) (lit "tbs_")
                ≡ lookup (hex_sum toy_sha256) (alice ∷ []) (lit "tbs_"))))
add_user-Admits_example =
    add_user-Admits toy_sha256 (lit "carol") sample_key (alice ∷ []) (alice ∷ carol ∷ [])
      (alice ∷ []) (lit "tbs_") toy_sha256-IsSha256 key_bytes (unfold trim_space lit in refl)
      (unfold lit in refl) (unfold trim_space lit in (refl, tt)) room one_accepted one_differs
      new_hash_is_free carol_added

alice_rotated :
    rotate_user toy_sha256 (lit "ALICE") (some sample_key) (alice ∷ [])
    ≡ goes_on (with_token (generate_token toy_sha256 sample_key) alice ∷ [])
unfolding rotate_user find_user index_of_id index_where set_token_at parse_int parse_magnitude eqb_ℤ
    all is_digit lit equal_fold to_lower lower bytes_eq
alice_rotated = refl

rotate_user-Replaces_example :
    let new = generate_token toy_sha256 sample_key in
    let us' = with_token new alice ∷ [] in
    let vs' = map normalise us' in
    (i : ℕ) × (find_user (alice ∷ []) (lit "ALICE") ≡ some i)
    × (s : Split (alice ∷ []) i) × (us' ≡ s.before ++ with_token new s.at ∷ s.behind)
    × (validate_and_normalise us' ≡ valid vs')
    × HashesDiffer vs'
    × (((hex_sum toy_sha256 (lit "tbs_") ≡ new.hash)
          × (lookup (hex_sum toy_sha256) vs' (lit "tbs_")
              ≡ unless_disabled (normalise (with_token new s.at))))
        ⊎ ((hex_sum toy_sha256 (lit "tbs_") ≡ (normalise s.at).token_hash)
            × (lookup (hex_sum toy_sha256) vs' (lit "tbs_") ≡ none))
        ⊎ ((hex_sum toy_sha256 (lit "tbs_") ≢ (normalise s.at).token_hash)
            × (lookup (hex_sum toy_sha256) vs' (lit "tbs_")
                ≡ lookup (hex_sum toy_sha256) (alice ∷ []) (lit "tbs_"))))
rotate_user-Replaces_example =
    rotate_user-Replaces toy_sha256 (lit "ALICE") sample_key (alice ∷ [])
      (with_token (generate_token toy_sha256 sample_key) alice ∷ []) (alice ∷ []) (lit "tbs_")
      toy_sha256-IsSha256 key_bytes one_accepted one_differs new_hash_is_free alice_rotated

alice_removed : remove_user (lit "Alice") true (alice ∷ []) ≡ goes_on []
unfolding remove_user find_user index_of_id index_where remove_at parse_int parse_magnitude eqb_ℤ
    all is_digit equal_fold to_lower lower bytes_eq lit
alice_removed = refl

remove_user-Revokes_example :
    let vs' : List User = [] in
    (i : ℕ) × (find_user (alice ∷ []) (lit "Alice") ≡ some i)
    × (s : Split (alice ∷ []) i) × ([] ≡ s.before ++ s.behind)
    × (validate_and_normalise [] ≡ valid vs')
    × HashesDiffer vs'
    × (((hex_sum toy_sha256 (lit "tbs_") ≡ (normalise s.at).token_hash)
          × (lookup (hex_sum toy_sha256) vs' (lit "tbs_") ≡ none))
        ⊎ ((hex_sum toy_sha256 (lit "tbs_") ≢ (normalise s.at).token_hash)
            × (lookup (hex_sum toy_sha256) vs' (lit "tbs_")
                ≡ lookup (hex_sum toy_sha256) (alice ∷ []) (lit "tbs_"))))
remove_user-Revokes_example =
    remove_user-Revokes toy_sha256 (lit "Alice") true (alice ∷ []) [] (alice ∷ []) (lit "tbs_")
      one_accepted one_differs alice_removed

find_user-Finds_example :
    let us = alice ∷ bob ∷ [] in
    ((find_user us (lit "BOB") ≡ none) × NoId (parse_int (lit "BOB")) us × NoName (lit "BOB") us)
    ⊎ ((i : ℕ) × (find_user us (lit "BOB") ≡ some i)
        × (s : Split us i) × ((parse_int (lit "BOB") ≡ some s.at.id)
            ⊎ (NoId (parse_int (lit "BOB")) us
                × (equal_fold s.at.name (lit "BOB") ≡ true)
                × NoName (lit "BOB") s.before)))
find_user-Finds_example = find_user-Finds (alice ∷ bob ∷ []) (lit "BOB")

alice_stands :
    Holds toy_yaml (resolve_users_file env) (alice ∷ []) (record { disk = one_user; fates = [] })
unfolding resolve_users_file get_users bytes_eq lit join
alice_stands = (file_raw, 384, refl, refl)

add_carol-HasOperand : HasOperand add_carol
unfolding trim_space lit
add_carol-HasOperand = (refl, λ e. refl, λ e. absurd (not_removing e))
  where
    not_removing : ¬ ((lit "add" ≡ lit "rm") ⊎ (lit "add" ≡ lit "remove"))
    not_removing (inl e) = cc
    not_removing (inr e) = cc

carol-Asked : Asked toy_sha256 toy_yaml env inputs add_carol (alice ∷ []) (alice ∷ carol ∷ [])
unfolding trim_space lit
carol-Asked = inl (refl, carol_added)

run_user-Completes_example :
    Done toy_yaml
      (resolve_users_file env)
      (alice ∷ carol ∷ [])
      (run_user toy_sha256 toy_yaml env inputs add_carol (record { disk = one_user; fates = [] }))
run_user-Completes_example =
    run_user-Completes toy_sha256 toy_yaml env inputs add_carol toy_yaml-RoundTrips
      add_carol-HasOperand (unfold resolve_users_file bytes_eq lit join in refl) one_user
      (alice ∷ []) (alice ∷ carol ∷ []) (or_else (toy_yaml.marshal (alice ∷ carol ∷ [])) [])
      alice_stands carol-Asked refl
      (unfold resolve_users_file temp_path join dir base split bytes_eq lit in refl)
