-- ===== src/Cli/Users/Added.antt =====
-- `user add` of internal/cli/usercmd.go: the file that it leaves, and what the new token means.
use tabby_sync.Common.{
  ◌-◌, ◌^◌, ℤ, pos, ltb_ℤ, Bytes, is_empty, false, none, some, List, [], ◌∷◌, ◌++◌, map, ◌≡◌, ◌≢◌,
  sym, ◌∙◌, ap, arith, All, inl, inr, ◌⊎◌,
}
use tabby_sync.Files.{goes_on}
use tabby_sync.Auth.{
  User, valid, has_id, has_name, normalise, validate_and_normalise, with_hash, lookup,
}
use tabby_sync.Auth.Text.{trim_space}
use tabby_sync.Auth.Users.{IsWellFormed, AreDistinct, HashesDiffer}
use tabby_sync.Auth.Complete.{validate_and_normalise_iff}
use tabby_sync.Auth.Snapshots.{
  All-middle, AreDistinct-middle, HashesDiffer-middle, lookup-middle_self, lookup-middle_ne,
}
use tabby_sync.Cli.Users.{max_id_from, next_id, new_user, generate_token, add_user}
use tabby_sync.Cli.Users.Tokens.{AreBytes, IsSha256, hash_is_kept, prefix-IsKept}
use tabby_sync.Cli.Users.Entries.{add_user-goes_on}
use mathlib.Core.Path.{subst}
use mathlib.Core.List.{append-nil}
use tabby_sync.Cli.Users.Accepted.{hex_sum, bytes_cases, normalise-append}
use tabby_sync.Cli.Users.Fresh.{next_id-IsNew, has_name-free}

module _ (sha256 : Bytes → Bytes) (name random : Bytes) (us : List User) (is_sha : IsSha256 sha256)
    (bytes : AreBytes random) (trimmed : trim_space name ≡ name) where
  -- The loader keeps the new user as it is.
  normalise-new_user :
      (id : ℤ) → let new = new_user id name (generate_token sha256 random) in normalise new ≡ new
  unfolding normalise
  normalise-new_user id =
      let (prefix, full) = prefix-IsKept sha256 random bytes in
      let (hash, digits) = hash_is_kept sha256 random is_sha in
      ground (arith, prefix, hash, trimmed)

  new_user-IsWellFormed :
      (id : ℤ)
      → ltb_ℤ id (pos 1) ≡ false
      → is_empty name ≡ false
      → IsWellFormed (new_user id name (generate_token sha256 random))
  new_user-IsWellFormed id positive named = record {
    positive = positive;
    named = named;
    prefixed = (prefix-IsKept sha256 random bytes).1;
    hashed = (hash_is_kept sha256 random is_sha).1;
  }

-- If the server accepts the users file, whose names have no white space around them, no two of its
-- users share a token hash, none has the hash of the new token, the ids leave room for one more,
-- and the name is trimmed and not empty, then `user add`, where it edits the entries, appends a
-- user of that name with the next id; the server accepts the result, a token with the new token's
-- hash belongs to the new user, and every other token means what it meant.
pub add_user-Admits :
    (sha256 : Bytes → Bytes) (name random : Bytes) (us us' vs : List User) (token : Bytes)
    → IsSha256 sha256
    → AreBytes random
    → trim_space name ≡ name
    → is_empty name ≡ false
    → All (λ u. trim_space u.name ≡ u.name) us
    → max_id_from (pos 0) us ≢ pos (2 ^ 63 - 1)
    → validate_and_normalise us ≡ valid vs
    → HashesDiffer vs
    → with_hash (generate_token sha256 random).hash vs ≡ none
    → add_user sha256 name (some random) us ≡ goes_on us'
    → let new = new_user (next_id us) name (generate_token sha256 random) in
      (us' ≡ us ++ new ∷ [])
      × (validate_and_normalise us' ≡ valid (vs ++ new ∷ []))
      × HashesDiffer (vs ++ new ∷ [])
      × (((hex_sum sha256 token ≡ new.token_hash)
            × (lookup (hex_sum sha256) (vs ++ new ∷ []) token ≡ some new))
          ⊎ ((hex_sum sha256 token ≢ new.token_hash)
              × (lookup (hex_sum sha256) (vs ++ new ∷ []) token
                  ≡ lookup (hex_sum sha256) vs token)))
add_user-Admits sha256 name random us us' vs token is_sha bytes trimmed named names_trimmed room
      accepted differ fresh e =
    let (appended, free) = add_user-goes_on sha256 name random us us' e in
    let new = new_user (next_id us) name (generate_token sha256 random) in
    let (same, wfs, distinct) = (validate_and_normalise_iff us vs).0 accepted in
    let (positive, new_id) = next_id-IsNew us room in
    let kept = normalise-new_user sha256 name random us is_sha bytes trimmed (next_id us) in
    let wf =
      new_user-IsWellFormed sha256 name random us is_sha bytes trimmed (next_id us) positive
        named in
    let end : vs ++ [] ≡ vs = append-nil vs in
    let split : map normalise us' ≡ vs ++ new ∷ [] =
      ap (map normalise) appended
      ∙ (normalise-append us (new ∷ [])
          ∙ (ap (λ ws. ws ++ normalise new ∷ []) (sym same) ∙ ap (λ v. vs ++ v ∷ []) kept)) in
    (
      appended,
      (validate_and_normalise_iff us' (vs ++ new ∷ [])).1 (
        sym split,
        (All-middle IsWellFormed vs new []).1 (subst (All IsWellFormed) (sym end) wfs, wf),
        (AreDistinct-middle new [] vs).1 (
          subst AreDistinct (sym end) distinct,
          ap (has_id new.id) (end ∙ same) ∙ new_id,
          ap (has_name new.name) (end ∙ same) ∙ has_name-free name us names_trimmed free,
        ),
      ),
      (HashesDiffer-middle new [] vs).1
          (subst HashesDiffer (sym end) differ, ap (with_hash new.token_hash) end ∙ fresh),
      elim (bytes_cases (hex_sum sha256 token) new.token_hash) [
        | inl is_new ↦ inl (
          is_new,
          lookup-middle_self new [] (hex_sum sha256) vs token
              (ap (with_hash new.token_hash) end ∙ fresh) is_new,
        )
        | inr ne ↦ inr (
          ne,
          lookup-middle_ne new [] (hex_sum sha256) vs token ne
              ∙ ap (λ ws. lookup (hex_sum sha256) ws token) end,
        )
      ],
    )
