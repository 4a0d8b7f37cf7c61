-- ===== src/Cli/Bootstrap/Entry.antt =====
-- The credentials of runBootstrap of internal/cli/usercmd.go, as internal/auth takes them: the server
-- accepts the users file and lets the token in.
use tabby_sync.Common.{
  pos, Bytes, lit, is_empty, false, none, some, [], ◌∷◌, ◌++◌, ◌≡◌, refl, ◌∙◌, ap, inl, inr, find?,
  List, Option,
}
use tabby_sync.Files.{goes_on}
use tabby_sync.Auth.{
  User, valid, validate_and_normalise, validate_from, lookup, bearer, bearer_token, with_hash,
}
use tabby_sync.Auth.Text.{trim_space}
use tabby_sync.Cli.Users.{
  max_id_from, next_id, wrapped_suc, new_user, name_is_taken, generate_token, add_user,
}
use tabby_sync.Cli.Users.Tokens.{AreBytes, IsSha256, bearer_token-generate_token}
use tabby_sync.Cli.Users.Accepted.{hex_sum}
use tabby_sync.Cli.Users.Added.{add_user-Admits}
use tabby_sync.Cli.Bootstrap.{first_user}
use mathlib.Core.Path.{subst}

first_is_added :
    (sha256 : Bytes → Bytes) (name random : Bytes)
    → add_user sha256 name (some random) []
      ≡ goes_on (first_user name (generate_token sha256 random))
unfolding add_user name_is_taken next_id max_id_from wrapped_suc
first_is_added sha256 name random = refl

-- A request passes as the user that Lookup gives for its token.
passes :
    (sha256 : Bytes → Bytes) (snap : List User) (token : Bytes) (u : User)
    → bearer_token (lit "Bearer " ++ token) ≡ some token
    → lookup (hex_sum sha256) snap token ≡ some u
    → bearer (hex_sum sha256) snap (lit "Bearer " ++ token) ≡ some u
unfolding bearer
passes sha256 snap token u form found =
    ap (λ o. elim o as (λ _. Option User) [ none ↦ none | some t ↦ lookup (hex_sum sha256) snap t ])
      form
    ∙ found

-- The server accepts the users file of one user that bootstrap writes for a trimmed name that is
-- not empty, and a request with "Bearer " and the plaintext of token.txt passes as that user.
pub first_user-Enters :
    (sha256 : Bytes → Bytes) (name random : Bytes)
    → IsSha256 sha256
    → AreBytes random
    → trim_space name ≡ name
    → is_empty name ≡ false
    → let token = generate_token sha256 random in
      let user = new_user (pos 1) name token in
      (validate_and_normalise (first_user name token) ≡ valid (first_user name token))
      × (bearer (hex_sum sha256) (first_user name token) (lit "Bearer " ++ token.plaintext)
          ≡ some user)
first_user-Enters sha256 name random is_sha bytes trimmed named =
    let token = generate_token sha256 random in
    let (appended, accepted, differ, means) =
      add_user-Admits sha256 name random [] (first_user name token) [] token.plaintext is_sha bytes
        trimmed named tt (unfold max_id_from in (λ e. cc))
        (unfold validate_and_normalise validate_from in refl) tt (unfold with_hash find? in refl)
        (first_is_added sha256 name random) in
    let next : next_id [] ≡ pos 1 = unfold next_id max_id_from wrapped_suc in refl in
    let user = new_user (next_id []) name token in
    let found : lookup (hex_sum sha256) (user ∷ []) token.plaintext ≡ some user = elim means [
      | inl (same, is_user) ↦ is_user
      | inr (ne, other) ↦ absurd (ne (unfold generate_token in refl))
    ] in
    (
      subst
          (λ i. validate_and_normalise (first_user name token) ≡ valid (new_user i name token ∷ []))
          next accepted,
      passes sha256 (first_user name token) token.plaintext (new_user (pos 1) name token)
          (bearer_token-generate_token sha256 random bytes)
          (subst
            (λ i.
              lookup (hex_sum sha256) (new_user i name token ∷ []) token.plaintext
              ≡ some (new_user i name token))
            next found),
    )
