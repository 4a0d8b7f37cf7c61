-- ===== src/Cli/Users/Rotated.antt =====
-- `user rotate` of internal/cli/usercmd.go: the file that it leaves, the old token and the new one.
use tabby_sync.Common.{
  ℕ, Bytes, bytes_eq_iff, is_empty, none, some, List, ◌∷◌, ◌++◌, map, ◌≡◌, ◌≢◌, sym, ◌∙◌, ap, arith,
  inl, inr, ◌⊎◌,
}
use tabby_sync.Files.{goes_on}
use tabby_sync.Auth.{
  User, valid, normalise, validate_and_normalise, with_hash, lookup, unless_disabled,
}
use tabby_sync.Auth.Text.{is_hash}
use tabby_sync.Auth.Users.{IsWellFormed, HashesDiffer}
use tabby_sync.Auth.Snapshots.{
  HashesDiffer-middle, lookup-middle_self, lookup-middle_ne, lookup-without, with_hash-middle,
}
use tabby_sync.Cli.Users.{find_user, with_token, generate_token, rotate_user}
use tabby_sync.Cli.Users.Tokens.{AreBytes, IsSha256, hash_is_kept, prefix-IsKept}
use tabby_sync.Cli.Users.Entries.{Split, rotate_user-goes_on}
use mathlib.Core.Path.{subst}
use tabby_sync.Cli.Users.Accepted.{
  hex_sum, bytes_cases, normalise-append, accepted_parts, accepted_whole,
}

-- What the loader keeps of an entry with a new token.
module _ (sha256 : Bytes → Bytes) (random : Bytes) (is_sha : IsSha256 sha256)
    (bytes : AreBytes random) where
  rotated-IsWellFormed :
      (u : User)
      → IsWellFormed (normalise u)
      → IsWellFormed (normalise (with_token (generate_token sha256 random) u))
  unfolding normalise
  rotated-IsWellFormed u wf =
      let (prefix, full) = prefix-IsKept sha256 random bytes in
      let (hash, digits) = hash_is_kept sha256 random is_sha in
      record {
        positive = wf.positive;
        named = wf.named;
        prefixed = ap is_empty prefix ∙ full;
        hashed = ap is_hash hash ∙ digits;
      }

new_hash :
    (u : User) (back : List User) (h : Bytes) (front : List User)
    → with_hash h (front ++ u ∷ back) ≡ none
    → u.token_hash ≢ h
new_hash u back h front e same =
    absurd
      (ground (arith, (with_hash-middle u back h front).0 e, (bytes_eq_iff u.token_hash h).1 same))

-- If the server accepts the users file, no two of its users share a token hash and none has the
-- hash of the new token, then `user rotate`, where it edits the entries, changes the hash and
-- prefix of the one that findUser gives; the server accepts the result, a token with the new
-- token's hash belongs to that user unless it is disabled, one with its old hash is refused, and
-- every third token means what it meant.
pub rotate_user-Replaces :
    (sha256 : Bytes → Bytes) (target random : Bytes) (us us' vs : List User) (token : Bytes)
    → IsSha256 sha256
    → AreBytes random
    → validate_and_normalise us ≡ valid vs
    → HashesDiffer vs
    → with_hash (generate_token sha256 random).hash vs ≡ none
    → rotate_user sha256 target (some random) us ≡ goes_on us'
    → let new = generate_token sha256 random in
      let vs' = map normalise us' in
      (i : ℕ) × (find_user us target ≡ some i)
      × (s : Split us i) × (us' ≡ s.before ++ with_token new s.at ∷ s.behind)
      × (validate_and_normalise us' ≡ valid vs')
      × HashesDiffer vs'
      × (((hex_sum sha256 token ≡ new.hash)
            × (lookup (hex_sum sha256) vs' token
                ≡ unless_disabled (normalise (with_token new s.at))))
          ⊎ ((hex_sum sha256 token ≡ (normalise s.at).token_hash)
              × (lookup (hex_sum sha256) vs' token ≡ none))
          ⊎ ((hex_sum sha256 token ≢ (normalise s.at).token_hash)
              × (lookup (hex_sum sha256) vs' token ≡ lookup (hex_sum sha256) vs token)))
rotate_user-Replaces sha256 target random us us' vs token is_sha bytes accepted differ fresh e =
    let (i, found, s, rotated) = rotate_user-goes_on sha256 target random us us' e in
    let t = generate_token sha256 random in
    let v = with_token t s.at in
    let u = normalise s.at in
    let front = map normalise s.before in
    let back = map normalise s.behind in
    let (split, wfs, wfu, ds, ids, names) =
      accepted_parts s.before s.at s.behind vs
        (subst (λ ws. validate_and_normalise ws ≡ valid vs) s.whole accepted) in
    let (apart, old) = (HashesDiffer-middle u back front).0 (subst HashesDiffer split differ) in
    let fresh_rest : with_hash t.hash (front ++ back) ≡ none =
      ((with_hash-middle u back t.hash front).0
        (subst (λ ws. with_hash t.hash ws ≡ none) split fresh)).0 in
    let changed : u.token_hash ≢ t.hash =
      new_hash u back t.hash front (subst (λ ws. with_hash t.hash ws ≡ none) split fresh) in
    let kept : (normalise v).token_hash ≡ t.hash =
      unfold normalise in (hash_is_kept sha256 random is_sha).0 in
    let fresh_v = subst (λ h. with_hash h (front ++ back) ≡ none) (sym kept) fresh_rest in
    let joined : map normalise us' ≡ front ++ normalise v ∷ back =
      ap (map normalise) rotated ∙ normalise-append s.before (v ∷ s.behind) in
    let at = ap (λ ws. lookup (hex_sum sha256) ws token) joined in
    (
      i,
      found,
      s,
      rotated,
      subst (λ ws. validate_and_normalise ws ≡ valid (map normalise ws)) (sym rotated)
          (accepted_whole s.before v s.behind wfs
            (rotated-IsWellFormed sha256 random is_sha bytes s.at wfu) ds (unfold normalise in ids)
            (unfold normalise in names)),
      subst HashesDiffer (sym joined)
          ((HashesDiffer-middle (normalise v) back front).1 (apart, fresh_v)),
      elim (bytes_cases (hex_sum sha256 token) t.hash) [
        | inl new ↦ inl (
          new,
          at
              ∙ lookup-middle_self (normalise v) back (hex_sum sha256) front token fresh_v
                  (new ∙ sym kept),
        )
        | inr not_new ↦
            let other =
              lookup-middle_ne (normalise v) back (hex_sum sha256) front token
                (λ h. not_new (h ∙ kept)) in
            elim (bytes_cases (hex_sum sha256 token) u.token_hash) [
              | inl same ↦ inr (
                  inl (
                    same,
                    at ∙ (other ∙ lookup-without u back (hex_sum sha256) front token old same),
                  ))
              | inr ne ↦ inr (
                  inr (
                    ne,
                    at
                        ∙ (other
                            ∙ (sym (lookup-middle_ne u back (hex_sum sha256) front token ne)
                                ∙ ap (λ ws. lookup (hex_sum sha256) ws token) (sym split))),
                  ))
            ]
      ],
    )
