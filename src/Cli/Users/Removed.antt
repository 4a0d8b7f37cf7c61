-- ===== src/Cli/Users/Removed.antt =====
-- `user rm` of internal/cli/usercmd.go: the file that it leaves, and the tokens that still work.
use tabby_sync.Common.{
  ℕ, Bytes, Bool, none, some, List, ◌++◌, map, ◌≡◌, ◌≢◌, sym, ◌∙◌, ap, inl, inr, ◌⊎◌,
}
use tabby_sync.Files.{goes_on}
use tabby_sync.Auth.{User, valid, normalise, validate_and_normalise, lookup}
use tabby_sync.Auth.Users.{HashesDiffer}
use tabby_sync.Auth.Snapshots.{HashesDiffer-middle, lookup-middle_ne, lookup-without}
use tabby_sync.Cli.Users.{find_user, remove_user}
use tabby_sync.Cli.Users.Entries.{Split, remove_user-goes_on}
use mathlib.Core.Path.{subst}
use tabby_sync.Cli.Users.Accepted.{
  hex_sum, bytes_cases, normalise-append, accepted_parts, accepted_rest,
}

-- If the server accepts the users file and no two of its users share a token hash, then `user rm`,
-- where it edits the entries, takes out the one that findUser gives; the server accepts what is
-- left, the token of the removed user is refused, and every other token means what it meant.
pub remove_user-Revokes :
    (sha256 : Bytes → Bytes) (target : Bytes) (sure : Bool) (us us' vs : List User) (token : Bytes)
    → validate_and_normalise us ≡ valid vs
    → HashesDiffer vs
    → remove_user target sure us ≡ goes_on us'
    → let vs' = map normalise us' in
      (i : ℕ) × (find_user us target ≡ some i)
      × (s : Split us i) × (us' ≡ s.before ++ s.behind)
      × (validate_and_normalise us' ≡ valid vs')
      × HashesDiffer vs'
      × (((hex_sum sha256 token ≡ (normalise s.at).token_hash)
            × (lookup (hex_sum sha256) vs' token ≡ none))
          ⊎ ((hex_sum sha256 token ≢ (normalise s.at).token_hash)
              × (lookup (hex_sum sha256) vs' token ≡ lookup (hex_sum sha256) vs token)))
remove_user-Revokes sha256 target sure us us' vs token accepted differ e =
    let (i, found, s, removed, confirmed) = remove_user-goes_on target sure us us' e in
    let u = normalise s.at in
    let front = map normalise s.before in
    let back = map normalise s.behind in
    let (split, wfs, wfu, ds, ids, names) =
      accepted_parts s.before s.at s.behind vs
        (subst (λ ws. validate_and_normalise ws ≡ valid vs) s.whole accepted) in
    let (apart, new) = (HashesDiffer-middle u back front).0 (subst HashesDiffer split differ) in
    let joined : map normalise us' ≡ front ++ back =
      ap (map normalise) removed ∙ normalise-append s.before s.behind in
    (
      i,
      found,
      s,
      removed,
      subst (λ ws. validate_and_normalise ws ≡ valid (map normalise ws)) (sym removed)
          (accepted_rest s.before s.at s.behind wfs ds),
      subst HashesDiffer (sym joined) apart,
      elim (bytes_cases (hex_sum sha256 token) u.token_hash) [
        | inl same ↦ inl (
          same,
          ap (λ ws. lookup (hex_sum sha256) ws token) joined
              ∙ lookup-without u back (hex_sum sha256) front token new same,
        )
        | inr ne ↦ inr (
          ne,
          ap (λ ws. lookup (hex_sum sha256) ws token) joined
              ∙ (sym (lookup-middle_ne u back (hex_sum sha256) front token ne)
                  ∙ ap (λ ws. lookup (hex_sum sha256) ws token) (sym split)),
        )
      ],
    )
