-- ===== src/Auth/Tokens.antt =====
-- Which requests the Bearer middleware lets through, and as whom.
use tabby_sync.Common.{
  Bytes, lit, bytes_eq, bytes_eq_iff, is_empty, true, false, none, some, List, [], ◌∷◌, ◌≡◌, sym,
  ◌∙◌, ap, arith, find?, take, drop, length, ltb, Bool-cases, Option-cases, inl, inr, ◌↔◌, ◌⊎◌,
}
use tabby_sync.Auth.Text.{equal_fold, has_any_space}
use tabby_sync.Auth.{User, with_hash, lookup, bearer_token, bearer, unless_disabled}
use tabby_sync.Auth.Users.{HashesDiffer}
use mathlib.Core.Path.{subst}

-- The user is in the list.
abbrev pub Has : User → List User → Type 0
Has u [] = ⊥
Has u (v ∷ vs) = (u ≡ v) ⊎ Has u vs

with_hash_sound :
    (h : Bytes) (us : List User) (u : User)
    → with_hash h us ≡ some u
    → Has u us × (u.token_hash ≡ h)
unfolding with_hash find?
with_hash_sound h [] u e = absurd (ground arith)
with_hash_sound h (v ∷ us) u e = elim (Bool-cases (bytes_eq v.token_hash h)) [
  | inl hit ↦ (inl (ground arith), ground (arith, bytes_eq_iff v.token_hash h))
  | inr miss ↦ let found = with_hash_sound h us u (ground arith) in (inr found.0, found.1)
]

with_hash_complete :
    (us : List User) (u : User) → HashesDiffer us → Has u us → with_hash u.token_hash us ≡ some u
unfolding with_hash find?
with_hash_complete [] u d h = absurd h
with_hash_complete (v ∷ us) u (new, d) (inl e) =
    subst (λ w. with_hash w.token_hash (v ∷ us) ≡ some w) (sym e) (hit v)
  where
    hit : (w : User) → with_hash w.token_hash (w ∷ us) ≡ some w
    hit w = ground (arith, bytes_eq_iff w.token_hash w.token_hash)
with_hash_complete (v ∷ us) u (new, d) (inr h) =
    let found = with_hash_complete us u d h in
    elim (Bool-cases (bytes_eq v.token_hash u.token_hash)) [
      | inl same ↦
          let e = (bytes_eq_iff v.token_hash u.token_hash).0 same in absurd (ground (arith))
      | inr differ ↦ ground arith
    ]

-- What Lookup does with the user that the map has.
pub lookup-hit :
    (sha256_hex : Bytes → Bytes) (snap : List User) (token : Bytes) (u : User)
    → with_hash (sha256_hex token) snap ≡ some u
    → u.token_hash ≡ sha256_hex token
    → lookup sha256_hex snap token ≡ unless_disabled u
unfolding lookup
lookup-hit sha256_hex snap token u hit same =
    ground (arith, hit, bytes_eq_iff (sha256_hex token) u.token_hash)

pub lookup-miss :
    (sha256_hex : Bytes → Bytes) (snap : List User) (token : Bytes)
    → with_hash (sha256_hex token) snap ≡ none
    → lookup sha256_hex snap token ≡ none
unfolding lookup
lookup-miss sha256_hex snap token miss = ground (arith, miss)

enabled : (v u : User) → unless_disabled v ≡ some u → (v ≡ u) × (u.disabled ≡ false)
enabled v u e = elim (Bool-cases v.disabled) [
  | inl off ↦ absurd (ground arith)
  | inr on ↦ let same : v ≡ u = ground arith in (same, sym (ap (λ w. w.disabled) same) ∙ on)
]

-- In a snapshot without a repeated hash, Lookup gives a user exactly if the user is in the
-- snapshot, has the token's hash, and is not disabled.
pub lookup_iff :
    (sha256_hex : Bytes → Bytes) (snap : List User) (token : Bytes) (u : User)
    → HashesDiffer snap
    → (lookup sha256_hex snap token ≡ some u)
      ↔ (Has u snap × (u.token_hash ≡ sha256_hex token) × (u.disabled ≡ false))
lookup_iff sha256_hex snap token u d = (
  λ e. elim (Option-cases (with_hash (sha256_hex token) snap)) [
    | inl miss ↦ absurd (ground (arith, lookup-miss sha256_hex snap token miss))
    | inr (v, hit) ↦
        let (has, same) = with_hash_sound (sha256_hex token) snap v hit in
        let (vu, on) = enabled v u (sym (lookup-hit sha256_hex snap token v hit same) ∙ e) in
        (subst (λ w. Has w snap) vu has, sym (ap (λ w. w.token_hash) vu) ∙ same, on)
  ],
  λ h.
      let (has, same, on) = h in
      let hit = ap (λ t. with_hash t snap) (sym same) ∙ with_hash_complete snap u d has in
      lookup-hit sha256_hex snap token u hit same ∙ (ground arith),
)

-- A request passes as a user exactly if its Authorization header has seven bytes that fold to
-- "Bearer " and then a token that is not empty, has no white space, and that Lookup gives the user
-- for.
pub bearer_iff :
    (sha256_hex : Bytes → Bytes) (snap : List User) (authz : Bytes) (u : User)
    → (bearer sha256_hex snap authz ≡ some u) ↔ (
        (ltb (length authz) 7 ≡ false)
        × (equal_fold (take 7 authz) (lit "Bearer ") ≡ true)
        × (is_empty (drop 7 authz) ≡ false)
        × (has_any_space (drop 7 authz) ≡ false)
        × (lookup sha256_hex snap (drop 7 authz) ≡ some u))
unfolding bearer bearer_token
bearer_iff sha256_hex snap authz u = ground arith
