-- ===== src/Auth/Snapshots.antt =====
-- One user put into a list of users, or taken out of it: what becomes of the checks of the loader
-- and of the tokens that Lookup of internal/auth finds.
use tabby_sync.Common.{
  ℤ, Bytes, bytes_eq, bytes_eq_iff, eqb_ℤ, eqb_ℤ_iff, false, none, some, List, [], ◌∷◌, ◌++◌, ◌≡◌,
  ◌≢◌, arith, All, find?, ap, ◌∙◌, sym, ◌↔◌, Option, if◌then◌else◌,
}
use tabby_sync.Auth.{User, has_id, has_name, with_hash, lookup, unless_disabled, zero_hash_hex}
use tabby_sync.Auth.Users.{AreDistinct, HashesDiffer}
use tabby_sync.Auth.Tokens.{lookup-hit, lookup-miss}

pub All-middle {ℓ κ} :
    {A : Type ℓ} (P : A → Type κ) (xs : List A) (y : A) (ys : List A)
    → All P (xs ++ y ∷ ys) ↔ (All P (xs ++ ys) × P y)
All-middle P [] y ys = (λ h. (h.1, h.0), λ h. (h.1, h.0))
All-middle P (x ∷ xs) y ys =
    let (to, from) = All-middle P xs y ys in
    (λ h. let (rest, p) = to h.1 in ((h.0, rest), p), λ h. (h.0.0, from (h.0.1, h.1)))

module _ (u : User) (us' : List User) where
  has_id-middle :
      (i : ℤ) (us : List User)
      → (has_id i (us ++ u ∷ us') ≡ false)
        ↔ ((has_id i (us ++ us') ≡ false) × (eqb_ℤ u.id i ≡ false))
  unfolding has_id
  has_id-middle i [] = ground arith
  has_id-middle i (v ∷ us) = ground (arith, has_id-middle i us)

  has_name-middle :
      (n : Bytes) (us : List User)
      → (has_name n (us ++ u ∷ us') ≡ false)
        ↔ ((has_name n (us ++ us') ≡ false) × (bytes_eq u.name n ≡ false))
  unfolding has_name
  has_name-middle n [] = ground arith
  has_name-middle n (v ∷ us) = ground (arith, has_name-middle n us)

  -- A user can stand anywhere among others exactly if no other one has the id or the name.
  pub AreDistinct-middle :
      (us : List User)
      → AreDistinct (us ++ u ∷ us') ↔ (
          AreDistinct (us ++ us')
          × (has_id u.id (us ++ us') ≡ false)
          × (has_name u.name (us ++ us') ≡ false))
  unfolding has_id has_name
  AreDistinct-middle [] = ground arith
  AreDistinct-middle (v ∷ us) = ground (
    arith,
    AreDistinct-middle us,
    has_id-middle v.id us,
    has_name-middle v.name us,
    eqb_ℤ_iff v.id u.id,
    eqb_ℤ_iff u.id v.id,
    bytes_eq_iff v.name u.name,
    bytes_eq_iff u.name v.name,
  )

  pub with_hash-middle :
      (h : Bytes) (us : List User)
      → (with_hash h (us ++ u ∷ us') ≡ none)
        ↔ ((with_hash h (us ++ us') ≡ none) × (bytes_eq u.token_hash h ≡ false))
  unfolding with_hash find?
  with_hash-middle h [] = ground arith
  with_hash-middle h (v ∷ us) = ground (arith, with_hash-middle h us)

  pub HashesDiffer-middle :
      (us : List User)
      → HashesDiffer (us ++ u ∷ us')
        ↔ (HashesDiffer (us ++ us') × (with_hash u.token_hash (us ++ us') ≡ none))
  unfolding with_hash find?
  HashesDiffer-middle [] = ground arith
  HashesDiffer-middle (v ∷ us) = ground (
    arith,
    HashesDiffer-middle us,
    with_hash-middle v.token_hash us,
    bytes_eq_iff v.token_hash u.token_hash,
    bytes_eq_iff u.token_hash v.token_hash,
  )

  with_hash-middle_self :
      (us : List User)
      → with_hash u.token_hash (us ++ us') ≡ none
      → with_hash u.token_hash (us ++ u ∷ us') ≡ some u
  unfolding with_hash find?
  with_hash-middle_self [] h = ground (arith, bytes_eq_iff u.token_hash u.token_hash)
  with_hash-middle_self (v ∷ us) h = ground (arith, with_hash-middle_self us)

  with_hash-middle_ne :
      (h : Bytes) (us : List User)
      → u.token_hash ≢ h
      → with_hash h (us ++ u ∷ us') ≡ with_hash h (us ++ us')
  unfolding with_hash find?
  with_hash-middle_ne h [] ne = ground (arith, bytes_eq_iff u.token_hash h)
  with_hash-middle_ne h (v ∷ us) ne = ground (arith, with_hash-middle_ne h us)

  module _ (sha256_hex : Bytes → Bytes) (us : List User) (token : Bytes) where
    -- The token of a user whose hash no other one has.
    pub lookup-middle_self :
        with_hash u.token_hash (us ++ us') ≡ none
        → sha256_hex token ≡ u.token_hash
        → lookup sha256_hex (us ++ u ∷ us') token ≡ unless_disabled u
    lookup-middle_self new same =
        lookup-hit sha256_hex (us ++ u ∷ us') token u
          (ap (λ h. with_hash h (us ++ u ∷ us')) same ∙ with_hash-middle_self us new) (sym same)

    -- Without the user, its token is not known.
    pub lookup-without :
        with_hash u.token_hash (us ++ us') ≡ none
        → sha256_hex token ≡ u.token_hash
        → lookup sha256_hex (us ++ us') token ≡ none
    lookup-without new same =
        lookup-miss sha256_hex (us ++ us') token (ap (λ h. with_hash h (us ++ us')) same ∙ new)

    -- Every other token means the same with and without the user.
    pub lookup-middle_ne :
        sha256_hex token ≢ u.token_hash
        → lookup sha256_hex (us ++ u ∷ us') token ≡ lookup sha256_hex (us ++ us') token
    unfolding lookup
    lookup-middle_ne ne =
        ap
          (λ o. elim o as (λ _. Option User) [
            | none ↦ if bytes_eq (sha256_hex token) zero_hash_hex then none else none
            | some v ↦ if bytes_eq (sha256_hex token) v.token_hash then unless_disabled v else none
          ])
          (with_hash-middle_ne (sha256_hex token) us (λ e. ne (sym e)))
