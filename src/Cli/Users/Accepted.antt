-- ===== src/Cli/Users/Accepted.antt =====
-- What the loader of internal/auth makes of a users file of which one entry is edited, as the `user`
-- commands of internal/cli/usercmd.go do.
use tabby_sync.Common.{
  Bytes, bytes_eq, bytes_eq_iff, false, List, [], ◌∷◌, ◌++◌, map, ◌≡◌, ◌≢◌, refl, sym, ◌∙◌, ap,
  arith, All, Bool-cases, inl, inr, ◌⊎◌,
}
use tabby_sync.Keys.{encode_hex}
use tabby_sync.Auth.{User, valid, has_id, has_name, normalise, validate_and_normalise}
use tabby_sync.Auth.Users.{IsWellFormed, AreDistinct}
use tabby_sync.Auth.Complete.{validate_and_normalise_iff}
use tabby_sync.Auth.Snapshots.{All-middle, AreDistinct-middle}
use mathlib.Core.Path.{subst}

-- The hex text of a SHA-256 sum, as Lookup takes it.
abbrev pub hex_sum : (Bytes → Bytes) → Bytes → Bytes
hex_sum sha256 token = encode_hex (sha256 token)

pub bytes_cases : (a b : Bytes) → (a ≡ b) ⊎ (a ≢ b)
bytes_cases a b = elim (Bool-cases (bytes_eq a b)) [
  | inl same ↦ inl ((bytes_eq_iff a b).0 same)
  | inr differ ↦ inr (λ e. absurd (ground (arith, differ, (bytes_eq_iff a b).1 e)))
]

pub normalise-append :
    (us vs : List User) → map normalise (us ++ vs) ≡ map normalise us ++ map normalise vs
normalise-append [] vs = refl
normalise-append (u ∷ us) vs = ap (λ ws. normalise u ∷ ws) (normalise-append us vs)

-- What the loader makes of entries of which one is at an index.
module _ (us : List User) (u : User) (us' : List User) where
  pub accepted_parts :
      (vs : List User)
      → validate_and_normalise (us ++ u ∷ us') ≡ valid vs
      → let rest = map normalise us ++ map normalise us' in
        (vs ≡ map normalise us ++ normalise u ∷ map normalise us')
        × All IsWellFormed rest
        × IsWellFormed (normalise u)
        × AreDistinct rest
        × (has_id (normalise u).id rest ≡ false)
        × (has_name (normalise u).name rest ≡ false)
  accepted_parts vs e =
      let (same, wf, distinct) = (validate_and_normalise_iff (us ++ u ∷ us') vs).0 e in
      let split = same ∙ normalise-append us (u ∷ us') in
      let (wfs, wfu) =
        (All-middle IsWellFormed (map normalise us) (normalise u) (map normalise us')).0
          (subst (All IsWellFormed) split wf) in
      let (ds, ids, names) =
        (AreDistinct-middle (normalise u) (map normalise us') (map normalise us)).0
          (subst AreDistinct split distinct) in
      (split, wfs, wfu, ds, ids, names)

  pub accepted_whole :
      let rest = map normalise us ++ map normalise us' in
      All IsWellFormed rest
      → IsWellFormed (normalise u)
      → AreDistinct rest
      → has_id (normalise u).id rest ≡ false
      → has_name (normalise u).name rest ≡ false
      → validate_and_normalise (us ++ u ∷ us') ≡ valid (map normalise (us ++ u ∷ us'))
  accepted_whole wfs wfu ds ids names =
      let split = sym (normalise-append us (u ∷ us')) in
      (validate_and_normalise_iff (us ++ u ∷ us') (map normalise (us ++ u ∷ us'))).1 (
        refl,
        subst (All IsWellFormed) split (
            (All-middle IsWellFormed (map normalise us) (normalise u) (map normalise us')).1
              (wfs, wfu)),
        subst AreDistinct split (
            (AreDistinct-middle (normalise u) (map normalise us') (map normalise us)).1
              (ds, ids, names)),
      )

  pub accepted_rest :
      let rest = map normalise us ++ map normalise us' in
      All IsWellFormed rest
      → AreDistinct rest
      → validate_and_normalise (us ++ us') ≡ valid (map normalise (us ++ us'))
  accepted_rest wfs ds =
      let split = sym (normalise-append us us') in
      (validate_and_normalise_iff (us ++ us') (map normalise (us ++ us'))).1
        (refl, subst (All IsWellFormed) split wfs, subst AreDistinct split ds)
