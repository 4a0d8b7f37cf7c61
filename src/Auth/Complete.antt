-- ===== src/Auth/Complete.antt =====
-- Which users files validateAndNormalise accepts.
use tabby_sync.Common.{
  ℕ, ◌+◌, ℤ, Bytes, false, none, some, List, [], ◌∷◌, ◌++◌, map, ◌≡◌, refl, sym, ◌∙◌, ap, arith,
  All, bytes_eq, bytes_eq_iff, eqb_ℤ, eqb_ℤ_iff, ◌↔◌,
}
use tabby_sync.Auth.{
  User, Checked, valid, invalid, has_id, has_name, normalise, check_entry, validate_from,
  validate_and_normalise,
}
use tabby_sync.Auth.Users.{IsWellFormed, AreDistinct, validate_and_normalise-valid}
use mathlib.Core.Path.{subst}
use mathlib.Core.List.{append-nil, append_assoc}

-- A user that follows others has neither an id nor a name of theirs.
AreDistinct-middle :
    (us : List User) (v : User) (vs : List User)
    → AreDistinct (us ++ v ∷ vs)
    → (has_id v.id us ≡ false) × (has_name v.name us ≡ false)
unfolding has_id has_name
AreDistinct-middle [] v vs d = (refl, refl)
AreDistinct-middle (u ∷ us) v vs (i, n, d) =
    let (ids, names) = AreDistinct-middle us v vs d in
    (
      ground (arith, has_id-middle u.id us v vs i, ids, eqb_ℤ_iff u.id v.id, eqb_ℤ_iff v.id u.id),
      ground (
        arith,
        has_name-middle u.name us v vs n,
        names,
        bytes_eq_iff u.name v.name,
        bytes_eq_iff v.name u.name,
      ),
    )
  where
    has_id-middle :
        (i : ℤ) (us : List User) (v : User) (vs : List User)
        → has_id i (us ++ v ∷ vs) ≡ false
        → eqb_ℤ v.id i ≡ false
    has_id-middle i [] v vs h = ground arith
    has_id-middle i (u ∷ us) v vs h = has_id-middle i us v vs (ground arith)

    has_name-middle :
        (n : Bytes) (us : List User) (v : User) (vs : List User)
        → has_name n (us ++ v ∷ vs) ≡ false
        → bytes_eq v.name n ≡ false
    has_name-middle n [] v vs h = ground arith
    has_name-middle n (u ∷ us) v vs h = has_name-middle n us v vs (ground arith)

passes :
    (seen : List User) (e : User)
    → IsWellFormed (normalise e)
    → has_id (normalise e).id seen ≡ false
    → has_name (normalise e).name seen ≡ false
    → check_entry seen e ≡ none
unfolding check_entry
passes seen e wf i n = ground (arith, wf.positive, wf.named, wf.prefixed, wf.hashed)

validate_from_complete :
    (i : ℕ) (seen es : List User)
    → All IsWellFormed (map normalise es)
    → AreDistinct (seen ++ map normalise es)
    → validate_from i seen es ≡ valid (seen ++ map normalise es)
unfolding validate_from
validate_from_complete i seen [] w d = ap valid (sym (append-nil seen))
validate_from_complete i seen (e ∷ es) (wf, w) d =
    let (new_id, new_name) = AreDistinct-middle seen (normalise e) (map normalise es) d in
    let same = append_assoc seen (normalise e ∷ []) (map normalise es) in
    ap
      (λ o. elim o as (λ _. Checked (List User)) [
        | none ↦ validate_from (i + 1) (seen ++ normalise e ∷ []) es
        | some why ↦ invalid i why
      ])
      (passes seen e wf new_id new_name)
    ∙ (validate_from_complete (i + 1) (seen ++ normalise e ∷ []) es w
          (subst AreDistinct (sym same) d)
        ∙ ap valid same)

-- validateAndNormalise accepts a file exactly if its normalised entries each have a positive id, a
-- name, a prefix and a hash of 64 lowercase hex digits, and no two of them share an id or a name;
-- the users then are the normalised entries, in order.
pub validate_and_normalise_iff :
    (es us : List User)
    → (validate_and_normalise es ≡ valid us)
      ↔ ((us ≡ map normalise es) × All IsWellFormed us × AreDistinct us)
validate_and_normalise_iff es us = (
  validate_and_normalise-valid es us,
  λ h.
      let (same, wf, distinct) = h in
      unfold validate_and_normalise in
      (validate_from_complete 0 [] es (subst (All IsWellFormed) same wf)
          (subst AreDistinct same distinct)
        ∙ ap valid (sym same)),
)
