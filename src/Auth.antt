-- ===== src/Auth.antt =====
-- internal/auth/users.go, store.go and middleware.go: users, the token snapshot and its lookup.
pub mod Text
pub mod Trimming
pub mod Users
pub mod Complete
pub mod Loading
pub mod Tokens
pub mod Snapshots
use tabby_sync.Common.{
  ℕ, ◌+◌, ℤ, pos, ltb_ℤ, eqb_ℤ, Bytes, lit, bytes_eq, is_empty, Bool, true, false, not, ◌&&◌, ◌||◌,
  Option, none, some, List, [], ◌∷◌, ◌++◌, length, find?, ltb, leb, ◌==◌, if◌then◌else◌, take, drop,
  is_some,
}
use Text.{trim_space, to_lower, is_hash, has_any_space, equal_fold}

-- A User's fields; a userEntry of the YAML file has the same ones.
pub record User : Type 0 where
  pub id : ℤ
  pub name : Bytes
  pub token_prefix : Bytes
  pub token_hash : Bytes
  pub disabled : Bool

-- Why a users file is refused.
pub data Invalid : Type 0 where
  id_not_positive id_duplicated name_empty name_duplicated prefix_empty hash_malformed : Invalid

pub data Checked {ℓ} (A : Type ℓ) : Type ℓ where
  valid : A → Checked A
  invalid : ℕ → Invalid → Checked A

unfoldable pub has_id : ℤ → List User → Bool
has_id id [] = false
has_id id (u ∷ us) = eqb_ℤ u.id id || has_id id us

unfoldable pub has_name : Bytes → List User → Bool
has_name name [] = false
has_name name (u ∷ us) = bytes_eq u.name name || has_name name us

-- The record that an entry becomes.
unfoldable pub normalise : User → User
normalise e = record {
  id = e.id;
  name = trim_space e.name;
  token_prefix = trim_space e.token_prefix;
  token_hash = to_lower (trim_space e.token_hash);
  disabled = e.disabled;
}

-- The checks of one entry, in the order of the source, against the users accepted so far.
unfoldable pub check_entry : List User → User → Option Invalid
unfolding normalise
check_entry seen e =
    let u = normalise e in
    if ltb_ℤ u.id (pos 1)
    then some id_not_positive
    else if has_id u.id seen
    then some id_duplicated
    else if is_empty u.name
    then some name_empty
    else if has_name u.name seen
    then some name_duplicated
    else if is_empty u.token_prefix
    then some prefix_empty
    else if is_hash u.token_hash
    then none
    else some hash_malformed

-- The loop of validateAndNormalise; `i` is the index of the entry.
unfoldable pub validate_from : ℕ → List User → List User → Checked (List User)
unfolding check_entry
validate_from i seen [] = valid seen
validate_from i seen (e ∷ es) =
    let rest = validate_from (i + 1) (seen ++ normalise e ∷ []) es in
    elim (check_entry seen e) [ none ↦ rest | some why ↦ invalid i why ]

unfoldable pub validate_and_normalise : List User → Checked (List User)
unfolding validate_from
validate_and_normalise entries = validate_from 0 [] entries

-- The snapshot's map: `none` is the panic on a duplicate hash.
unfoldable pub with_hash : Bytes → List User → Option User
with_hash hash us = find? (λ u. bytes_eq u.token_hash hash) us

-- newUserSnapshot's loop: the accepted users in order; `none` is its panic.
unfoldable pub snapshot_from : List User → List User → Option (List User)
unfolding with_hash
snapshot_from ordered [] = some ordered
snapshot_from ordered (u ∷ us) =
    let rest = snapshot_from (ordered ++ u ∷ []) us in
    if is_some (with_hash u.token_hash ordered) then none else rest

unfoldable pub new_user_snapshot : List User → Option (List User)
unfolding snapshot_from
new_user_snapshot us = snapshot_from [] us

-- zeroHashHex: 64 zero digits.
unfoldable pub zero_hash_hex : Bytes
zero_hash_hex = lit "0000000000000000000000000000000000000000000000000000000000000000"

abbrev pub unless_disabled : User → Option User
unless_disabled u = if u.disabled then none else some u

-- The token of an Authorization header, if it has the right form.
unfoldable pub bearer_token : Bytes → Option Bytes
bearer_token authz =
    if ltb (length authz) 7
    then none
    else if not (equal_fold (take 7 authz) (lit "Bearer "))
    then none
    else (let token = drop 7 authz in
        if is_empty token || has_any_space token then none else some token)

module _ (sha256_hex : Bytes → Bytes) where
  -- Lookup: `none` is ErrUnauthorized. The comparison is made on the hit and on the miss path.
  unfoldable pub lookup : List User → Bytes → Option User
  lookup snap token =
      let hash = sha256_hex token in
      elim (with_hash hash snap) [
        | none ↦ if bytes_eq hash zero_hash_hex then none else none
        | some u ↦ if bytes_eq hash u.token_hash then unless_disabled u else none
      ]

  -- Bearer: the user that the wrapped handler gets, or `none` for the 401 response.
  unfoldable pub bearer : List User → Bytes → Option User
  unfolding bearer_token
  bearer snap authz = elim (bearer_token authz) [ none ↦ none | some token ↦ lookup snap token ]
