-- ===== src/Auth/Users.antt =====
-- What LoadUsersFile guarantees of the users that it accepts.
use tabby_sync.Common.{
  ℕ, ◌+◌, ℤ, pos, ltb_ℤ, eqb_ℤ, eqb_ℤ_iff, Bytes, bytes_eq, bytes_eq_iff, is_empty, true, false,
  Option, none, some, List, [], ◌∷◌, ◌++◌, map, ◌≡◌, ◌≢◌, refl, ◌∙◌, sym, ap, arith, All,
  All-append, Option-cases, inl, inr, find?, ◌↔◌,
}
use tabby_sync.Auth.Text.{is_hash}
use tabby_sync.Auth.{
  User, Invalid, Checked, valid, invalid, has_id, has_name, normalise, check_entry, validate_from,
  validate_and_normalise, with_hash, snapshot_from, new_user_snapshot,
}
use mathlib.Core.Path.{subst}
use mathlib.Core.List.{append-nil, append_assoc}

-- One accepted user: a positive id, a name, a prefix, and a hash of 64 lowercase hex digits.
pub record IsWellFormed (u : User) : Type 0 where
  pub positive : ltb_ℤ u.id (pos 1) ≡ false
  pub named : is_empty u.name ≡ false
  pub prefixed : is_empty u.token_prefix ≡ false
  pub hashed : is_hash u.token_hash ≡ true

-- No two users share an id or a name.
abbrev pub AreDistinct : List User → Type 0
AreDistinct [] = Unit
AreDistinct (u ∷ us) = (has_id u.id us ≡ false) × (has_name u.name us ≡ false) × AreDistinct us

has_id-snoc :
    (i : ℤ) (us : List User) (e : User)
    → has_id i us ≡ false
    → eqb_ℤ e.id i ≡ false
    → has_id i (us ++ e ∷ []) ≡ false
unfolding has_id
has_id-snoc i [] e h k = ground arith
has_id-snoc i (u ∷ us) e h k = ground (arith, has_id-snoc i us e)

has_name-snoc :
    (n : Bytes) (us : List User) (e : User)
    → has_name n us ≡ false
    → bytes_eq e.name n ≡ false
    → has_name n (us ++ e ∷ []) ≡ false
unfolding has_name
has_name-snoc n [] e h k = ground arith
has_name-snoc n (u ∷ us) e h k = ground (arith, has_name-snoc n us e)

pub AreDistinct-snoc :
    (us : List User) (e : User)
    → AreDistinct us
    → has_id e.id us ≡ false
    → has_name e.name us ≡ false
    → AreDistinct (us ++ e ∷ [])
unfolding has_id has_name
AreDistinct-snoc [] e h i n = (refl, refl, tt)
AreDistinct-snoc (u ∷ us) e (hi, hn, h) i n = (
  has_id-snoc u.id us e hi (ground (arith, eqb_ℤ_iff u.id e.id, eqb_ℤ_iff e.id u.id)),
  has_name-snoc u.name us e hn
      (ground (arith, bytes_eq_iff u.name e.name, bytes_eq_iff e.name u.name)),
  AreDistinct-snoc us e h (ground arith) (ground arith),
)

checked :
    (seen : List User) (e : User)
    → check_entry seen e ≡ none
    → IsWellFormed (normalise e)
      × (has_id (normalise e).id seen ≡ false)
      × (has_name (normalise e).name seen ≡ false)
unfolding check_entry
checked seen e h = (
  record {
    positive = ground arith;
    named = ground arith;
    prefixed = ground arith;
    hashed = ground arith;
  },
  ground arith,
  ground arith,
)

module _ (i : ℕ) (es : List User) where
  accepted :
      (o : Option Invalid) (rest : Checked (List User)) (us : List User)
      → (elim o as (λ _. Checked (List User)) [ none ↦ rest | some why ↦ invalid i why ]) ≡ valid us
      → (o ≡ none) × (rest ≡ valid us)
  accepted o rest us h = ground arith

validate_from-valid :
    (i : ℕ) (seen es us : List User)
    → All IsWellFormed seen
    → AreDistinct seen
    → validate_from i seen es ≡ valid us
    → (us ≡ seen ++ map normalise es) × All IsWellFormed us × AreDistinct us
unfolding validate_from
validate_from-valid i seen [] us w d h =
    let e : seen ≡ us = ground arith in
    (sym e ∙ sym (append-nil seen), subst (All IsWellFormed) e w, subst AreDistinct e d)
validate_from-valid i seen (e ∷ es) us w d h =
    let (passes, rest) = accepted i es (check_entry seen e) _ us h in
    let (wf, new_id, new_name) = checked seen e passes in
    let (same, ws, ds) =
      validate_from-valid (i + 1) (seen ++ normalise e ∷ []) es us
        (All-append IsWellFormed seen (normalise e ∷ []) w (wf, tt))
        (AreDistinct-snoc seen (normalise e) d new_id new_name) rest in
    (same ∙ append_assoc seen (normalise e ∷ []) (map normalise es), ws, ds)

-- If validateAndNormalise accepts a file, the users are its entries, normalised and in order; each
-- has a positive id, a name, a prefix and a hash of 64 lowercase hex digits, and no two share an id
-- or a name.
pub validate_and_normalise-valid :
    (es us : List User)
    → validate_and_normalise es ≡ valid us
    → (us ≡ map normalise es) × All IsWellFormed us × AreDistinct us
unfolding validate_and_normalise
validate_and_normalise-valid es us h = validate_from-valid 0 [] es us tt tt h

-- No two users share a token hash.
abbrev pub HashesDiffer : List User → Type 0
HashesDiffer [] = Unit
HashesDiffer (u ∷ us) = (with_hash u.token_hash us ≡ none) × HashesDiffer us

-- Each user's hash is new to the users before it.
abbrev Fresh : List User → List User → Type 0
Fresh ordered [] = Unit
Fresh ordered (u ∷ us) = (with_hash u.token_hash ordered ≡ none) × Fresh (ordered ++ u ∷ []) us

abbrev AllNew : List User → List User → Type 0
AllNew ordered us = All (λ u. with_hash u.token_hash ordered ≡ none) us

snapshot_from_iff :
    (ordered us : List User)
    → (Fresh ordered us → snapshot_from ordered us ≡ some (ordered ++ us))
      × (snapshot_from ordered us ≢ none → Fresh ordered us)
unfolding snapshot_from
snapshot_from_iff ordered [] = (λ _. ap some (sym (append-nil ordered)), λ _. tt)
snapshot_from_iff ordered (u ∷ us) =
    let (to, from) = snapshot_from_iff (ordered ++ u ∷ []) us in
    elim (Option-cases (with_hash u.token_hash ordered)) [
      | inl new ↦ (
        λ f. rw new (to f.1 ∙ ap some (append_assoc ordered (u ∷ []) us)),
        λ h. (new, from (rw new at h)),
      )
      | inr (v, old) ↦ (λ f. absurd (ground arith), λ h. absurd (h (rw old refl)))
    ]

pub with_hash-snoc :
    (h : Bytes) (us : List User) (u : User)
    → (with_hash h (us ++ u ∷ []) ≡ none)
      ↔ ((with_hash h us ≡ none) × (bytes_eq u.token_hash h ≡ false))
unfolding with_hash find?
with_hash-snoc h [] u = ground arith
with_hash-snoc h (v ∷ us) u = ground (arith, with_hash-snoc h us u)

with_hash-cons :
    (h : Bytes) (v : User) (us : List User)
    → (with_hash h (v ∷ us) ≡ none) ↔ ((bytes_eq v.token_hash h ≡ false) × (with_hash h us ≡ none))
unfolding with_hash find?
with_hash-cons h v us = ground arith

bytes_eq_sym : (a b : Bytes) → bytes_eq a b ≡ false → bytes_eq b a ≡ false
bytes_eq_sym a b h = ground (arith, bytes_eq_iff a b, bytes_eq_iff b a)

AllNew-snoc :
    (ordered us : List User) (u : User)
    → AllNew (ordered ++ u ∷ []) us ↔ (AllNew ordered us × (with_hash u.token_hash us ≡ none))
AllNew-snoc ordered [] u = (λ _. (tt, unfold with_hash find? in refl), λ _. tt)
AllNew-snoc ordered (v ∷ us) u =
    let (to, from) = AllNew-snoc ordered us u in
    let (fst, back) = with_hash-snoc v.token_hash ordered u in
    let (split, join) = with_hash-cons u.token_hash v us in
    (
      λ h.
          let (old, differ) = fst h.0 in
          let (olds, new) = to h.1 in
          ((old, olds), join (bytes_eq_sym u.token_hash v.token_hash differ, new)),
      λ h.
          let (differ, new) = split h.1 in
          (back (h.0.0, bytes_eq_sym v.token_hash u.token_hash differ), from (h.0.1, new)),
    )

Fresh-iff : (ordered us : List User) → Fresh ordered us ↔ (AllNew ordered us × HashesDiffer us)
Fresh-iff ordered [] = (λ _. (tt, tt), λ _. tt)
Fresh-iff ordered (u ∷ us) =
    let (to, from) = Fresh-iff (ordered ++ u ∷ []) us in
    let (split, join) = AllNew-snoc ordered us u in
    (
      λ h.
          let (news, differ) = to h.1 in
          let (olds, new) = split news in ((h.0, olds), (new, differ)),
      λ h. (h.0.0, from (join (h.0.1, h.1.0), h.1.1)),
    )

AllNew-nil : (us : List User) → AllNew [] us
AllNew-nil [] = tt
AllNew-nil (u ∷ us) = (unfold with_hash find? in refl, AllNew-nil us)

snapshot_cases :
    (us : List User)
    → (HashesDiffer us → new_user_snapshot us ≡ some us)
      × (¬ HashesDiffer us → new_user_snapshot us ≡ none)
unfolding new_user_snapshot
snapshot_cases us =
    let (to, from) = snapshot_from_iff [] us in
    let (split, join) = Fresh-iff [] us in
    (
      λ h. to (join (AllNew-nil us, h)),
      λ h. elim (Option-cases (snapshot_from [] us)) [
        | inl panics ↦ panics
        | inr (v, built) ↦ absurd (h (split (from (λ e. cc))).1)
      ],
    )

-- newUserSnapshot keeps all users, in order, exactly if no two share a token hash, and panics
-- exactly if two do.
pub new_user_snapshot_iff :
    (us : List User)
    → ((new_user_snapshot us ≡ some us) ↔ HashesDiffer us)
      × ((new_user_snapshot us ≡ none) ↔ (¬ HashesDiffer us))
new_user_snapshot_iff us =
    let (keeps, panics) = snapshot_cases us in
    let differ : new_user_snapshot us ≢ none → HashesDiffer us =
      λ h. ((Fresh-iff [] us).0 ((snapshot_from_iff [] us).1 (unfold new_user_snapshot in h))).1 in
    (
      (λ e. differ (λ n. absurd (ground arith)), keeps),
      (λ n d. absurd (ground (arith, keeps d)), panics),
    )

-- A snapshot that is built has all users, and no two of them share a hash.
pub new_user_snapshot-some :
    (us vs : List User) → new_user_snapshot us ≡ some vs → HashesDiffer us × (vs ≡ us)
new_user_snapshot-some us vs e =
    let built : new_user_snapshot us ≢ none = λ n. absurd (ground (arith, n, e)) in
    let differ =
      ((Fresh-iff [] us).0 ((snapshot_from_iff [] us).1 (unfold new_user_snapshot in built))).1 in
    let same = (new_user_snapshot_iff us).0.1 differ in (differ, cc (same, e))
