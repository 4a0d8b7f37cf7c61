-- ===== src/Cli/Users/Entries.antt =====
-- The edits of the users file: findUser, and what the `user` commands of internal/cli/usercmd.go make
-- of entries that the server accepts.
use tabby_sync.Common.{
  ℕ, ℤ, eqb_ℤ, eqb_ℤ_iff, Bytes, true, false, Bool, Option, none, some, List, [], ◌∷◌, ◌++◌, length,
  ◌≡◌, refl, sym, ◌∙◌, ap, arith, All, Bool-cases, Option-cases, inl, inr, ◌⊎◌,
}
use tabby_sync.Files.{goes_on}
use tabby_sync.Auth.{User}
use tabby_sync.Auth.Text.{equal_fold}
use tabby_sync.Api.{parse_int}
use tabby_sync.Cli.Users.{
  Token, next_id, index_where, index_of_id, find_user, name_is_taken, remove_at, with_token,
  set_token_at, new_user, generate_token, add_user, remove_user, rotate_user,
}
use mathlib.Core.Path.{subst}

-- The entries before, at and behind an index.
pub record Split (us : List User) (i : ℕ) : Type 0 where
  pub before : List User
  pub at : User
  pub behind : List User
  pub whole : us ≡ before ++ at ∷ behind
  pub index : length before ≡ i

-- The first entry that passes a test, with none before it that does.
index_where-some :
    (p : User → Bool) (us : List User) (i : ℕ)
    → index_where p us ≡ some i
    → (s : Split us i) × (p s.at ≡ true) × All (λ u. p u ≡ false) s.before
unfolding index_where
index_where-some p [] i e = absurd (cc)
index_where-some p (u ∷ us) i e = elim (Bool-cases (p u)) [
  | inl hit ↦
      (record { before = []; at = u; behind = us; whole = refl; index = ground arith }, hit, tt)
  | inr miss ↦ elim (Option-cases (index_where p us)) [
    | inl nowhere ↦ absurd (ground arith)
    | inr (j, found) ↦
        let (s, hit, misses) = index_where-some p us j found in
        (
          record {
            before = u ∷ s.before;
            at = s.at;
            behind = s.behind;
            whole = ap (λ vs. u ∷ vs) s.whole;
            index = ground (arith, s.index);
          },
          hit,
          (miss, misses),
        )
  ]
]

index_where-none :
    (p : User → Bool) (us : List User) → index_where p us ≡ none → All (λ u. p u ≡ false) us
unfolding index_where
index_where-none p [] e = tt
index_where-none p (u ∷ us) e = elim (Bool-cases (p u)) [
  | inl hit ↦ absurd (ground arith)
  | inr miss ↦ elim (Option-cases (index_where p us)) [
    | inl nowhere ↦ (miss, index_where-none p us nowhere)
    | inr (j, found) ↦ absurd (ground arith)
  ]
]

-- No entry has the number as its id, if the target is a number at all.
abbrev pub NoId : Option ℤ → List User → Type 0
NoId none us = Unit
NoId (some id) us = All (λ u. eqb_ℤ u.id id ≡ false) us

abbrev pub NoName : Bytes → List User → Type 0
NoName name us = All (λ u. equal_fold u.name name ≡ false) us

index_of_id-some :
    (o : Option ℤ) (us : List User) (i : ℕ)
    → index_of_id o us ≡ some i
    → (s : Split us i) × (o ≡ some s.at.id)
unfolding index_of_id
index_of_id-some none us i e = absurd (cc)
index_of_id-some (some id) us i e =
    let (s, hit, misses) = index_where-some (λ u. eqb_ℤ u.id id) us i e in
    (s, ap some (sym ((eqb_ℤ_iff s.at.id id).0 hit)))

index_of_id-none : (o : Option ℤ) (us : List User) → index_of_id o us ≡ none → NoId o us
unfolding index_of_id
index_of_id-none none us e = tt
index_of_id-none (some id) us e = index_where-none (λ u. eqb_ℤ u.id id) us e

-- findUser gives -1 exactly if no entry has the target as its id or, but for case, as its name.
-- Otherwise it gives the index of an entry: of one whose id is the target, or, if no entry has the
-- target as its id, of the first one whose name equals the target but for case.
pub find_user-Finds :
    (us : List User) (target : Bytes)
    → ((find_user us target ≡ none) × NoId (parse_int target) us × NoName target us)
      ⊎ ((i : ℕ) × (find_user us target ≡ some i)
          × (s : Split us i) × ((parse_int target ≡ some s.at.id)
              ⊎ (NoId (parse_int target) us
                  × (equal_fold s.at.name target ≡ true)
                  × NoName target s.before)))
unfolding find_user
find_user-Finds us target = elim (Option-cases (index_of_id (parse_int target) us)) [
  | inr (i, found) ↦
      let (s, same) = index_of_id-some (parse_int target) us i found in
      inr (i, ground arith, s, inl same)
  | inl no_id ↦ elim (Option-cases (index_where (λ u. equal_fold u.name target) us)) [
    | inl no_name ↦ inl (
      ground arith,
      index_of_id-none (parse_int target) us no_id,
      index_where-none (λ u. equal_fold u.name target) us no_name,
    )
    | inr (i, found) ↦
        let (s, hit, misses) = index_where-some (λ u. equal_fold u.name target) us i found in
        inr (i, ground arith, s, inr (index_of_id-none (parse_int target) us no_id, hit, misses))
  ]
]

-- The entry that a target names, if findUser gives an index.
pub find_user-Split :
    (us : List User) (target : Bytes) (i : ℕ) → find_user us target ≡ some i → Split us i
find_user-Split us target i e = elim (find_user-Finds us target) [
  | inl (nowhere, rest, names) ↦ absurd (cc)
  | inr (j, found, s, rest) ↦ subst (Split us) (cc) s
]

remove_at-length :
    (us : List User) (u : User) (vs : List User) → remove_at (length us) (us ++ u ∷ vs) ≡ us ++ vs
unfolding remove_at
remove_at-length [] u vs = refl
remove_at-length (v ∷ us) u vs = ap (λ ws. v ∷ ws) (remove_at-length us u vs)

set_token_at-length :
    (t : Token) (us : List User) (u : User) (vs : List User)
    → set_token_at t (length us) (us ++ u ∷ vs) ≡ us ++ with_token t u ∷ vs
unfolding set_token_at
set_token_at-length t [] u vs = refl
set_token_at-length t (v ∷ us) u vs = ap (λ ws. v ∷ ws) (set_token_at-length t us u vs)

-- `user rm` takes out one entry, and leaves the others in order.
pub remove_user-goes_on :
    (target : Bytes) (sure : Bool) (us us' : List User)
    → remove_user target sure us ≡ goes_on us'
    → (i : ℕ) × (find_user us target ≡ some i)
      × (s : Split us i) × (us' ≡ s.before ++ s.behind)
      × (sure ≡ true)
unfolding remove_user
remove_user-goes_on target true us us' e = elim (Option-cases (find_user us target)) [
  | inl nowhere ↦ absurd (ground arith)
  | inr (i, found) ↦
      let s = find_user-Split us target i found in
      let removed : remove_at i us ≡ us' = ground arith in
      let at : remove_at i us ≡ remove_at (length s.before) (s.before ++ s.at ∷ s.behind) =
        ap (λ j. remove_at j us) (sym s.index) ∙ ap (remove_at (length s.before)) s.whole in
      (i, found, s, sym removed ∙ (at ∙ remove_at-length s.before s.at s.behind), refl)
]
remove_user-goes_on target false us us' e = elim (Option-cases (find_user us target)) [
  | inl nowhere ↦ absurd (ground arith)
  | inr (i, found) ↦ absurd (ground arith)
]

-- `user rotate` gives one entry a new hash and prefix, and leaves the others.
pub rotate_user-goes_on :
    (sha256 : Bytes → Bytes) (target random : Bytes) (us us' : List User)
    → rotate_user sha256 target (some random) us ≡ goes_on us'
    → (i : ℕ) × (find_user us target ≡ some i)
      × (s : Split us i) × (us'
          ≡ s.before ++ with_token (generate_token sha256 random) s.at ∷ s.behind)
unfolding rotate_user
rotate_user-goes_on sha256 target random us us' e = elim (Option-cases (find_user us target)) [
  | inl nowhere ↦ absurd (ground arith)
  | inr (i, found) ↦
      let s = find_user-Split us target i found in
      let t = generate_token sha256 random in
      let rotated : set_token_at t i us ≡ us' = ground arith in
      let at : set_token_at t i us
          ≡ set_token_at t (length s.before) (s.before ++ s.at ∷ s.behind) =
        ap (λ j. set_token_at t j us) (sym s.index)
        ∙ ap (set_token_at t (length s.before)) s.whole in
      (i, found, s, sym rotated ∙ (at ∙ set_token_at-length t s.before s.at s.behind))
]

-- `user add` appends one entry, whose name no entry has but for case.
pub add_user-goes_on :
    (sha256 : Bytes → Bytes) (name random : Bytes) (us us' : List User)
    → add_user sha256 name (some random) us ≡ goes_on us'
    → (us' ≡ us ++ new_user (next_id us) name (generate_token sha256 random) ∷ [])
      × (name_is_taken name us ≡ false)
unfolding add_user
add_user-goes_on sha256 name random us us' e = elim (Bool-cases (name_is_taken name us)) [
  | inl taken ↦ absurd (ground arith)
  | inr free ↦ (ground arith, free)
]
