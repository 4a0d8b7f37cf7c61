-- ===== src/Sqlite/Rows.antt =====
-- Lemmas on the statements' WHERE clauses: rows that no clause hits, and the row that one hits.
use tabby_sync.Common.{
  ℕ, ◌<◌, ◌≤◌, ℤ, pos, eqb_ℤ_iff, Bool, true, false, some, List, [], ◌∷◌, ◌++◌, ◌≡◌, refl, arith,
  filter, find?, none, All, Bool-cases, inl, inr,
}
use tabby_sync.Sqlite.Driver.{Row}
use tabby_sync.Sqlite.{addressed, update_where}
use tabby_sync.Sqlite.Invariant.{Ids}

module _ (p : Row → Bool) where
  -- No row of the list is hit.
  abbrev pub Misses : List Row → Type 0
  Misses rs = All (λ r. p r ≡ false) rs

  pub update_where-miss :
      (f : Row → Row) (rs ss : List Row)
      → Misses rs
      → update_where p f (rs ++ ss) ≡ rs ++ update_where p f ss
  unfolding update_where
  update_where-miss f [] ss h = refl
  update_where-miss f (r ∷ rs) ss (m, h) = rw (m, update_where-miss f rs ss h)

  pub filter-miss : (rs ss : List Row) → Misses rs → filter p (rs ++ ss) ≡ filter p ss
  unfolding filter
  filter-miss [] ss h = refl
  filter-miss (r ∷ rs) ss (m, h) = rw (m, filter-miss rs ss h)

  pub find?-miss : (rs ss : List Row) → Misses rs → find? p (rs ++ ss) ≡ find? p ss
  unfolding find?
  find?-miss [] ss h = refl
  find?-miss (r ∷ rs) ss (m, h) = rw (m, find?-miss rs ss h)

  -- The first row that is hit is the one that was, updated.
  pub find?-update_where :
      (f : Row → Row) (rs : List Row)
      → ((r : Row) → p (f r) ≡ p r)
      → (r : Row) → find? p rs ≡ some r
      → find? p (update_where p f rs) ≡ some (f r)
  unfolding find? update_where
  find?-update_where f [] k r e = ground arith
  find?-update_where f (s ∷ rs) k r e = elim (Bool-cases (p s)) [
    | inl hit ↦ ground (arith, k s)
    | inr miss ↦ ground (arith, find?-update_where f rs k r (ground arith))
  ]

  pub find?-update_where-none :
      (f : Row → Row) (rs : List Row)
      → ((r : Row) → p (f r) ≡ p r)
      → find? p (update_where p f rs) ≡ none
      → find? p rs ≡ none
  unfolding find? update_where
  find?-update_where-none f [] k e = refl
  find?-update_where-none f (s ∷ rs) k e = ground (arith, k s, find?-update_where-none f rs k)

  pub find?-hit : (rs : List Row) (r : Row) → find? p rs ≡ some r → p r ≡ true
  unfolding find?
  find?-hit [] r e = ground arith
  find?-hit (s ∷ rs) r e = elim (Bool-cases (p s)) [
    | inl hit ↦ ground arith
    | inr miss ↦ find?-hit rs r (ground arith)
  ]

past : (lo hi : ℕ) (rs : List Row) → Ids lo hi rs → lo ≤ hi
past lo hi [] h = h
past lo hi (r ∷ rs) (n, e, lt, h) = omega (arith, past n hi rs h)

-- No row has an id past the counter.
pub Ids-fresh :
    (u : ℤ) (lo hi n : ℕ) (rs : List Row) → Ids lo hi rs → hi < n → Misses (addressed u (pos n)) rs
unfolding addressed
Ids-fresh u lo hi n [] h lt = tt
Ids-fresh u lo hi n (r ∷ rs) (m, e, l, h) lt =
    (ground (arith, past m hi rs h, eqb_ℤ_iff r.id (pos n)), Ids-fresh u m hi n rs h lt)

pub addressed_iff : (u id : ℤ) (r : Row) → addressed u id r ≡ true → (r.id ≡ id) × (r.user_id ≡ u)
unfolding addressed
addressed_iff u id r h = ground (arith, eqb_ℤ_iff r.id id, eqb_ℤ_iff r.user_id u)
