-- ===== src/Sqlite/Contract/Listing.antt =====
-- ListConfigsByUser, CountConfigsByUser and DeleteConfig when no driver call fails.
use tabby_sync.Common.{
  ℕ, ◌<◌, ℤ, pos, eqb_ℤ_iff, Bool, true, not, none, List, [], ◌∷◌, ◌≡◌, refl, arith, filter, find?,
  length, All, Bool-cases, inl, inr, ◌↔◌, is_some, if◌then◌else◌, ◌≤◌, ◌∙◌,
}
use tabby_sync.Store.{Time, Config, ok, err, config_not_found}
use tabby_sync.Sqlite.Driver.{Row, Db, healthy, call}
use tabby_sync.Sqlite.{
  owned, addressed, build_config, scan_config, scan_all, select_rows, delete_rows,
  list_configs_by_user, delete_config, count_configs_by_user,
}
use tabby_sync.Sqlite.Invariant.{IsSound, Ids, IsReadable}
use tabby_sync.Sqlite.Contract.{read, read-find_none}

pub list_configs_by_user_run :
    (now : ℕ → Time) (u : ℤ) (db : Db)
    → (list_configs_by_user (healthy now) u db).0 ≡ scan_all (filter (owned u) db.rows)
unfolding list_configs_by_user call select_rows
list_configs_by_user_run now u db = ground arith

pub count_configs_by_user_run :
    (now : ℕ → Time) (u : ℤ) (db : Db)
    → (count_configs_by_user (healthy now) u db).0 ≡ ok (length (filter (owned u) db.rows))
unfolding count_configs_by_user call select_rows
count_configs_by_user_run now u db = ground arith

-- With DeleteConfig no driver call fails either.
pub delete_config_run :
    (now : ℕ → Time) (u id : ℤ) (db : Db)
    → (delete_config (healthy now) u id db).1.rows ≡ filter (λ r. not (addressed u id r)) db.rows
unfolding delete_config call delete_rows
delete_config_run now u id db = ground arith

-- After DeleteConfig, GetConfig does not find the row.
find?-filter-not : (p : Row → Bool) (rs : List Row) → find? p (filter (λ r. not (p r)) rs) ≡ none
unfolding find? filter
find?-filter-not p [] = refl
find?-filter-not p (r ∷ rs) = ground (arith, find?-filter-not p rs)

scan_readable : (r : Row) → IsReadable r → (c : Config) × (scan_config r ≡ ok c) × (c.id ≡ r.id)
unfolding scan_config
scan_readable r (c, m, ec, em) = (build_config r c m, rw (ec, em, scan_config), refl)

scan_all-cons :
    (r : Row) (rs : List Row) (c : Config) (cs : List Config)
    → scan_config r ≡ ok c
    → scan_all rs ≡ ok cs
    → scan_all (r ∷ rs) ≡ ok (c ∷ cs)
unfolding scan_all
scan_all-cons r rs c cs e es = ground arith

module _ (u : ℤ) where
  -- The ids ascend from above `lo`, and GetConfig returns the same for each of them.
  abbrev pub Listed : List Row → ℕ → List Config → Type 0
  Listed rs lo [] = Unit
  Listed rs lo (c ∷ cs) =
      (k : ℕ) × (c.id ≡ pos k) × (lo < k) × (read u c.id rs ≡ ok c) × Listed rs k cs

  read-cons :
      (r : Row) (rs : List Row) (n k : ℕ) (c : Config)
      → r.id ≡ pos n
      → c.id ≡ pos k
      → n < k
      → read u c.id rs ≡ ok c
      → read u c.id (r ∷ rs) ≡ ok c
  unfolding read find? addressed
  read-cons r rs n k c er ec lt h = ground (arith, eqb_ℤ_iff r.id c.id)

  Listed-cons :
      (r : Row) (rs : List Row) (n lo : ℕ) (cs : List Config)
      → r.id ≡ pos n
      → n ≤ lo
      → Listed rs lo cs
      → Listed (r ∷ rs) lo cs
  Listed-cons r rs n lo [] er le h = tt
  Listed-cons r rs n lo (c ∷ cs) er le (k, ec, lt, e, h) = (
    k,
    ec,
    lt,
    read-cons r rs n k c er ec (omega arith) e,
    Listed-cons r rs n k cs er (omega arith) h,
  )

  Listed-weaken :
      (rs : List Row) (lo lo' : ℕ) (cs : List Config)
      → lo ≤ lo'
      → Listed rs lo' cs
      → Listed rs lo cs
  Listed-weaken rs lo lo' [] le h = tt
  Listed-weaken rs lo lo' (c ∷ cs) le (k, ec, lt, e, h) = (k, ec, omega arith, e, h)

  read-head :
      (r : Row) (rs : List Row) (c : Config)
      → owned u r ≡ true
      → scan_config r ≡ ok c
      → c.id ≡ r.id
      → read u c.id (r ∷ rs) ≡ ok c
  unfolding read find? addressed owned
  read-head r rs c o e i = ground (arith, eqb_ℤ_iff r.id c.id)

  scan_all-Listed :
      (lo hi : ℕ) (rs : List Row)
      → Ids lo hi rs
      → All IsReadable rs
      → (cs : List Config) × (scan_all (filter (owned u) rs) ≡ ok cs)
        × (length cs ≡ length (filter (owned u) rs))
        × Listed rs lo cs
  unfolding scan_all filter
  scan_all-Listed lo hi [] h q = ([], refl, refl, tt)
  scan_all-Listed lo hi (r ∷ rs) (n, e, lt, h) (q, qs) =
      let (cs, scanned, len, listed) = scan_all-Listed n hi rs h qs in
      let later = Listed-cons r rs n n cs e (omega arith) listed in
      elim (Bool-cases (owned u r)) [
        | inl mine ↦
            let (c, sc, same) = scan_readable r q in
            (
              c ∷ cs,
              rw mine (scan_all-cons r (filter (owned u) rs) c cs sc scanned),
              rw (mine, len),
              (n, same ∙ e, lt, read-head r rs c mine sc same, later),
            )
        | inr other ↦
            (cs, rw other scanned, rw other len, Listed-weaken (r ∷ rs) lo n cs (omega arith) later)
      ]

-- On a sound table with no failing driver call ListConfigsByUser succeeds, in ascending order of
-- ids; its length is what CountConfigsByUser returns, and each element is what GetConfig reads
-- under its id.
pub list-get-count :
    (now : ℕ → Time) (u : ℤ) (db : Db)
    → IsSound db
    → (cs : List Config) × ((list_configs_by_user (healthy now) u db).0 ≡ ok cs)
      × ((count_configs_by_user (healthy now) u db).0 ≡ ok (length cs))
      × Listed u db.rows 0 cs
list-get-count now u db s =
    let (cs, scanned, len, listed) = scan_all-Listed u 0 db.seq db.rows s.ids s.stamps in
    (
      cs,
      list_configs_by_user_run now u db ∙ scanned,
      count_configs_by_user_run now u db ∙ rw len,
      listed,
    )

find?-none_iff : (p : Row → Bool) (rs : List Row) → (length (filter p rs) ≡ 0) ↔ (find? p rs ≡ none)
unfolding find? filter
find?-none_iff p [] = ground arith
find?-none_iff p (r ∷ rs) = ground (arith, find?-none_iff p rs)

-- If no driver call fails, DeleteConfig succeeds exactly if the row is there and returns
-- ErrConfigNotFound otherwise; GetConfig does not find the row afterwards, and every row that is
-- not addressed is kept, in order.
pub delete_lem :
    (now : ℕ → Time) (u id : ℤ) (db : Db)
    → ((delete_config (healthy now) u id db).0
        ≡ (if is_some (find? (addressed u id) db.rows) then ok tt else err config_not_found))
      × (read u id (delete_config (healthy now) u id db).1.rows ≡ err config_not_found)
      × ((delete_config (healthy now) u id db).1.rows
          ≡ filter (λ r. not (addressed u id r)) db.rows)
unfolding delete_config call delete_rows
delete_lem now u id db = (
  ground (arith, find?-none_iff (addressed u id) db.rows),
  rw (delete_config_run now u id db)
      (read-find_none u id _ (find?-filter-not (addressed u id) db.rows)),
  delete_config_run now u id db,
)
