-- ===== src/Sqlite/Contract/Update.antt =====
-- UpdateConfig when no driver call fails.
use tabby_sync.Common.{
  ℕ, ◌+◌, ◌<◌, ℤ, true, false, Option, none, some, List, ◌≡◌, refl, arith, find?, if◌then◌else◌,
  is_some, ◌≢◌, sym, ap, is_empty, ◌⊎◌, inl, inr, Bool-cases, ◌∙◌, [], ◌∷◌, or_else,
}
use tabby_sync.Store.{Time, UpdateConfigPatch, err, config_changed, Config, ok}
use tabby_sync.Sqlite.Driver.{Row, at, Db, healthy, call, now_fn}
use tabby_sync.Sqlite.{
  addressed, scan_config, parse_stamp, get_config, with_rollback, update_rows, select_row,
  next_modified_at, patch_is_valid, update_config, update_in_tx, update_stamp, write_patch,
  has_clauses, apply_patch, update_where, expects, build_config, from_null, null_if_empty,
  or_not_found,
}
use tabby_sync.Sqlite.Rows.{find?-update_where, addressed_iff}
use tabby_sync.Sqlite.Contract.{read, read-find, later, lt-later, get_config-read}

-- UpdateConfig's UPDATE statement.
unfoldable pub rows_after : ℤ → ℤ → UpdateConfigPatch → List Row → Option Time → List Row
rows_after u id p rows t = update_where (addressed u id) (apply_patch p t) rows

-- The row's configuration with what the patch gives, each field by name.
abbrev pub patched_config : UpdateConfigPatch → Row → Time → Time → Config
patched_config p r created modified = record {
  id = r.id;
  user_id = r.user_id;
  name = or_else p.name r.name;
  content_ciphertext =
      if is_empty p.content_ciphertext then r.content_ciphertext else p.content_ciphertext;
  content_nonce = if is_empty p.content_ciphertext then r.content_nonce else p.content_nonce;
  last_used_with_version = or_else p.last_used_with_version (or_else r.last_used_with_version []);
  created_at = created;
  modified_at = modified;
}

scan_config-apply_patch :
    (p : UpdateConfigPatch) (r : Row) (c m : Time)
    → r.created_at ≡ at c
    → scan_config (apply_patch p (some m) r) ≡ ok (patched_config p r c m)
unfolding scan_config apply_patch parse_stamp build_config from_null null_if_empty
scan_config-apply_patch p r c m e = ground arith

-- UpdateConfig's UPDATE statement touches no other row.
read-others :
    (u id : ℤ) (p : UpdateConfigPatch) (t : Option Time) (v k : ℤ)
    → ((v ≢ u) ⊎ (k ≢ id))
    → (rs : List Row) → read v k (rows_after u id p rs t) ≡ read v k rs
unfolding read rows_after find? update_where
read-others u id p t v k other rs =
    ap (λ o. elim (or_not_found o) [ ok r ↦ scan_config r | err e ↦ err e ]) (others rs)
  where
    apart : (r : Row) → addressed u id r ≡ true → addressed v k r ≡ false
    apart r hit = elim (Bool-cases (addressed v k r)) [
      | inl both ↦
          let (i, o) = addressed_iff u id r hit in
          let (i', o') = addressed_iff v k r both in
          elim other [ inl ne ↦ absurd (ne (sym o' ∙ o)) | inr ne ↦ absurd (ne (sym i' ∙ i)) ]
      | inr miss ↦ miss
    ]

    others :
        (rs : List Row)
        → find? (addressed v k) (update_where (addressed u id) (apply_patch p t) rs)
          ≡ find? (addressed v k) rs
    others [] = refl
    others (r ∷ rs) = elim (Bool-cases (addressed u id r)) [
      | inl hit ↦
          let keeps : addressed v k (apply_patch p t r) ≡ false =
            apart (apply_patch p t r) (unfold addressed apply_patch in hit) in
          rw (hit, keeps, apart r hit) (others rs)
      | inr miss ↦ ground (arith, miss, others rs)
    ]

module _ (now : ℕ → Time) (u id : ℤ) (p : UpdateConfigPatch) (db : Db) (r : Row) (old : Time)
    (valid : patch_is_valid p ≡ true) (found : find? (addressed u id) db.rows ≡ some r)
    (readable : r.modified_at ≡ at old) where
  pub update_config_applies :
      p.preserve_modified_at ≡ false
      → (m n : ℕ) × (old < m)
        × (update_config (healthy now) u id p db ≡ (
          read u id (rows_after u id p db.rows (some m)),
          record { rows = rows_after u id p db.rows (some m); seq = db.seq; calls = n },
        ))
  unfolding rows_after update_config update_in_tx with_rollback call update_stamp next_modified_at
      now_fn write_patch has_clauses parse_stamp select_row update_rows later get_config read
  update_config_applies moves = (
    later old (now (db.calls + 1 + 1)),
    (db.calls + 1 + 1 + 1 + 1 + 1 + 1),
    lt-later _ _,
    ground arith,
  )

  -- If no driver call fails, the row is there and a valid patch has PreserveModifiedAt with the
  -- row's modified_at as expected, UpdateConfig applies the patch without touching modified_at (or
  -- leaves the rows alone, if there is no last_used_with_version) and returns what GetConfig reads
  -- then.
  pub preserve_run :
      (t : Time)
      → p.preserve_modified_at ≡ true
      → p.expected_modified_at ≡ some t
      → t ≡ old
      → (n : ℕ) × (update_config (healthy now) u id p db ≡ (
        read u id
            (if is_some p.last_used_with_version then rows_after u id p db.rows none else db.rows),
        record {
          rows =
              if is_some p.last_used_with_version then rows_after u id p db.rows none else db.rows;
          seq = db.seq;
          calls = n;
        },
      ))
  unfolding rows_after update_config update_in_tx with_rollback call update_stamp next_modified_at
      now_fn write_patch has_clauses parse_stamp select_row update_rows expects get_config read
      patch_is_valid
  preserve_run t keeps expected same = (
    if is_some p.last_used_with_version
        then db.calls + 1 + 1 + 1 + 1 + 1
        else db.calls + 1 + 1 + 1 + 1,
    ground arith,
  )

  -- If no driver call fails, the row is there and a valid patch has PreserveModifiedAt with another
  -- modified_at as expected than the row's, UpdateConfig returns ErrConfigChanged.
  pub preserve_changed :
      (t : Time)
      → p.preserve_modified_at ≡ true
      → p.expected_modified_at ≡ some t
      → t ≢ old
      → (update_config (healthy now) u id p db).0 ≡ err config_changed
  unfolding rows_after update_config update_in_tx with_rollback call parse_stamp select_row expects
      patch_is_valid
  preserve_changed t keeps expected differs = ground arith

  pub read-rows_after :
      (t : Option Time) → read u id (rows_after u id p db.rows t) ≡ scan_config (apply_patch p t r)
  unfolding addressed apply_patch rows_after
  read-rows_after t =
      read-find u id (rows_after u id p db.rows t) (apply_patch p t r)
        (find?-update_where (addressed u id) (apply_patch p t) db.rows (λ s. refl) r found)

  -- If no driver call fails and the row is there with readable timestamps, a valid patch without
  -- PreserveModifiedAt makes UpdateConfig return the row's configuration with the fields that the
  -- patch gives, under a strictly later modified_at; GetConfig reads the same then, and under every
  -- other user or id what it read before.
  pub update_config_run :
      (created : Time)
      → r.created_at ≡ at created
      → p.preserve_modified_at ≡ false
      → (m : ℕ) × (after : Db) × (old < m)
        × (update_config (healthy now) u id p db ≡ (ok (patched_config p r created m), after))
        × ((get_config (healthy now) u id after).0 ≡ ok (patched_config p r created m))
        × ((v k : ℤ)
            → ((v ≢ u) ⊎ (k ≢ id))
            → (get_config (healthy now) v k after).0 ≡ (get_config (healthy now) v k db).0)
  update_config_run created made moves =
      let (m, n, lt, ran) = update_config_applies moves in
      let after : Db = record {
        rows = rows_after u id p db.rows (some m);
        seq = db.seq;
        calls = n;
      } in
      let reads = read-rows_after (some m) ∙ scan_config-apply_patch p r created m made in
      (
        m,
        after,
        lt,
        ran ∙ ap (λ c. (c, after)) reads,
        get_config-read now u id after ∙ reads,
        λ v k other.
            get_config-read now v k after
            ∙ read-others u id p (some m) v k other db.rows
            ∙ sym (get_config-read now v k db),
      )
