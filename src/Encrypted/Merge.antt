-- ===== src/Encrypted/Merge.antt =====
-- The patches that UpdateConfigPlaintext builds, and what a row reads as once they are applied.
use tabby_sync.Common.{
  ℕ, ℤ, Bytes, bytes_eq_iff, is_empty, true, false, Option, none, some, ◌≡◌, refl, arith,
  Bool-cases, Option-cases, inl, inr, length, [], or_else,
}
use tabby_sync.Store.{
  Time, UpdateConfigPatch, UpdateConfigPlaintextPatch, ConfigWithPlaintext, ok, Result-cases,
}
use tabby_sync.Crypto.{Primitives, IsAead, decrypt, key_size, nonce_size}
use tabby_sync.Sqlite.Driver.{Row, at, healthy}
use tabby_sync.Sqlite.{
  scan_config, build_config, parse_stamp, patch_is_valid, apply_patch, null_if_empty, from_null,
}
use tabby_sync.Encrypted.{
  to_plaintext, open_row, change_patch, idle_patch, is_change, differs, only_if,
}
use tabby_sync.Encrypted.Sealing.{seal_lem}
use tabby_sync.Encrypted.RoundTrip.{null_if_empty-from_null}

not_differs : (o : Option Bytes) (s : Bytes) → differs o s ≡ false → or_else o s ≡ s
unfolding differs
not_differs none s h = refl
not_differs (some t) s h = ground (arith, bytes_eq_iff t s)

only_if_lem : (o : Option Bytes) (s : Bytes) → or_else (only_if (differs o s) o) s ≡ or_else o s
unfolding differs
only_if_lem none s = ground arith
only_if_lem (some t) s = ground (arith, bytes_eq_iff t s)

last_used_lem :
    (o : Option Bytes) (old : Option Bytes)
    → from_null (elim o [ none ↦ old | some s ↦ null_if_empty s ]) ≡ or_else o (from_null old)
last_used_lem none old = refl
last_used_lem (some s) old = null_if_empty-from_null s

module _ (prim : Primitives) (key : Bytes) (now : ℕ → Time) (u id : ℤ) (r : Row) (c m : Time)
    (created : r.created_at ≡ at c) (modified : r.modified_at ≡ at m) where
  pub scan_r : scan_config r ≡ ok (build_config r c m)
  unfolding scan_config parse_stamp
  scan_r = rw (created, modified)

  pub scan-apply_patch :
      (p : UpdateConfigPatch) (t : Time)
      → scan_config (apply_patch p (some t) r) ≡ ok (build_config (apply_patch p (some t) r) c t)
  unfolding scan_config parse_stamp apply_patch
  scan-apply_patch p t = rw created

  pub scan-apply_none :
      (p : UpdateConfigPatch)
      → scan_config (apply_patch p none r) ≡ ok (build_config (apply_patch p none r) c m)
  unfolding scan_config parse_stamp apply_patch
  scan-apply_none p = rw (created, modified)

  module _ (current : ConfigWithPlaintext)
      (readable : open_row prim (healthy now) key u id (build_config r c m) ≡ ok current) where
    -- What the caller asked for, over what there was.
    unfoldable pub merged : UpdateConfigPlaintextPatch → Time → ConfigWithPlaintext
    merged patch t = record current {
      name = or_else patch.name current.name;
      content = or_else patch.content current.content;
      last_used_with_version = or_else patch.last_used_with_version current.last_used_with_version;
      modified_at = t;
    }

    current_eq :
        (pt : Bytes) × (decrypt prim key u id r.content_ciphertext r.content_nonce ≡ ok pt)
        × (current ≡ to_plaintext (build_config r c m) pt)
    unfolding open_row build_config
    current_eq = elim (Result-cases (decrypt prim key u id r.content_ciphertext r.content_nonce)) [
      | inl (pt, opened) ↦ (pt, opened, ground arith)
      | inr (e, failed) ↦ absurd (ground arith)
    ]

    pub modified-current : current.modified_at ≡ m
    unfolding to_plaintext build_config
    modified-current = let (pt, opened, eq) = current_eq in rw eq

    module _ (patch : UpdateConfigPlaintextPatch) where
      kept_patch : UpdateConfigPatch
      kept_patch = record {
        name = only_if (differs patch.name current.name) patch.name;
        content_ciphertext = [];
        content_nonce = [];
        last_used_with_version = patch.last_used_with_version;
        preserve_modified_at = false;
        expected_modified_at = none;
      }

      module _ (idle : is_change prim (healthy now) key u patch current ≡ false) where
        idle_fields :
            (or_else patch.name current.name ≡ current.name)
            × (or_else patch.content current.content ≡ current.content)
        unfolding is_change
        idle_fields =
            ground (
              arith,
              not_differs patch.name current.name,
              not_differs patch.content current.content,
            )

        -- With nothing changed at all, what was read is the merged configuration.
        pub unchanged :
            differs patch.last_used_with_version current.last_used_with_version ≡ false
            → merged patch m ≡ current
        unfolding merged
        unchanged same = ground (
          arith,
          idle_fields.0,
          idle_fields.1,
          not_differs patch.last_used_with_version current.last_used_with_version,
          modified-current,
        )

        -- With only the version changed, the row keeps its ciphertext, nonce and timestamp.
        pub versioned :
            open_row prim (healthy now) key u id (
              build_config
                (apply_patch (idle_patch prim (healthy now) key u patch current) none r)
                c
                m)
            ≡ ok (merged patch m)
        unfolding open_row build_config apply_patch merged to_plaintext idle_patch
        versioned =
            let (pt, opened, eq) = current_eq in
            ground (
              arith,
              opened,
              eq,
              idle_fields.0,
              idle_fields.1,
              last_used_lem
                  (only_if (differs patch.last_used_with_version current.last_used_with_version)
                    patch.last_used_with_version)
                  r.last_used_with_version,
              only_if_lem patch.last_used_with_version current.last_used_with_version,
            )

      -- A change of the name alone keeps the ciphertext.
      kept :
          (t : Time)
          → differs patch.content current.content ≡ false
          → open_row prim
              (healthy now)
              key
              u
              id
              (build_config (apply_patch kept_patch (some t) r) c t)
            ≡ ok (merged patch t)
      unfolding open_row build_config apply_patch merged to_plaintext kept_patch
      kept t same =
          let (pt, opened, eq) = current_eq in
          ground (
            arith,
            opened,
            eq,
            not_differs patch.name current.name,
            not_differs patch.content current.content,
            last_used_lem patch.last_used_with_version r.last_used_with_version,
          )

      -- A change of the content is sealed anew.
      resealed_patch : Bytes → Bytes → UpdateConfigPatch
      resealed_patch ct nonce = record {
        name = only_if (differs patch.name current.name) patch.name;
        content_ciphertext = ct;
        content_nonce = nonce;
        last_used_with_version = patch.last_used_with_version;
        preserve_modified_at = false;
        expected_modified_at = none;
      }

      resealed :
          (t : Time) (new ct nonce : Bytes)
          → patch.content ≡ some new
          → is_empty ct ≡ false
          → decrypt prim key u id ct nonce ≡ ok new
          → open_row prim
              (healthy now)
              key
              u
              id
              (build_config (apply_patch (resealed_patch ct nonce) (some t) r) c t)
            ≡ ok (merged patch t)
      unfolding open_row build_config apply_patch merged to_plaintext resealed_patch
      resealed t new ct nonce asked full opens =
          let (pt, opened, eq) = current_eq in
          ground (
            arith,
            opens,
            eq,
            not_differs patch.name current.name,
            last_used_lem patch.last_used_with_version r.last_used_with_version,
          )

      -- A patch that changes the name or the content: the row then reads as merged, and its
      -- timestamp has moved forward.
      module _ (aead : IsAead prim) (sized : length key ≡ key_size) (nonce : Bytes)
          (fresh : length nonce ≡ nonce_size) where
        pub record Changed : Type 0 where
          pub p : UpdateConfigPatch
          pub built : change_patch prim (healthy now) key u (some nonce) id patch current ≡ ok p
          pub valid : patch_is_valid p ≡ true
          pub moves : p.preserve_modified_at ≡ false
          pub reads :
              (t : Time)
              → open_row prim (healthy now) key u id (build_config (apply_patch p (some t) r) c t)
                ≡ ok (merged patch t)

        content_changed :
            (new : Bytes)
            → patch.content ≡ some new
            → differs patch.content current.content ≡ true
            → Changed
        unfolding change_patch resealed_patch patch_is_valid
        content_changed new asked differ =
            let s = seal_lem prim aead key sized u nonce fresh id new in
            record {
              p = resealed_patch s.ciphertext nonce;
              built = ground (arith, s.encrypted);
              valid = ground (arith, s.stored, s.stored_nonce);
              moves = refl;
              reads = λ t. resealed t new s.ciphertext nonce asked s.stored s.opened;
            }

        name_changed : differs patch.content current.content ≡ false → Changed
        unfolding change_patch kept_patch patch_is_valid
        name_changed same = record {
          p = kept_patch;
          built = ground arith;
          valid = refl;
          moves = refl;
          reads = λ t. kept t same;
        }

        pub changed : Changed
        unfolding differs
        changed = elim (Bool-cases (differs patch.content current.content)) [
          | inl differ ↦ elim (Option-cases patch.content) [
            | inl absent ↦ absurd (ground arith)
            | inr (new, asked) ↦ content_changed new asked differ
          ]
          | inr same ↦ name_changed same
        ]
