-- ===== src/Keys/Starts.antt =====
-- The starts of a server whose master key is in a file: Load of internal/keys/file_provider.go, once
-- and again.
use tabby_sync.Common.{
  ℕ, ◌==◌, Bytes, lit, Bool, true, false, Option, none, some, List, [], ◌∷◌, length, ◌≡◌, ◌≢◌, refl,
  sym, ◌∙◌, ap, inl, inr, ◌⊎◌, ==_iff, if◌then◌else◌, All,
}
use tabby_sync.Files.{
  Node, Disk, Fate, regular, OsError, not_exist, os_error, World, Ended, goes_on, returns, killed,
  Io, ◌>>=◌, bind_ended, map_ended, tried_ended, pure, return_early, ignore, read_file, mkdir_all,
  chmod_path, create_temp, remove,
}
use tabby_sync.Files.Paths.{dir, base}
use tabby_sync.Files.Leaves.{
  Leaves, chmod_path-Leaves, remove-Leaves, create_temp-Leaves, mkdir_all-Leaves, read_file-Leaves,
}
use tabby_sync.Files.GoesOn.{
  create_temp-goes_on, read_file-goes_on, read_file-not_exist, or_return-goes_on,
}
use tabby_sync.Keys.{master_key_size}
use tabby_sync.Keys.File.{
  KeyError, wrong_length, failed, key_temp_path, finally, or_fail, random_key, place_key, generate,
  from_file, load_file,
}
use tabby_sync.Keys.Generation.{key_temp_path-ne, Placed, finally-Placed, place_key-Placed}

module _ (path : Bytes) (random : Option Bytes) (suffix : Bytes) where
  -- No key is at the path and none is returned, or the drawn key is there with mode 0600.
  abbrev Generated : Ended KeyError Bytes × World → Type 0
  Generated (r, after) =
      (((k : Bytes) → r ≢ goes_on k) × (after.disk path ≡ none))
      ⊎ ((key : Bytes) × (random ≡ some key)
          × (after.disk path ≡ some (regular key 384))
          × ((r ≡ goes_on key) ⊎ ((k : Bytes) → r ≢ goes_on k)))

  bind-Generated :
      {A : Type 0} (m : Io KeyError A) (f : A → Io KeyError Bytes) (w : World)
      → (m w).1.disk path ≡ none
      → ((a : A) → (m w).0 ≡ goes_on a → Generated (f a (m w).1))
      → Generated ((m >>= f) w)
  bind-Generated {A = A} m f w free h = ended (m w).0 refl
    where
      ended : (r : Ended KeyError A) → (m w).0 ≡ r → Generated (bind_ended f r (m w).1)
      ended (goes_on a) e = h a e
      ended (returns x) e = inl (λ a g. cc, free)
      ended killed e = inl (λ a g. cc, free)

  -- The key that has been placed is returned.
  returned :
      (key : Bytes) (r : Ended KeyError (Unit {0})) (v : World)
      → random ≡ some key
      → Placed path key (r, v)
      → Generated (bind_ended (λ u. pure key) r v)
  returned key (goes_on u) v drawn (inl (never, free)) = absurd (never u refl)
  returned key (goes_on u) v drawn (inr holds) = inr (key, drawn, holds, inl refl)
  returned key (returns e) v drawn (inl (never, free)) = inl (λ k g. cc, free)
  returned key (returns e) v drawn (inr holds) = inr (key, drawn, holds, inr (λ k g. cc))
  returned key killed v drawn (inl (never, free)) = inl (λ k g. cc, free)
  returned key killed v drawn (inr holds) = inr (key, drawn, holds, inr (λ k g. cc))

  module _ (is_key : base path ≡ lit "master.key") (dir_ne : dir path ≢ path) where
    generate-Generated :
        (w : World) → w.disk path ≡ none → Generated (generate path random suffix w)
    unfolding generate
    generate-Generated w free =
        let temp = key_temp_path path suffix in
        let ne = key_temp_path-ne path suffix is_key in
        let c : Io KeyError (Unit {0}) = ignore (remove temp) in
        let w1 = (mkdir_all (dir path) w).1 in
        let w2 = (chmod_path (dir path) 448 w1).1 in
        let free1 : w1.disk path ≡ none = mkdir_all-Leaves (dir path) path dir_ne w ∙ free in
        let free2 : w2.disk path ≡ none = chmod_path-Leaves (dir path) path dir_ne 448 w1 ∙ free1 in
        bind-Generated (or_fail (mkdir_all (dir path))) _ w free1 (λ u e.
          bind-Generated (ignore (chmod_path (dir path) 448)) _ w1 free2 (λ u e.
            bind-Generated (random_key random) _ w2 (random_Leaves random w2 ∙ free2) (λ key drawn.
              let w3 = (random_key random w2).1 in
              let free3 = random_Leaves random w2 ∙ free2 in
              let w4 = (create_temp temp w3).1 in
              let free4 = create_temp-Leaves temp path ne w3 ∙ free3 in
              bind-Generated (or_fail (create_temp temp)) _ w3 free4 (λ u made.
                let (at, new) =
                  create_temp-goes_on temp w3
                    (or_return-goes_on (λ e. failed) (create_temp temp) w3 tt made) in
                let m = finally c (place_key temp path key) in
                returned key (m w4).0 (m w4).1 (random_drawn random key w2 drawn) (
                  finally-Placed temp path ne key c (place_key temp path key) w4
                    (remove-Leaves temp path ne)
                    (place_key-Placed temp path ne key w4 at free4))))))
      where
        random_Leaves : (o : Option Bytes) → Leaves path (random_key o)
        random_Leaves none v = refl
        random_Leaves (some key) v = refl

        random_drawn :
            (o : Option Bytes) (key : Bytes) (v : World)
            → (random_key o v).0 ≡ goes_on key
            → o ≡ some key
        random_drawn none key v e = absurd (cc)
        random_drawn (some k) key v e = cc

  -- What a start does to the file, and which key it returns, from what stood at the path.
  abbrev pub Started : Option Node → Ended KeyError Bytes × World → Type 0
  Started before x =
      ((x.1.disk path ≡ before)
        × (((k : Bytes) → x.0 ≢ goes_on k)
            ⊎ ((k : Bytes) × (x.0 ≡ goes_on k)
                × (mode : ℕ) × (before ≡ some (regular k mode))
                × (length k ≡ master_key_size))))
      ⊎ ((before ≡ none)
          × (key : Bytes) × (random ≡ some key)
          × (x.1.disk path ≡ some (regular key 384))
          × ((x.0 ≡ goes_on key) ⊎ ((k : Bytes) → x.0 ≢ goes_on k)))

  never-Started :
      (before : Option Node) (r : Ended KeyError Bytes) (v : World)
      → v.disk path ≡ before
      → ((k : Bytes) → r ≢ goes_on k)
      → Started before (r, v)
  never-Started before r v same never = inl (same, inl never)

  generated-Started :
      (before : Option Node) (x : Ended KeyError Bytes × World)
      → before ≡ none
      → Generated x
      → Started before x
  generated-Started before x is_none (inl (never, free)) = inl (free ∙ sym is_none, inl never)
  generated-Started before x is_none (inr (key, drawn, holds, how)) =
      inr (is_none, key, drawn, holds, how)

  module _ (is_key : base path ≡ lit "master.key") (dir_ne : dir path ≢ path) where
    from_file-Started :
        (before : Option Node) (answer : Ended OsError Bytes) (v : World)
        → v.disk path ≡ before
        → ((raw : Bytes) → answer ≡ goes_on raw → (mode : ℕ) × (before ≡ some (regular raw mode)))
        → (answer ≡ returns not_exist → before ≡ none)
        → Started before (from_file (generate path random suffix) answer v)
    from_file-Started before (goes_on raw) v same regular_file missing =
        sized (length raw == master_key_size) refl
      where
        sized :
            (b : Bool)
            → (length raw == master_key_size) ≡ b
            → Started before ((if b then pure {E = KeyError} raw else return_early wrong_length) v)
        sized true e =
            let (mode, at) = regular_file raw refl in
            inl (same, inr (raw, refl, mode, at, (==_iff (length raw) 32).0 e))
        sized false e = inl (same, inl (λ k g. cc))
    from_file-Started before (returns not_exist) v same regular_file missing =
        generated-Started before (generate path random suffix v) (missing refl)
          (generate-Generated is_key dir_ne v (same ∙ missing refl))
    from_file-Started before (returns os_error) v same regular_file missing =
        inl (same, inl (λ k g. cc))
    from_file-Started before killed v same regular_file missing = inl (same, inl (λ k g. cc))

    -- However a start with the file provider ends, by success, by an error of any system call or by
    -- the death of the process in any of them, the key's path is as it was, or was free and now
    -- holds all of the drawn key with mode 0600. A key that is returned stands in the file, and has
    -- 32 bytes if it was there before.
    pub load_file-Started : (w : World) → Started (w.disk path) (load_file path random suffix w)
    unfolding load_file
    load_file-Started w = ended (read_file path w).0 refl
      where
        next : Ended OsError Bytes → Io KeyError Bytes
        next = from_file (generate path random suffix)

        ended :
            (r : Ended OsError Bytes)
            → (read_file path w).0 ≡ r
            → Started (w.disk path) (
                bind_ended next
                  (map_ended (λ e. failed) (tried_ended {E = OsError} r))
                  (read_file path w).1)
        ended (goes_on raw) e =
            from_file-Started (w.disk path) (goes_on raw) (read_file path w).1
              (read_file-Leaves path path w)
              (λ bytes same. read_file-goes_on path bytes w (e ∙ same)) (λ g. absurd (cc))
        ended (returns x) e =
            from_file-Started (w.disk path) (returns x) (read_file path w).1
              (read_file-Leaves path path w) (λ bytes same. absurd (cc))
              (λ same. read_file-not_exist path w (e ∙ same))
        ended killed e = inl (read_file-Leaves path path w, inl (λ k g. cc))

-- What one start takes from outside.
pub record Start : Type 0 where
  pub random : Option Bytes
  pub suffix : Bytes
  pub fates : List Fate

abbrev returned_keys : Ended KeyError Bytes → List Bytes → List Bytes
returned_keys (goes_on k) ks = k ∷ ks
returned_keys (returns e) ks = ks
returned_keys killed ks = ks

-- The keys that a row of starts returns, each on the disk that the one before has left.
unfoldable pub keys_of_starts : Bytes → Disk → List Start → List Bytes
unfolding load_file
keys_of_starts path d [] = []
keys_of_starts path d (s ∷ ss) =
    let (r, after) = load_file path s.random s.suffix (record { disk = d; fates = s.fates }) in
    returned_keys r (keys_of_starts path after.disk ss)

module _ (path : Bytes) (is_key : base path ≡ lit "master.key") (dir_ne : dir path ≢ path) where
  abbrev AreAll : Bytes → List Bytes → Type 0
  AreAll k ks = All (λ k'. k' ≡ k) ks

  start :
      (d : Disk) (s : Start)
      → Started path s.random s.suffix
          (d path)
          (load_file path s.random s.suffix (record { disk = d; fates = s.fates }))
  start d s =
      load_file-Started path s.random s.suffix is_key dir_ne (record { disk = d; fates = s.fates })

  add_returned :
      (k : Bytes) (r : Ended KeyError Bytes) (ks : List Bytes)
      → ((r ≡ goes_on k) ⊎ ((k' : Bytes) → r ≢ goes_on k'))
      → AreAll k ks
      → AreAll k (returned_keys r ks)
  add_returned k (goes_on k') ks (inl e) h = (cc, h)
  add_returned k (goes_on k') ks (inr never) h = absurd (never k' refl)
  add_returned k (returns e) ks how h = h
  add_returned k killed ks how h = h

  -- Once the file holds a key, no start returns another one.
  keys_of_starts-held :
      (k : Bytes) (mode : ℕ) (d : Disk) (ss : List Start)
      → d path ≡ some (regular k mode)
      → AreAll k (keys_of_starts path d ss)
  unfolding keys_of_starts
  keys_of_starts-held k mode d [] holds = tt
  keys_of_starts-held k mode d (s ∷ ss) holds =
      let (r, after) = load_file path s.random s.suffix (record { disk = d; fates = s.fates }) in
      let rest = keys_of_starts path after.disk ss in
      elim (start d s) [
        | inl (same, inl never) ↦
            add_returned k r rest (inr never)
              (keys_of_starts-held k mode after.disk ss (same ∙ holds))
        | inl (same, inr (k', e, mode', at, sized)) ↦
            add_returned k r rest (inl (e ∙ ap goes_on (cc)))
              (keys_of_starts-held k mode after.disk ss (same ∙ holds))
        | inr (missing, key, drawn, there, how) ↦ absurd (cc)
      ]

  -- Over any row of starts with the file provider, each with its own random bytes and its own
  -- failing calls and crashes, all keys that are returned are the same one: no start replaces a
  -- master key that an earlier one has returned. The key's file is named master.key, and its
  -- directory is another path.
  pub keys_of_starts-AreAll :
      (d : Disk) (ss : List Start) → (k : Bytes) × All (λ k'. k' ≡ k) (keys_of_starts path d ss)
  unfolding keys_of_starts
  keys_of_starts-AreAll d [] = ([], tt)
  keys_of_starts-AreAll d (s ∷ ss) =
      let (r, after) = load_file path s.random s.suffix (record { disk = d; fates = s.fates }) in
      let rest = keys_of_starts path after.disk ss in
      elim (start d s) [
        | inl (same, inl never) ↦
            let (k, agree) = keys_of_starts-AreAll after.disk ss in
            (k, add_returned k r rest (inr never) agree)
        | inl (same, inr (k, e, mode, at, sized)) ↦ (
          k,
          add_returned k r rest (inl e) (keys_of_starts-held k mode after.disk ss (same ∙ at)),
        )
        | inr (missing, key, drawn, holds, how) ↦
            (key, add_returned key r rest how (keys_of_starts-held key 384 after.disk ss holds))
      ]
