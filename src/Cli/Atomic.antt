-- ===== src/Cli/Atomic.antt =====
-- writeFileAtomic of internal/cli/usercmd.go: what it leaves at its path, however it ends.
use tabby_sync.Common.{
  ℕ, Bytes, lit, none, some, [], ◌++◌, length-append, ◌≡◌, ◌≢◌, sym, ◌∙◌, ap, arith, inl, inr, ◌⊎◌,
  false,
}
use tabby_sync.Files.{
  regular, World, OsError, goes_on, Io, ◌>>◌, ignore, on_error, chmod, write, sync, close, remove,
  rename, create_temp, moved, with_mode, extended, update, Disk, is_directory, change, when_not,
  system_call, unchanged, exists,
}
use tabby_sync.Files.Paths.{dir, base, join, join-ne}
use tabby_sync.Files.Leaves.{
  Leaves, bind-Leaves, on_error-Leaves, create_temp-Leaves, close-Leaves, remove-Leaves,
  update_self, update_ne, KeepsUnlessDone, bind-KeepsUnlessDone, on_error-KeepsUnlessDone,
  rename-Leaves, KeepsUnlessDone, bind-KeepsUnlessDone, on_error-KeepsUnlessDone,
}
use tabby_sync.Files.GoesOn.{
  bind-goes_on, create_temp-goes_on, rename-goes_on, rename_fails, on_error-goes_on, Ended-cases,
  on_error-goes_on, Ended-cases,
}
use tabby_sync.Files.Fill.{fill, fill-Leaves, fill-goes_on}

-- os.CreateTemp's name for the pattern "." + base + ".tmp-*"; the suffix is its random part.
unfoldable pub temp_path : Bytes → Bytes → Bytes
unfolding join dir base
temp_path path suffix = join (dir path) (lit "." ++ (base path ++ (lit ".tmp-" ++ suffix)))

unfoldable pub write_temp : Bytes → Bytes → ℕ → Io OsError (Unit {0})
unfolding fill
write_temp temp bytes mode = do fill temp bytes mode; close temp

-- The deferred function's two calls, while the file is open and after it is closed.
unfoldable cleanup : Bytes → Io OsError (Unit {0})
cleanup temp = ignore (close temp) >> ignore (remove temp)

unfoldable pub write_file_atomic : Bytes → Bytes → Bytes → ℕ → Io OsError (Unit {0})
unfolding temp_path write_temp cleanup
write_file_atomic suffix path bytes mode =
    let temp = temp_path path suffix in
    do
      create_temp temp
      on_error (cleanup temp) (write_temp temp bytes mode)
      on_error (ignore (remove temp)) (rename temp path)

-- The temporary file never is the one to be written.
pub temp_path-ne : (path suffix : Bytes) → temp_path path suffix ≢ path
unfolding temp_path lit
temp_path-ne path suffix =
    join-ne path (lit "." ++ (base path ++ (lit ".tmp-" ++ suffix)))
      (omega (arith, length-append (base path) (lit ".tmp-" ++ suffix)))

module _ (temp : Bytes) where
  module _ (q : Bytes) (ne : temp ≢ q) where
    write_temp-Leaves : (bytes : Bytes) (mode : ℕ) → Leaves q (write_temp temp bytes mode)
    unfolding write_temp
    write_temp-Leaves bytes mode =
        bind-Leaves q (fill temp bytes mode) (λ u. close temp) (fill-Leaves temp q ne bytes mode)
          (λ u. close-Leaves temp q)

  cleanup-Leaves : (q : Bytes) → temp ≢ q → Leaves q (cleanup temp)
  unfolding cleanup
  cleanup-Leaves q ne =
      bind-Leaves q (ignore (close temp)) (λ u. ignore (remove temp)) (close-Leaves temp q)
        (λ u. remove-Leaves temp q ne)

  -- Renaming the temporary file into place, however it ends.
  place-KeepsUnlessDone :
      (path : Bytes)
      → temp ≢ path
      → KeepsUnlessDone path (on_error (ignore (remove temp)) (rename temp path))
  place-KeepsUnlessDone path ne =
      on_error-KeepsUnlessDone path (ignore (remove temp)) (rename temp path)
        (remove-Leaves temp path ne) (λ w h. ap (λ d. d path) (rename_fails temp path w (h tt)))

  moved_to : (path : Bytes) (w : World) → temp ≢ path → moved temp path w.disk path ≡ w.disk temp
  moved_to path w ne =
      update_ne temp path none (update path (w.disk temp) w.disk) ne
      ∙ update_self path (w.disk temp) w.disk

module _ (suffix path bytes : Bytes) (mode : ℕ) where
  fails_safe : KeepsUnlessDone path (write_file_atomic suffix path bytes mode)
  unfolding write_file_atomic
  fails_safe =
      let temp = temp_path path suffix in
      let ne = temp_path-ne path suffix in
      bind-KeepsUnlessDone path (create_temp temp) _ (create_temp-Leaves temp path ne) (λ u.
        bind-KeepsUnlessDone path (on_error (cleanup temp) (write_temp temp bytes mode)) _
          (on_error-Leaves path (cleanup temp) (write_temp temp bytes mode)
            (cleanup-Leaves temp path ne) (write_temp-Leaves temp path ne bytes mode))
          (λ v. place-KeepsUnlessDone temp path ne))

  writes_whole :
      (w : World)
      → (write_file_atomic suffix path bytes mode w).0 ≡ goes_on tt
      → let (r, after) = write_file_atomic suffix path bytes mode w in
        (after.disk path ≡ some (regular bytes mode))
        × (after.disk (temp_path path suffix) ≡ none)
        × (w.disk (temp_path path suffix) ≡ none)
  unfolding write_file_atomic write_temp
  writes_whole w e =
      let temp = temp_path path suffix in
      let ne = temp_path-ne path suffix in
      let step2 = on_error (cleanup temp) (write_temp temp bytes mode) in
      let step3 = on_error (ignore (remove temp)) (rename temp path) in
      let (u, one, rest) = bind-goes_on (create_temp temp) (λ u. step2 >> step3) w tt e in
      let w1 = (create_temp temp w).1 in
      let (made, free) = create_temp-goes_on temp w one in
      let (v, two, rest2) = bind-goes_on step2 (λ v. step3) w1 tt (sym (ap (λ r. r.0) rest) ∙ e) in
      let (filled, same) = on_error-goes_on (cleanup temp) (write_temp temp bytes mode) w1 tt two in
      let (f, full, closes) = bind-goes_on (fill temp bytes mode) (λ u. close temp) w1 tt filled in
      let w2 = (write_temp temp bytes mode w1).1 in
      let w2-temp : w2.disk temp ≡ some (regular bytes mode) =
        ap (λ r. r.1.disk temp) closes
        ∙ (close-Leaves temp temp (fill temp bytes mode w1).1
            ∙ fill-goes_on temp bytes mode w1 384 made full) in
      let end : write_file_atomic suffix path bytes mode w ≡ step3 w2 =
        rest ∙ (rest2 ∙ ap (λ r. step3 r.1) same) in
      let (renamed, last) =
        on_error-goes_on (ignore (remove temp)) (rename temp path) w2 tt
          (sym (ap (λ r. r.0) end) ∙ e) in
      let disk : (write_file_atomic suffix path bytes mode w).1.disk ≡ moved temp path w2.disk =
        ap (λ r. r.1.disk) (end ∙ last) ∙ rename-goes_on temp path w2 renamed in
      (
        ap (λ d. d path) disk ∙ (moved_to temp path w2 ne ∙ w2-temp),
        ap (λ d. d temp) disk ∙ update_self temp none (update path (w2.disk temp) w2.disk),
        free,
      )

  pub write_file_atomic-Leaves :
      (q : Bytes)
      → temp_path path suffix ≢ q
      → path ≢ q
      → Leaves q (write_file_atomic suffix path bytes mode)
  unfolding write_file_atomic
  write_file_atomic-Leaves q ne ne' =
      let temp = temp_path path suffix in
      bind-Leaves q (create_temp temp) _ (create_temp-Leaves temp q ne) (λ u.
        bind-Leaves q (on_error (cleanup temp) (write_temp temp bytes mode)) _
          (on_error-Leaves q (cleanup temp) (write_temp temp bytes mode) (cleanup-Leaves temp q ne)
            (write_temp-Leaves temp q ne bytes mode))
          (λ v.
            on_error-Leaves q (ignore (remove temp)) (rename temp path) (remove-Leaves temp q ne)
              (rename-Leaves temp path q ne ne')))

  pub write_file_atomic_cases :
      (w : World)
      → let (r, after) = write_file_atomic suffix path bytes mode w in
        ((r ≡ goes_on tt)
          × (after.disk path ≡ some (regular bytes mode))
          × (after.disk (temp_path path suffix) ≡ none))
        ⊎ ((r ≢ goes_on tt) × (after.disk path ≡ w.disk path))
  write_file_atomic_cases w = elim (Ended-cases (write_file_atomic suffix path bytes mode w).0) [
    | inl (u, e) ↦ let (new, gone, free) = writes_whole w e in inl (e, new, gone)
    | inr ne ↦ inr (ne tt, fails_safe w ne)
  ]

  -- However writeFileAtomic ends, by success, by an error of any of its calls or by the death of
  -- the process in any of them, its path holds either what it held before or all the new bytes with
  -- the new mode; it holds the new bytes exactly if the code goes on, the temporary file is then
  -- gone. No third file has changed.
  pub write_file_atomic-IsAtomic :
      (w : World) (q : Bytes)
      → temp_path path suffix ≢ q
      → path ≢ q
      → let (r, after) = write_file_atomic suffix path bytes mode w in
        (((r ≡ goes_on tt)
            × (after.disk path ≡ some (regular bytes mode))
            × (after.disk (temp_path path suffix) ≡ none))
          ⊎ ((r ≢ goes_on tt) × (after.disk path ≡ w.disk path)))
        × (after.disk q ≡ w.disk q)
  write_file_atomic-IsAtomic w q ne ne' =
      (write_file_atomic_cases w, write_file_atomic-Leaves q ne ne' w)

  -- If no call fails, the temporary name is free and the path is no directory, writeFileAtomic goes
  -- on.
  pub write_file_atomic-Completes :
      (d : Disk)
      → d (temp_path path suffix) ≡ none
      → is_directory (d path) ≡ false
      → (write_file_atomic suffix path bytes mode (record { disk = d; fates = [] })).0 ≡ goes_on tt
  unfolding write_file_atomic write_temp fill create_temp chmod write sync close rename
  write_file_atomic-Completes d free not_directory =
      let temp = temp_path path suffix in
      let ne = temp_path-ne path suffix in
      let d1 = update temp (some (regular [] 384)) d in
      let d2 = change temp (with_mode mode) d1 in
      let d3 = change temp (extended bytes) d2 in
      let there : d3 path ≡ d path =
        update_ne temp path (extended bytes (d2 temp)) d2 ne
        ∙ (update_ne temp path (with_mode mode (d1 temp)) d1 ne
            ∙ update_ne temp path (some (regular [] 384)) d ne) in
      let step2 = on_error (cleanup temp) (write_temp temp bytes mode) in
      let step3 = on_error (ignore (remove temp)) (rename temp path) in
      ap
        (λ b.
          ((when_not b (system_call unchanged (update temp (some (regular [] 384))))
              >> (step2 >> step3))
            (record { disk = d; fates = [] })).0)
        (ap exists free)
      ∙ ap
          (λ b.
            (on_error (ignore (remove temp)) (when_not b (system_call unchanged (moved temp path)))
              (record { disk = d3; fates = [] })).0)
          (ap is_directory there ∙ not_directory)
