-- ===== src/Files/Fill.antt =====
-- The three calls by which writeFileAtomic of internal/cli/usercmd.go and generate of
-- internal/keys/file_provider.go fill a temporary file.
use tabby_sync.Common.{ℕ, Bytes, some, [], ◌≡◌, ◌≢◌, sym, ◌∙◌, ap}
use tabby_sync.Files.{
  regular, World, OsError, goes_on, Io, ◌>>◌, chmod, write, sync, with_mode, extended,
}
use tabby_sync.Files.Leaves.{Leaves, bind-Leaves, chmod-Leaves, write-Leaves, sync-Leaves}
use tabby_sync.Files.GoesOn.{bind-goes_on, chmod-goes_on, write-goes_on}

unfoldable pub fill : Bytes → Bytes → ℕ → Io OsError (Unit {0})
fill temp bytes mode = do chmod temp mode; write temp bytes; sync temp

module _ (temp : Bytes) where
  module _ (q : Bytes) (ne : temp ≢ q) where
    pub fill-Leaves : (bytes : Bytes) (mode : ℕ) → Leaves q (fill temp bytes mode)
    unfolding fill
    fill-Leaves bytes mode =
        bind-Leaves q (chmod temp mode) (λ u. write temp bytes >> sync temp)
          (chmod-Leaves temp q ne mode)
          (λ u.
            bind-Leaves q (write temp bytes) (λ v. sync temp) (write-Leaves temp q ne bytes)
              (λ v. sync-Leaves temp q))

  -- A temporary file that has been filled has all the bytes, and the mode.
  pub fill-goes_on :
      (bytes : Bytes) (mode : ℕ) (w : World) (old : ℕ)
      → w.disk temp ≡ some (regular [] old)
      → (fill temp bytes mode w).0 ≡ goes_on tt
      → (fill temp bytes mode w).1.disk temp ≡ some (regular bytes mode)
  unfolding fill
  fill-goes_on bytes mode w old made e =
      let (u, one, rest) =
        bind-goes_on (chmod temp mode) (λ u. write temp bytes >> sync temp) w tt e in
      let w1 = (chmod temp mode w).1 in
      let e1 = sym (ap (λ r. r.0) rest) ∙ e in
      let (v, two, end) = bind-goes_on (write temp bytes) (λ v. sync temp) w1 tt e1 in
      let w2 = (write temp bytes w1).1 in
      ap (λ r. r.1.disk temp) rest
      ∙ (ap (λ r. r.1.disk temp) end
          ∙ (sync-Leaves temp temp w2
              ∙ (write-goes_on temp bytes w1 two
                  ∙ (ap (extended bytes) (chmod-goes_on temp mode w one)
                      ∙ ap (λ n. extended bytes (with_mode mode n)) made))))
