-- ===== src/Keys/Generation.antt =====
-- FileProvider of internal/keys/file_provider.go: what a start leaves at the key's path, however it
-- ends.
use tabby_sync.Common.{
  Bytes, lit, none, some, [], ◌++◌, length, length-append, ◌≡◌, ◌≢◌, refl, sym, ◌∙◌, ap, arith, inl,
  inr, ◌⊎◌,
}
use tabby_sync.Files.{
  regular, World, Ended, goes_on, returns, killed, Io, ◌>>=◌, bind_ended, map_ended, pure,
  return_early, ignore, on_error, chmod_path, close, rename, with_mode, update,
}
use tabby_sync.Files.Paths.{base, join-ne}
use tabby_sync.Files.Leaves.{
  Leaves, bind-Leaves, on_error-Leaves, close-Leaves, update_ne, update_self,
}
use tabby_sync.Files.GoesOn.{
  bind-goes_on, on_error-goes_on, rename-goes_on, rename_fails, Ended-cases, chmod_path-cases,
  or_return-goes_on,
}
use tabby_sync.Keys.File.{
  KeyError, failed, key_temp_path, deferred, finally, or_fail, write_key, place_key,
}
use mathlib.Core.Path.{subst}
use tabby_sync.Files.Fill.{fill, fill-Leaves, fill-goes_on}

-- The temporary file never is the key's own.
pub key_temp_path-ne :
    (path suffix : Bytes) → base path ≡ lit "master.key" → key_temp_path path suffix ≢ path
unfolding key_temp_path lit
key_temp_path-ne path suffix is_key =
    join-ne path (lit ".master.key." ++ suffix)
      (omega (arith, ap length is_key, length-append (lit ".master.key.") suffix))

-- The path still is free, and the code does not go on, or it holds the key with mode 0600.
abbrev pub Placed : {A : Type 0} → Bytes → Bytes → Ended KeyError A × World → Type 0
Placed {A} path key (r, after) =
    (((a : A) → r ≢ goes_on a) × (after.disk path ≡ none))
    ⊎ (after.disk path ≡ some (regular key 384))

module _ (temp path : Bytes) (ne : temp ≢ path) (key : Bytes) where
  bind-Placed :
      {A B : Type 0} (m : Io KeyError A) (f : A → Io KeyError B) (w : World)
      → (m w).1.disk path ≡ none
      → ((a : A) → (m w).0 ≡ goes_on a → Placed path key (f a (m w).1))
      → Placed path key ((m >>= f) w)
  bind-Placed {A = A} m f w free h = ended (m w).0 refl
    where
      ended : (r : Ended KeyError A) → (m w).0 ≡ r → Placed path key (bind_ended f r (m w).1)
      ended (goes_on a) e = h a e
      ended (returns x) e = inl (λ a g. cc, free)
      ended killed e = inl (λ a g. cc, free)

  -- The mode is set again; the key stays.
  then-Placed :
      (m : Io KeyError (Unit {0}))
      → ((w : World)
          → w.disk path ≡ some (regular key 384)
          → (m w).1.disk path ≡ some (regular key 384))
      → (w : World) → w.disk path ≡ some (regular key 384)
      → Placed path key (m w)
  then-Placed m h w holds = inr (h w holds)

  chmod_again :
      (w : World)
      → w.disk path ≡ some (regular key 384)
      → (chmod_path path 384 w).1.disk path ≡ some (regular key 384)
  chmod_again w holds = elim (chmod_path-cases path 384 w) [
    | inl same ↦ same ∙ holds
    | inr changed ↦ changed ∙ ap (with_mode 384) holds
  ]

  pub finally-Placed :
      {A : Type 0} (c : Io KeyError (Unit {0})) (m : Io KeyError A) (w : World)
      → Leaves path c
      → Placed path key (m w)
      → Placed path key (finally c m w)
  finally-Placed {A = A} c m w leaves h = ended (m w).0 (m w).1 h
    where
      kept_pure :
          (a : A) (r : Ended KeyError (Unit {0})) (v : World)
          → (bind_ended (λ u. pure a) r v).1.disk path ≡ v.disk path
      kept_pure a (goes_on u) v = refl
      kept_pure a (returns e) v = refl
      kept_pure a killed v = refl

      kept_early :
          (x : KeyError) (r : Ended KeyError (Unit {0})) (v : World)
          → ((bind_ended {B = A} (λ u. return_early x) r v).1.disk path ≡ v.disk path)
            × ((a : A) → (bind_ended {B = A} (λ u. return_early x) r v).0 ≢ goes_on a)
      kept_early x (goes_on u) v = (refl, λ a g. cc)
      kept_early x (returns e) v = (refl, λ a g. cc)
      kept_early x killed v = (refl, λ a g. cc)

      ended :
          (r : Ended KeyError A) (v : World)
          → Placed path key (r, v)
          → Placed path key (deferred c r v)
      ended (goes_on a) v (inl (n, free)) = absurd (n a refl)
      ended (goes_on a) v (inr holds) = inr (kept_pure a (c v).0 (c v).1 ∙ (leaves v ∙ holds))
      ended (returns e) v (inl (n, free)) =
          let (same, never) = kept_early e (c v).0 (c v).1 in inl (never, same ∙ (leaves v ∙ free))
      ended (returns e) v (inr holds) = inr ((kept_early e (c v).0 (c v).1).0 ∙ (leaves v ∙ holds))
      ended killed v h = h

  write_key-Leaves : Leaves path (write_key temp key)
  unfolding write_key
  write_key-Leaves =
      bind-Leaves path (on_error (ignore (close temp)) (or_fail (fill temp key 384)))
        (λ u. or_fail (close temp))
        (on_error-Leaves path (ignore (close temp)) (or_fail (fill temp key 384))
          (close-Leaves temp path) (fill-Leaves temp path ne key 384))
        (λ u. close-Leaves temp path)

  write_key-goes_on :
      (w : World)
      → w.disk temp ≡ some (regular [] 384)
      → (write_key temp key w).0 ≡ goes_on tt
      → (write_key temp key w).1.disk temp ≡ some (regular key 384)
  unfolding write_key
  write_key-goes_on w made e =
      let filling = on_error (ignore (close temp)) (or_fail (fill temp key 384)) in
      let (u, fills, rest) = bind-goes_on filling (λ u. or_fail (close temp)) w tt e in
      let (fills', same) =
        on_error-goes_on (ignore (close temp)) (or_fail (fill temp key 384)) w tt fills in
      ap (λ r. r.1.disk temp) rest
      ∙ (close-Leaves temp temp (filling w).1
          ∙ (ap (λ r. r.1.disk temp) same
              ∙ fill-goes_on temp key 384 w 384 made
                  (or_return-goes_on (λ e. failed) (fill temp key 384) w tt fills')))

  pub place_key-Placed :
      (w : World)
      → w.disk temp ≡ some (regular [] 384)
      → w.disk path ≡ none
      → Placed path key (place_key temp path key w)
  unfolding place_key
  place_key-Placed w made free =
      bind-Placed (write_key temp key) _ w (write_key-Leaves w ∙ free) (λ u written.
        let w1 = (write_key temp key w).1 in
        elim (Ended-cases (rename temp path w1).0) [
          | inr ne' ↦
              let still =
                ap (λ d. d path) (rename_fails temp path w1 (ne' tt))
                ∙ (write_key-Leaves w ∙ free) in
              bind-Placed (or_fail (rename temp path)) (λ v. or_fail (chmod_path path 384)) w1 still
                (λ v e.
                  absurd (ne' tt (or_return-goes_on (λ e. failed) (rename temp path) w1 tt e)))
          | inl (v, renamed) ↦
              let there : (rename temp path w1).1.disk path ≡ some (regular key 384) =
                ap (λ d. d path) (rename-goes_on temp path w1 renamed)
                ∙ (update_ne temp path none (update path (w1.disk temp) w1.disk) ne
                    ∙ (update_self path (w1.disk temp) w1.disk
                        ∙ write_key-goes_on w made written)) in
              subst (Placed path key)
                (ap
                  (λ r.
                    bind_ended (λ v. or_fail (chmod_path path 384)) (map_ended (λ e. failed) r)
                      (rename temp path w1).1)
                  (sym renamed))
                (inr (chmod_again (rename temp path w1).1 there))
        ])
