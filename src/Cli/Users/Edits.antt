-- ===== src/Cli/Users/Edits.antt =====
-- Loading, editing and saving the users file: how the `user` commands of internal/cli/usercmd.go
-- change it.
use tabby_sync.Common.{
  ℕ, Bytes, Option, none, some, List, ◌≡◌, ◌≢◌, refl, sym, ◌∙◌, ap, inl, inr, ◌⊎◌, [],
}
use tabby_sync.Files.{
  regular, World, Ended, goes_on, Io, ◌>>=◌, map_ended, read_file, found, bind_ended, contents,
  is_directory, Disk, stat, Node, OsError,
}
use tabby_sync.Files.Leaves.{
  Leaves, bind-Leaves, read_file-Leaves, KeepsUnlessDone, bind-KeepsUnlessDone,
}
use tabby_sync.Files.GoesOn.{bind-goes_on, Ended-cases, read_file-goes_on, or_return-goes_on}
use tabby_sync.Auth.{User}
use tabby_sync.Cli.Atomic.{write_file_atomic_cases, temp_path, write_file_atomic-Completes}
use tabby_sync.Cli.Users.{
  Yaml, RoundTrips, load_users_yaml, save_users_yaml, edit_users_file, parsed, written, or_code,
  decided,
}
use mathlib.Core.Path.{subst}

-- The file at the path can be read as these entries.
abbrev pub Holds : Yaml → Bytes → List User → World → Type 0
Holds yaml path us w =
    (raw : Bytes) × (mode : ℕ) × (w.disk path ≡ some (regular raw mode))
    × (yaml.unmarshal raw ≡ some us)

module _ (yaml : Yaml) (path : Bytes) where
  parsed-Leaves : (q : Bytes) (o : Option (List User)) → Leaves q (parsed yaml o)
  parsed-Leaves q none w = refl
  parsed-Leaves q (some us) w = refl

  load-Leaves : (q : Bytes) → Leaves q (load_users_yaml yaml path)
  unfolding load_users_yaml
  load-Leaves q =
      bind-Leaves q (read_file path) (λ raw. parsed yaml (yaml.unmarshal raw))
        (read_file-Leaves path q) (λ raw. parsed-Leaves q (yaml.unmarshal raw))

  parsed-goes_on :
      (o : Option (List User)) (w : World) (us : List User)
      → (parsed yaml o w).0 ≡ goes_on us
      → o ≡ some us
  parsed-goes_on none w us e = absurd (cc)
  parsed-goes_on (some vs) w us e = cc

  load-goes_on :
      (w : World) (us : List User)
      → (load_users_yaml yaml path w).0 ≡ goes_on us
      → Holds yaml path us w
  unfolding load_users_yaml
  load-goes_on w us e =
      let (raw, reads, rest) =
        bind-goes_on (read_file path) (λ raw. parsed yaml (yaml.unmarshal raw)) w us e in
      let (mode, at) = read_file-goes_on path raw w reads in
      (
        raw,
        mode,
        at,
        parsed-goes_on (yaml.unmarshal raw) (read_file path w).1 us (sym (ap (λ r. r.0) rest) ∙ e),
      )

  module _ (suffix : Bytes) where
    written-IsSafe :
        (o : Option Bytes) (w : World)
        → ((written yaml suffix path o w).0 ≢ goes_on tt
            → (written yaml suffix path o w).1.disk path ≡ w.disk path)
          × ((written yaml suffix path o w).0 ≡ goes_on tt
              → (raw : Bytes) × (o ≡ some raw)
                × ((written yaml suffix path o w).1.disk path ≡ some (regular raw 384)))
    written-IsSafe none w = (λ ne. refl, λ e. absurd (cc))
    written-IsSafe (some raw) w = elim (write_file_atomic_cases suffix path raw 384 w) [
      | inl (e, new, gone) ↦ (λ ne. absurd (ne e), λ e'. (raw, refl, new))
      | inr (ne, old) ↦ (λ ne'. old, λ e. absurd (ne e))
    ]

    pub save-KeepsUnlessDone :
        (us : List User)
        → KeepsUnlessDone {E = ℕ} path (or_code 1 (save_users_yaml yaml suffix path us))
    unfolding save_users_yaml
    save-KeepsUnlessDone us w ne =
        (written-IsSafe (yaml.marshal us) w).0 (λ e. ne tt (ap (map_ended (λ e. 1)) e))

    pub save-goes_on :
        RoundTrips yaml
        → (us : List User) (w : World) → (save_users_yaml yaml suffix path us w).0 ≡ goes_on tt
        → Holds yaml path us (save_users_yaml yaml suffix path us w).1
    unfolding save_users_yaml
    save-goes_on trips us w e =
        let (raw, marshalled, new) = (written-IsSafe (yaml.marshal us) w).1 e in
        (raw, 384, new, trips us raw marshalled)

    module _ (edit : List User → Ended ℕ (List User)) where
      edit_users_file-KeepsUnlessDone : KeepsUnlessDone path (edit_users_file yaml suffix path edit)
      unfolding edit_users_file
      edit_users_file-KeepsUnlessDone =
          bind-KeepsUnlessDone {E = ℕ} path (or_code 1 (load_users_yaml yaml path)) _
            (load-Leaves path)
            (λ us.
              bind-KeepsUnlessDone path (decided (edit us))
                (λ us'. or_code 1 (save_users_yaml yaml suffix path us')) (λ w. refl)
                save-KeepsUnlessDone)

      -- Either the command's code goes on, and the file that held entries holds them edited, or the
      -- file is as it was.
      pub edit_users_file-Edits :
          RoundTrips yaml
          → (w : World)
          → let (r, after) = edit_users_file yaml suffix path edit w in
            ((r ≡ goes_on tt)
              × (us : List User) × (us' : List User) × Holds yaml path us w
              × (edit us ≡ goes_on us')
              × Holds yaml path us' after)
            ⊎ ((r ≢ goes_on tt) × (after.disk path ≡ w.disk path))
      unfolding edit_users_file
      edit_users_file-Edits trips w =
          elim (Ended-cases (edit_users_file yaml suffix path edit w).0) [
            | inr ne ↦ inr (ne tt, edit_users_file-KeepsUnlessDone w ne)
            | inl (u, e) ↦
                let save : List User → Io ℕ (Unit {0}) =
                  λ us'. or_code 1 (save_users_yaml yaml suffix path us') in
                let edited : List User → Io ℕ (Unit {0}) = λ us. decided (edit us) >>= save in
                let (us, loads, rest) =
                  bind-goes_on (or_code 1 (load_users_yaml yaml path)) edited w tt e in
                let w1 = (load_users_yaml yaml path w).1 in
                let (us', edits, rest2) =
                  bind-goes_on (decided (edit us)) save w1 tt (sym (ap (λ r. r.0) rest) ∙ e) in
                let end = rest ∙ rest2 in
                let saves =
                  or_return-goes_on (λ e. 1) (save_users_yaml yaml suffix path us') w1 tt
                    (sym (ap (λ r. r.0) end) ∙ e) in
                inl (
                  e,
                  us,
                  us',
                  load-goes_on w us
                      (or_return-goes_on (λ e. 1) (load_users_yaml yaml path) w us loads),
                  edits,
                  subst (Holds yaml path us') (sym (ap (λ r. r.1) end))
                      (save-goes_on trips us' w1 saves),
                )
          ]

-- If no system call fails, the file holds entries that the edit takes to others, these can be
-- marshalled, and the temporary name is free, then the entries are edited and saved.
module _ (yaml : Yaml) (path suffix : Bytes) (edit : List User → Ended ℕ (List User)) where
  pub edit_users_file-Completes :
      (d : Disk) (us us' : List User) (raw : Bytes)
      → Holds yaml path us (record { disk = d; fates = [] })
      → edit us ≡ goes_on us'
      → yaml.marshal us' ≡ some raw
      → d (temp_path path suffix) ≡ none
      → (edit_users_file yaml suffix path edit (record { disk = d; fates = [] })).0 ≡ goes_on tt
  unfolding edit_users_file load_users_yaml save_users_yaml read_file stat
  edit_users_file-Completes d us us' raw (old, mode, at, parses) edits marshals free =
      let w : World = record { disk = d; fates = [] } in
      let save : List User → Io ℕ (Unit {0}) =
        λ us'. or_code 1 (save_users_yaml yaml suffix path us') in
      let edited : List User → Io ℕ (Unit {0}) = λ us. decided (edit us) >>= save in
      let reading : Option Node → Io OsError Bytes = λ o v. bind_ended contents (found o) v in
      let loading : Io OsError Bytes → Io ℕ (List User) =
        λ m. or_code 1 (m >>= λ bytes. parsed yaml (yaml.unmarshal bytes)) in
      ap (λ o. ((loading (reading o) >>= edited) w).0) at
      ∙ (ap (λ o. ((or_code 1 (parsed yaml o) >>= edited) w).0) parses
          ∙ (ap (λ r. (bind_ended save r w).0) edits
              ∙ (ap (λ o. (or_code 1 (written yaml suffix path o) w).0) marshals
                  ∙ ap (map_ended (λ e. 1)) (
                      write_file_atomic-Completes suffix path raw 384 d free
                        (ap is_directory at)))))
