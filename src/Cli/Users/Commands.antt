-- ===== src/Cli/Users/Commands.antt =====
-- The `user` commands of internal/cli/usercmd.go from the arguments to the disk.
use tabby_sync.Common.{
  ℕ, Bytes, lit, bytes_eq, bytes_eq_iff, is_empty, Bool, true, false, not, ◌||◌, List, [], length,
  ltb, ◌≡◌, ◌≢◌, refl, arith, inl, inr, ◌⊎◌, Bool-cases, if◌then◌else◌,
}
use tabby_sync.Files.{World, Ended, goes_on, Io, ◌>>◌}
use tabby_sync.Auth.{User}
use tabby_sync.Auth.Text.{trim_space}
use tabby_sync.Cli.Users.{
  Yaml, RoundTrips, Inputs, require, arg_at, drop_args, resolve_users_file, parse_rm, is_confirmed,
  add_user, remove_user, rotate_user, run_user_add, run_user_rm, run_user_rotate, run_user,
}
use tabby_sync.Cli.Users.Edits.{Holds, edit_users_file-Edits}

-- Either the command goes on to exit code 0, and the file that held entries holds ones that they
-- are related to, or the file is as it was.
abbrev pub Edited :
    Yaml → Bytes → (List User → List User → Type 0) → World → Ended ℕ (Unit {0}) × World → Type 0
Edited yaml path R w x =
    ((x.0 ≡ goes_on tt)
      × (us : List User) × (us' : List User) × Holds yaml path us w
      × R us us'
      × Holds yaml path us' x.1)
    ⊎ ((x.0 ≢ goes_on tt) × (x.1.disk path ≡ w.disk path))

module _ (yaml : Yaml) (path : Bytes) where
  require-Edited :
      (R : List User → List User → Type 0) (b : Bool) (code : ℕ) (m : Io ℕ (Unit {0}))
      → ((w : World) → Edited yaml path R w (m w))
      → (w : World) → Edited yaml path R w ((require b code >> m) w)
  require-Edited R true code m h w = h w
  require-Edited R false code m h w = inr (λ e. cc, refl)

  Edited-weaken :
      (R S : List User → List User → Type 0)
      → ((us us' : List User) → R us us' → S us us')
      → (w : World) (r : Ended ℕ (Unit {0}) × World) → Edited yaml path R w r
      → Edited yaml path S w r
  Edited-weaken R S h w r (inl (e, us, us', before, edit, after)) =
      inl (e, us, us', before, h us us' edit, after)
  Edited-weaken R S h w r (inr same) = inr same

  if-Edited :
      (R : List User → List User → Type 0) (b : Bool) (m n : Io ℕ (Unit {0})) (w : World)
      → (b ≡ true → Edited yaml path R w (m w))
      → (b ≡ false → Edited yaml path R w (n w))
      → Edited yaml path R w ((if b then m else n) w)
  if-Edited R true m n w h k = h refl
  if-Edited R false m n w h k = k refl

either_name : (a b c : Bytes) → (bytes_eq a b || bytes_eq a c) ≡ true → (a ≡ b) ⊎ (a ≡ c)
either_name a b c h = elim (Bool-cases (bytes_eq a b)) [
  | inl same ↦ inl ((bytes_eq_iff a b).0 same)
  | inr differ ↦ inr ((bytes_eq_iff a c).0 (ground arith))
]

module _ (sha256 : Bytes → Bytes) (yaml : Yaml) (getenv : Bytes → Bytes) (inputs : Inputs)
    (args : List Bytes) where
  -- What the arguments ask for.
  abbrev pub Asked : List User → List User → Type 0
  Asked us us' =
      ((arg_at 2 args ≡ lit "add")
        × (add_user sha256 (trim_space (arg_at 3 args)) inputs.random us ≡ goes_on us'))
      ⊎ (((arg_at 2 args ≡ lit "rm") ⊎ (arg_at 2 args ≡ lit "remove"))
          × (let (force, target) = parse_rm false [] (drop_args 3 args) in
              remove_user target (is_confirmed force inputs.answer) us ≡ goes_on us'))
      ⊎ ((arg_at 2 args ≡ lit "rotate")
          × (rotate_user sha256 (trim_space (arg_at 3 args)) inputs.random us ≡ goes_on us'))

  module _ (trips : RoundTrips yaml) where
    add-Edited :
        (w : World)
        → Edited yaml
            (resolve_users_file getenv)
            (λ us us'. add_user sha256 (trim_space (arg_at 3 args)) inputs.random us ≡ goes_on us')
            w
            (run_user_add sha256 yaml getenv inputs args w)
    unfolding run_user_add
    add-Edited =
        let path = resolve_users_file getenv in
        let R : List User → List User → Type 0 =
          λ us us'. add_user sha256 (trim_space (arg_at 3 args)) inputs.random us ≡ goes_on us' in
        require-Edited yaml path R (not (ltb (length args) 4)) 2 _ (
          require-Edited yaml path R (not (is_empty (trim_space (arg_at 3 args)))) 2 _ (
            require-Edited yaml path R (not (is_empty path)) 2 _ (
              edit_users_file-Edits yaml path inputs.suffix
                (add_user sha256 (trim_space (arg_at 3 args)) inputs.random) trips)))

    rm-Edited :
        (w : World)
        → Edited yaml
            (resolve_users_file getenv)
            (λ us us'.
              let (force, target) = parse_rm false [] (drop_args 3 args) in
              remove_user target (is_confirmed force inputs.answer) us ≡ goes_on us')
            w
            (run_user_rm sha256 yaml getenv inputs args w)
    unfolding run_user_rm
    rm-Edited =
        let path = resolve_users_file getenv in
        let (force, target) = parse_rm false [] (drop_args 3 args) in
        let R : List User → List User → Type 0 =
          λ us us'. remove_user target (is_confirmed force inputs.answer) us ≡ goes_on us' in
        require-Edited yaml path R (not (ltb (length args) 4)) 2 _ (
          require-Edited yaml path R (not (is_empty target)) 2 _ (
            require-Edited yaml path R (not (is_empty path)) 2 _ (
              edit_users_file-Edits yaml path inputs.suffix
                (remove_user target (is_confirmed force inputs.answer)) trips)))

    rotate-Edited :
        (w : World)
        → Edited yaml
            (resolve_users_file getenv)
            (λ us us'.
              rotate_user sha256 (trim_space (arg_at 3 args)) inputs.random us ≡ goes_on us')
            w
            (run_user_rotate sha256 yaml getenv inputs args w)
    unfolding run_user_rotate
    rotate-Edited =
        let path = resolve_users_file getenv in
        let R : List User → List User → Type 0 = λ us us'.
          rotate_user sha256 (trim_space (arg_at 3 args)) inputs.random us ≡ goes_on us' in
        require-Edited yaml path R (not (ltb (length args) 4)) 2 _ (
          require-Edited yaml path R (not (is_empty path)) 2 _ (
            edit_users_file-Edits yaml path inputs.suffix
              (rotate_user sha256 (trim_space (arg_at 3 args)) inputs.random) trips))

    -- `tabby-sync user` with any arguments, and however its system calls end, either exits with
    -- code 0 and turns the entries of the users file into those that the arguments ask for, or
    -- leaves the users file as it was. What yaml.Marshal writes is assumed to be read back.
    pub run_user-Edited :
        (w : World)
        → Edited yaml
            (resolve_users_file getenv)
            Asked
            w
            (run_user sha256 yaml getenv inputs args w)
    unfolding run_user
    run_user-Edited w =
        let path = resolve_users_file getenv in
        let cmd = arg_at 2 args in
        if-Edited yaml path Asked (ltb (length args) 3) _ _ w (λ e. inr (λ e. cc, refl))
          (λ enough.
            if-Edited yaml path Asked (bytes_eq cmd (lit "add")) _ _ w
              (λ is_add.
                Edited-weaken yaml path _ Asked
                  (λ us us' e. inl ((bytes_eq_iff cmd (lit "add")).0 is_add, e)) w
                  (run_user_add sha256 yaml getenv inputs args w) (add-Edited w))
              (λ not_add.
                if-Edited yaml path Asked (bytes_eq cmd (lit "rm") || bytes_eq cmd (lit "remove")) _
                  _ w
                  (λ is_rm.
                    Edited-weaken yaml path _ Asked
                      (λ us us' e. inr (inl (either_name cmd (lit "rm") (lit "remove") is_rm, e))) w
                      (run_user_rm sha256 yaml getenv inputs args w) (rm-Edited w))
                  (λ not_rm.
                    if-Edited yaml path Asked (bytes_eq cmd (lit "rotate")) _ _ w
                      (λ is_rotate.
                        Edited-weaken yaml path _ Asked
                          (λ us us' e. inr (inr ((bytes_eq_iff cmd (lit "rotate")).0 is_rotate, e)))
                          w (run_user_rotate sha256 yaml getenv inputs args w) (rotate-Edited w))
                      (λ unknown. inr (λ e. cc, refl)))))
