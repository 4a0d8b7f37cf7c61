-- ===== src/Cli/Bootstrap/Credentials.antt =====
-- What runBootstrap of internal/cli/usercmd.go leaves behind, however it ends.
use tabby_sync.Common.{
  ℕ, ◌==◌, Bytes, lit, is_empty, Bool, true, false, not, Option, none, some, List, [], ◌∷◌, ◌++◌,
  length, ◌≡◌, ◌≢◌, refl, sym, ◌∙◌, ap, inl, inr, ◌⊎◌,
}
use tabby_sync.Files.{
  Node, regular, OsError, not_exist, os_error, World, Ended, goes_on, returns, killed, Io, ◌>>=◌,
  ◌>>◌, ignore, on_error, tried, tried_ended, map_ended, mkdir_all, stat, remove, bind_ended,
}
use tabby_sync.Files.Paths.{dir}
use tabby_sync.Files.Leaves.{
  Leaves, mkdir_all-Leaves, stat-Leaves, remove-Leaves, on_error-KeepsUnlessDone,
}
use tabby_sync.Files.GoesOn.{on_error-goes_on, Ended-cases, stat-not_exist, or_return-goes_on}
use tabby_sync.Auth.Text.{trim_space}
use tabby_sync.Cli.Atomic.{
  temp_path, write_file_atomic, write_file_atomic_cases, write_file_atomic-Leaves,
}
use tabby_sync.Cli.Users.{
  Yaml, RoundTrips, Token, require, or_code, arg_at, resolve_users_file, generate_token,
  save_users_yaml, written,
}
use tabby_sync.Cli.Users.Edits.{Holds, save-KeepsUnlessDone, save-goes_on}
use tabby_sync.Cli.Bootstrap.{
  BootstrapInputs, token_path, first_user, create_credentials, run_bootstrap, drawn_token,
  unless_there, is_there,
}
use mathlib.Core.Path.{subst}

module _ (sha256 : Bytes → Bytes) (yaml : Yaml) (getenv : Bytes → Bytes) (inputs : BootstrapInputs)
    (name : Bytes) where
  -- The users file is as it was, and the code does not go on; or the file was missing, and now
  -- holds one user, whose token stands in token.txt.
  abbrev pub Created : Option Node → Ended ℕ (Unit {0}) × World → Type 0
  Created before x =
      ((x.0 ≢ goes_on tt) × (x.1.disk (resolve_users_file getenv) ≡ before))
      ⊎ ((x.0 ≡ goes_on tt)
          × (before ≡ none)
          × (random : Bytes) × (inputs.random ≡ some random)
          × (let token = generate_token sha256 random in
              (x.1.disk (token_path getenv) ≡ some (regular (token.plaintext ++ b'\n' ∷ []) 384))
              × Holds yaml (resolve_users_file getenv) (first_user name token) x.1))

  -- Code that leaves the users file, in front of code that creates the credentials.
  bind-Created :
      {A : Type 0} (m : Io ℕ A) (f : A → Io ℕ (Unit {0})) (w : World)
      → Leaves (resolve_users_file getenv) m
      → ((a : A)
          → (m w).0 ≡ goes_on a
          → Created ((m w).1.disk (resolve_users_file getenv)) (f a (m w).1))
      → Created (w.disk (resolve_users_file getenv)) ((m >>= f) w)
  bind-Created {A = A} m f w leaves h = ended (m w).0 refl
    where
      ended :
          (r : Ended ℕ A)
          → (m w).0 ≡ r
          → Created (w.disk (resolve_users_file getenv)) (bind_ended f r (m w).1)
      ended (goes_on a) e = subst (λ o. Created o (f a (m w).1)) (leaves w) (h a e)
      ended (returns x) e = inl (λ g. cc, leaves w)
      ended killed e = inl (λ g. cc, leaves w)

  module _ (trips : RoundTrips yaml) (apart : resolve_users_file getenv ≢ token_path getenv)
      (temp_ne : temp_path (token_path getenv) inputs.token_suffix ≢ resolve_users_file getenv)
      (temp_ne' : temp_path (resolve_users_file getenv) inputs.users_suffix
        ≢ token_path getenv) where
    write_token : Token → Io ℕ (Unit {0})
    write_token token = or_code 1 (
        write_file_atomic inputs.token_suffix (token_path getenv) (token.plaintext ++ b'\n' ∷ [])
          384)

    save_user : Token → Io ℕ (Unit {0})
    save_user token = or_code 1 (
        save_users_yaml yaml inputs.users_suffix (resolve_users_file getenv)
          (first_user name token))

    write_token-goes_on :
        (token : Token) (w : World)
        → (write_token token w).0 ≡ goes_on tt
        → (write_token token w).1.disk (token_path getenv)
          ≡ some (regular (token.plaintext ++ b'\n' ∷ []) 384)
    unfolding write_token
    write_token-goes_on token w e =
        let write =
          write_file_atomic inputs.token_suffix (token_path getenv) (token.plaintext ++ b'\n' ∷ [])
            384 in
        elim (write_file_atomic_cases inputs.token_suffix (token_path getenv)
          (token.plaintext ++ b'\n' ∷ []) 384 w) [
            | inl (done, new, gone) ↦ new
            | inr (ne, old) ↦ absurd (ne (or_return-goes_on (λ e. 1) write w tt e))
          ]

    written-Leaves :
        (q : Bytes) (o : Option Bytes)
        → temp_path (resolve_users_file getenv) inputs.users_suffix ≢ q
        → resolve_users_file getenv ≢ q
        → Leaves q (written yaml inputs.users_suffix (resolve_users_file getenv) o)
    written-Leaves q none ne ne' w = refl
    written-Leaves q (some raw) ne ne' w =
        write_file_atomic-Leaves inputs.users_suffix (resolve_users_file getenv) raw 384 q ne ne' w

    save_user-Leaves : (token : Token) → Leaves (token_path getenv) (save_user token)
    unfolding save_user save_users_yaml
    save_user-Leaves token =
        written-Leaves (token_path getenv) (yaml.marshal (first_user name token)) temp_ne' apart

    -- The users file, once the token has been written.
    saved :
        (random : Bytes) (w : World)
        → inputs.random ≡ some random
        → w.disk (resolve_users_file getenv) ≡ none
        → w.disk (token_path getenv)
          ≡ some (regular ((generate_token sha256 random).plaintext ++ b'\n' ∷ []) 384)
        → Created none (
            on_error
              (ignore (remove (token_path getenv)))
              (save_user (generate_token sha256 random))
              w)
    unfolding save_user
    saved random w drawn missing stands =
        let path = resolve_users_file getenv in
        let token = generate_token sha256 random in
        let clean : Io ℕ (Unit {0}) = ignore (remove (token_path getenv)) in
        let code = on_error clean (save_user token) in
        elim (Ended-cases (code w).0) [
          | inr ne ↦ inl (
            ne tt,
            on_error-KeepsUnlessDone path clean (save_user token)
                  (remove-Leaves (token_path getenv) path (λ e. apart (sym e)))
                  (save-KeepsUnlessDone yaml path inputs.users_suffix (first_user name token)) w ne
                ∙ missing,
          )
          | inl (u, e) ↦
              let (saves, same) = on_error-goes_on clean (save_user token) w tt e in
              let holds =
                save-goes_on yaml path inputs.users_suffix trips (first_user name token) w (
                  or_return-goes_on (λ e. 1)
                    (save_users_yaml yaml inputs.users_suffix path (first_user name token)) w tt
                    saves) in
              inr (
                e,
                refl,
                random,
                drawn,
                (
                  ap (λ r. r.1.disk (token_path getenv)) same ∙ (save_user-Leaves token w ∙ stands),
                  subst (Holds yaml path (first_user name token)) (sym (ap (λ r. r.1) same)) holds,
                ),
              )
        ]

    create_credentials-Created :
        (w : World)
        → w.disk (resolve_users_file getenv) ≡ none
        → Created none (create_credentials sha256 yaml getenv inputs name w)
    unfolding create_credentials write_token save_user
    create_credentials-Created w missing = with_random inputs.random refl
      where
        code : Token → Io ℕ (Unit {0})
        code token =
            write_token token >> on_error (ignore (remove (token_path getenv))) (save_user token)

        with_random :
            (o : Option Bytes)
            → inputs.random ≡ o
            → Created none ((drawn_token sha256 o >>= code) w)
        with_random none drawn = inl (λ g. cc, missing)
        with_random (some random) drawn =
            let token = generate_token sha256 random in
            let leaves =
              write_file_atomic-Leaves inputs.token_suffix (token_path getenv)
                (token.plaintext ++ b'\n' ∷ []) 384 (resolve_users_file getenv) temp_ne
                (λ e. apart (sym e)) in
            subst (λ o. Created o (code token w)) missing
              (bind-Created (write_token token) _ w leaves (λ u e.
                subst
                  (λ o. Created o (
                    on_error (ignore (remove (token_path getenv))) (save_user token)
                      (write_token token w).1))
                  (sym (leaves w ∙ missing))
                  (saved random (write_token token w).1 drawn (leaves w ∙ missing)
                    (write_token-goes_on token w e))))

    unless_there-Created :
        (answer : Ended OsError Node) (w : World)
        → (answer ≡ returns not_exist → w.disk (resolve_users_file getenv) ≡ none)
        → Created
            (w.disk (resolve_users_file getenv))
            (unless_there sha256 yaml getenv inputs name (is_there answer) w)
    unless_there-Created (goes_on n) w missing = inl (λ g. cc, refl)
    unless_there-Created (returns not_exist) w missing =
        subst (λ o. Created o (create_credentials sha256 yaml getenv inputs name w))
          (sym (missing refl)) (create_credentials-Created w (missing refl))
    unless_there-Created (returns os_error) w missing = inl (λ g. cc, refl)
    unless_there-Created killed w missing = inl (λ g. cc, refl)

    require-Created :
        (b : Bool) (code : ℕ) (m : Io ℕ (Unit {0})) (w : World)
        → Created (w.disk (resolve_users_file getenv)) (m w)
        → Created (w.disk (resolve_users_file getenv)) ((require b code >> m) w)
    require-Created true code m w h = h
    require-Created false code m w h = inl (λ g. cc, refl)

tried-returns :
    (m : Io OsError Node) (w : World) (answer : Ended OsError Node) (e : OsError)
    → (or_code 1 (tried m) w).0 ≡ goes_on answer
    → answer ≡ returns e
    → (m w).0 ≡ returns e
tried-returns m w answer e h k = ended (m w).0 h
  where
    ended :
        (r : Ended OsError Node)
        → map_ended {E' = ℕ} (λ e. 1) (tried_ended r) ≡ goes_on answer
        → r ≡ returns e
    ended (goes_on n) h = absurd (cc)
    ended (returns x) h = cc
    ended killed h = absurd (cc)

-- However bootstrap ends, by success, by an error of any system call or by the death of the process
-- in any of them, the users file either is as it was, or was missing and now holds one user of the
-- given name with id 1, and then token.txt, of mode 0600, holds that user's token; it holds the
-- user exactly if bootstrap has created the credentials. The paths that bootstrap writes are
-- assumed to differ, and what yaml.Marshal writes to be read back.
pub run_bootstrap-Created :
    (sha256 : Bytes → Bytes) (yaml : Yaml) (getenv : Bytes → Bytes) (inputs : BootstrapInputs)
    (args : List Bytes) (w : World)
    → RoundTrips yaml
    → resolve_users_file getenv ≢ token_path getenv
    → temp_path (token_path getenv) inputs.token_suffix ≢ resolve_users_file getenv
    → temp_path (resolve_users_file getenv) inputs.users_suffix ≢ token_path getenv
    → getenv (lit "TABBY_SYNC_DATA_DIR") ≢ resolve_users_file getenv
    → dir (resolve_users_file getenv) ≢ resolve_users_file getenv
    → Created sha256 yaml getenv inputs
        (trim_space (arg_at 2 args))
        (w.disk (resolve_users_file getenv))
        (run_bootstrap sha256 yaml getenv inputs args w)
unfolding run_bootstrap
run_bootstrap-Created sha256 yaml getenv inputs args w trips apart ne ne' data_ne dir_ne =
    let path = resolve_users_file getenv in
    let name = trim_space (arg_at 2 args) in
    let data_dir = getenv (lit "TABBY_SYNC_DATA_DIR") in
    require-Created sha256 yaml getenv inputs name trips apart ne ne' (length args == 3) 2 _ w (
      require-Created sha256 yaml getenv inputs name trips apart ne ne' (not (is_empty name)) 2 _ w
        (require-Created sha256 yaml getenv inputs name trips apart ne ne' (not (is_empty data_dir))
          2 _ w
          (require-Created sha256 yaml getenv inputs name trips apart ne ne' (not (is_empty path)) 2
            _ w
            (bind-Created sha256 yaml getenv inputs name (or_code 1 (mkdir_all data_dir)) _ w
              (mkdir_all-Leaves data_dir path data_ne)
              (λ u e.
                bind-Created sha256 yaml getenv inputs name (or_code 1 (mkdir_all (dir path))) _
                  (mkdir_all data_dir w).1 (mkdir_all-Leaves (dir path) path dir_ne)
                  (λ v e.
                    let w2 = (mkdir_all (dir path) (mkdir_all data_dir w).1).1 in
                    bind-Created sha256 yaml getenv inputs name (or_code 1 (tried (stat path))) _ w2
                      (stat-Leaves path path)
                      (λ answer e.
                        unless_there-Created sha256 yaml getenv inputs name trips apart ne ne'
                          answer (stat path w2).1
                          (λ k.
                            stat-Leaves path path w2
                            ∙ stat-not_exist path w2
                                (tried-returns (stat path) w2 answer not_exist e k)))))))))
