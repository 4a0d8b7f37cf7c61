-- ===== src/Cli/Init/Keeps.antt =====
-- init of internal/cli/usercmd.go does not overwrite what is there.
use tabby_sync.Common.{
  ℕ, Bytes, lit, is_empty, Bool, true, false, not, Option, none, some, [], ◌≡◌, ◌≢◌, refl, sym, ◌∙◌,
  ap, or_else,
}
use tabby_sync.Files.{
  Node, OsError, not_exist, os_error, World, Ended, goes_on, returns, killed, Io, ◌>>=◌, ◌>>◌,
  bind_ended, tried, tried_ended, map_ended, mkdir_all, stat, write_file, open_truncated, write,
  close,
}
use tabby_sync.Files.Leaves.{
  Leaves, bind-Leaves, mkdir_all-Leaves, stat-Leaves, open_truncated-Leaves, write-Leaves,
  close-Leaves,
}
use tabby_sync.Files.GoesOn.{stat-not_exist}
use tabby_sync.Cli.Users.{Yaml, require, or_code, resolve_users_file}
use tabby_sync.Cli.Init.{
  file_provider, is_absent, when, write_new_key, master_key_path, init_key, init_users, run_init,
}

-- What is at the path stays, if anything is there.
abbrev Keeps : {A : Type 0} → Bytes → Io ℕ A → Type 0
Keeps q m = (w : World) (n : Node) → w.disk q ≡ some n → (m w).1.disk q ≡ some n

Leaves-Keeps : {A : Type 0} (q : Bytes) (m : Io ℕ A) → Leaves q m → Keeps q m
Leaves-Keeps q m h w n there = h w ∙ there

bind-Keeps :
    {A B : Type 0} (q : Bytes) (m : Io ℕ A) (f : A → Io ℕ B)
    → Keeps q m
    → ((a : A) → Keeps q (f a))
    → Keeps q (m >>= f)
bind-Keeps {A = A} {B = B} q m f h k w n there = ended (m w).0 (m w).1 (h w n there)
  where
    ended : (r : Ended ℕ A) (v : World) → v.disk q ≡ some n → (bind_ended f r v).1.disk q ≡ some n
    ended (goes_on a) v there = k a v n there
    ended (returns e) v there = there
    ended killed v there = there

write_file-Leaves : (p q bytes : Bytes) (mode : ℕ) → p ≢ q → Leaves q (write_file p bytes mode)
unfolding write_file
write_file-Leaves p q bytes mode ne =
    bind-Leaves q (open_truncated p mode) (λ u. write p bytes >> close p)
      (open_truncated-Leaves p q ne mode)
      (λ u.
        bind-Leaves q (write p bytes) (λ v. close p) (write-Leaves p q ne bytes)
          (λ v. close-Leaves p q))

-- A file is written only if there is none.
module _ (p q : Bytes) (m : Io ℕ (Unit {0})) (leaves : p ≢ q → Leaves q m) where
  when-Keeps :
      (b : Bool) (w : World) (n : Node)
      → w.disk q ≡ some n
      → (b ≡ true → p ≢ q)
      → (when b m w).1.disk q ≡ some n
  when-Keeps true w n there ne = leaves (ne refl) w ∙ there
  when-Keeps false w n there ne = there

  absent-ne :
      (w : World) (n : Node) (answer : Ended OsError Node)
      → w.disk q ≡ some n
      → (stat p w).0 ≡ answer
      → is_absent answer ≡ true
      → p ≢ q
  absent-ne w n (goes_on x) there e h same = cc
  absent-ne w n (returns not_exist) there e h same =
      absurd (missing (sym (ap w.disk same) ∙ stat-not_exist p w e) there)
    where
      missing : w.disk q ≡ none → w.disk q ≡ some n → ⊥
      missing a b = cc
  absent-ne w n (returns os_error) there e h same = cc
  absent-ne w n killed there e h same = cc

  unless_there-Keeps : Keeps q (or_code 1 (tried (stat p)) >>= λ answer. when (is_absent answer) m)
  unless_there-Keeps w n there = ended (stat p w).0 refl
    where
      kept : (stat p w).1.disk q ≡ some n
      kept = stat-Leaves p q w ∙ there

      ended :
          (r : Ended OsError Node)
          → (stat p w).0 ≡ r
          → (bind_ended
                (λ answer. when (is_absent answer) m)
                (map_ended (λ e. 1) (tried_ended {E = OsError} r))
                (stat p w).1).1.disk
              q
            ≡ some n
      ended (goes_on x) e = kept
      ended (returns x) e =
          when-Keeps (is_absent (returns x)) (stat p w).1 n kept (absent-ne w n (returns x) there e)
      ended killed e = kept

module _ (q : Bytes) where
  write_new_key-Leaves :
      (path : Bytes) (random : Option Bytes) → path ≢ q → Leaves q (write_new_key path random)
  write_new_key-Leaves path none ne w = refl
  write_new_key-Leaves path (some key) ne w = write_file-Leaves path q key 384 ne w

  optional-Keeps : (b : Bool) (m : Io ℕ (Unit {0})) → Keeps q m → Keeps q (when b m)
  optional-Keeps true m h w n there = h w n there
  optional-Keeps false m h w n there = there

  require-Keeps :
      (b : Bool) (code : ℕ) (m : Io ℕ (Unit {0})) → Keeps q m → Keeps q (require b code >> m)
  require-Keeps true code m h w n there = h w n there
  require-Keeps false code m h w n there = there

-- Whatever stands at a path, a master key or a users file among it, stands there unchanged after
-- init, whether init succeeds, fails or dies in any system call. The path is not that of the data
-- directory, and the database engine is assumed to leave it.
pub run_init-Keeps :
    (yaml : Yaml) (open_database : Io OsError (Unit {0})) (getenv : Bytes → Bytes)
    (random : Option Bytes) (q : Bytes) (w : World) (n : Node)
    → getenv (lit "TABBY_SYNC_DATA_DIR") ≢ q
    → Leaves q open_database
    → w.disk q ≡ some n
    → (run_init yaml open_database getenv random w).1.disk q ≡ some n
unfolding run_init init_key init_users
run_init-Keeps yaml open_database getenv random q w n dir_ne leaves =
    let dir = getenv (lit "TABBY_SYNC_DATA_DIR") in
    let key = master_key_path getenv in
    let users = resolve_users_file getenv in
    let skeleton = or_else (yaml.marshal []) [] in
    let uses_file = file_provider (getenv (lit "TABBY_SYNC_MASTER_KEY_PROVIDER")) in
    require-Keeps q (not (is_empty dir)) 2 _
      (bind-Keeps q (or_code 1 (mkdir_all dir)) _
        (Leaves-Keeps q (or_code 1 (mkdir_all dir)) (mkdir_all-Leaves dir q dir_ne))
        (λ u.
          bind-Keeps q (when uses_file (init_key yaml open_database getenv random)) _
            (optional-Keeps q uses_file (init_key yaml open_database getenv random) (
              unless_there-Keeps key q (write_new_key key random)
                (write_new_key-Leaves q key random)))
            (λ u.
              bind-Keeps q (init_users yaml open_database getenv random)
                (λ v. or_code 1 open_database)
                (unless_there-Keeps users q (or_code 1 (write_file users skeleton 384))
                  (write_file-Leaves users q skeleton 384))
                (λ v. Leaves-Keeps q (or_code 1 open_database) leaves))))
      w n
