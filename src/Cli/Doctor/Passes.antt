-- ===== src/Cli/Doctor/Passes.antt =====
-- What a run of doctor of internal/cli/usercmd.go that finds no issue has seen.
use tabby_sync.Common.{
  ℕ, ◌+◌, ◌*◌, ◌==◌, ==_iff, Bytes, lit, bytes_eq, bytes_eq_iff, true, not, Option, some, List,
  length, ◌≡◌, refl, sym, ◌∙◌, ap, arith, Bool-cases, inl, inr, ◌⊎◌, if◌then◌else◌, [], ◌∷◌,
}
use tabby_sync.Files.{
  Node, regular, directory, OsError, World, Ended, goes_on, returns, killed, Io, ◌>>=◌, bind_ended,
  map_ended, tried_ended, pure, stat, return_early,
}
use tabby_sync.Files.Paths.{join}
use tabby_sync.Files.GoesOn.{bind-goes_on, stat-goes_on}
use tabby_sync.Auth.{User}
use tabby_sync.Auth.Loading.{load_users_file, IsServable, load_users_file-IsServable}
use tabby_sync.Keys.{master_key_size}
use tabby_sync.Cli.Doctor.{
  issue_if, looked_at, check, check_data_dir, doctor_users_file, check_users_file, check_size,
  check_key_file, check_key_variable, check_master_key, check_database, verdict, run_doctor,
  probe_directory,
}

abbrev issues : Ended ℕ ℕ → ℕ
issues (goes_on n) = n
issues (returns code) = 0
issues killed = 0

-- A check without an issue has seen its call succeed.
check-none :
    {E A : Type 0} (m : Io E A) (f : A → Io ℕ ℕ) (w : World)
    → (check m f w).0 ≡ goes_on 0
    → (a : A) × ((m w).0 ≡ goes_on a) × ((f a (m w).1).0 ≡ goes_on 0)
check-none {E = E} {A = A} m f w e = ended (m w).0 e
  where
    ended :
        (r : Ended E A)
        → (bind_ended (looked_at {E = E} f) (map_ended (λ e. 1) (tried_ended r)) (m w).1).0
          ≡ goes_on 0
        → (a : A) × (r ≡ goes_on a) × ((f a (m w).1).0 ≡ goes_on 0)
    ended (goes_on a) e = (a, refl, e)
    ended (returns x) e = absurd (omega (arith, ap issues e))
    ended killed e = absurd (cc)

one_issue : {P : Type 0} (w : World) → (issue_if true w).0 ≡ goes_on 0 → P
one_issue w e = absurd (omega (arith, ap issues e))

-- The key file has the size of a key.
check_key_file-none :
    (data_dir : Bytes) (w : World)
    → (check_key_file data_dir w).0 ≡ goes_on 0
    → (bytes : Bytes) × (mode : ℕ) × (w.disk (join data_dir (lit "master.key"))
        ≡ some (regular bytes mode))
      × (length bytes ≡ master_key_size)
unfolding check_key_file
check_key_file-none [] w e = one_issue w e
check_key_file-none (c ∷ d) w e =
    let key = join (c ∷ d) (lit "master.key") in
    let (n, found, sized) = check-none (stat key) check_size w e in
    size n (stat-goes_on key w n found) sized
  where
    size :
        (n : Node)
        → w.disk (join (c ∷ d) (lit "master.key")) ≡ some n
        → (check_size n (stat (join (c ∷ d) (lit "master.key")) w).1).0 ≡ goes_on 0
        → (bytes : Bytes) × (mode : ℕ) × (w.disk (join (c ∷ d) (lit "master.key"))
            ≡ some (regular bytes mode))
          × (length bytes ≡ master_key_size)
    size (regular bytes mode) at e = elim (Bool-cases (length bytes == master_key_size)) [
      | inl same ↦ (bytes, mode, at, (==_iff (length bytes) 32).0 same)
      | inr differ ↦ one_issue w (
          sym (ap (λ b. (issue_if (not b) (stat (join (c ∷ d) (lit "master.key")) w).1).0) differ)
          ∙ e)
    ]
    size directory at e = one_issue w e

check_key_variable-none :
    (key : Bytes) (w : World)
    → (check_key_variable key w).0 ≡ goes_on 0
    → length key ≡ master_key_size * 2
unfolding check_key_variable
check_key_variable-none [] w e = one_issue w e
check_key_variable-none (c ∷ key) w e =
    elim (Bool-cases (length (c ∷ key) == master_key_size * 2)) [
      | inl same ↦ (==_iff (length (c ∷ key)) 64).0 same
      | inr differ ↦ one_issue w (sym (ap (λ b. (issue_if (not b) w).0) differ) ∙ e)
    ]

-- The provider is "file" with a key file of the right size, or "env" with a variable of the right
-- length.
abbrev pub HasKey : Bytes → Bytes → Bytes → World → Type 0
HasKey provider data_dir key w =
    ((provider ≡ lit "file")
      × (bytes : Bytes) × (mode : ℕ) × (w.disk (join data_dir (lit "master.key"))
          ≡ some (regular bytes mode))
      × (length bytes ≡ master_key_size))
    ⊎ ((provider ≡ lit "env") × (length key ≡ master_key_size * 2))

check_master_key-none :
    (provider data_dir key : Bytes) (w : World)
    → (check_master_key provider data_dir key w).0 ≡ goes_on 0
    → HasKey provider data_dir key w
unfolding check_master_key
check_master_key-none [] data_dir key w e = one_issue w e
check_master_key-none (c ∷ p) data_dir key w e = elim (Bool-cases (bytes_eq (c ∷ p) (lit "file"))) [
  | inl is_file ↦
      let (bytes, mode, at, sized) =
        check_key_file-none data_dir w
          (sym (ap (λ b. ((if b then check_key_file data_dir else tail) w).0) is_file) ∙ e) in
      inl ((bytes_eq_iff (c ∷ p) (lit "file")).0 is_file, bytes, mode, at, sized)
  | inr not_file ↦
      let e1 = sym (ap (λ b. ((if b then check_key_file data_dir else tail) w).0) not_file) ∙ e in
      elim (Bool-cases (bytes_eq (c ∷ p) (lit "env"))) [
        | inl is_env ↦ inr (
          (bytes_eq_iff (c ∷ p) (lit "env")).0 is_env,
          check_key_variable-none key w
              (sym (ap (λ b. ((if b then check_key_variable key else pure 1) w).0) is_env) ∙ e1),
        )
        | inr not_env ↦
            one_issue w
              (sym (ap (λ b. ((if b then check_key_variable key else pure 1) w).0) not_env) ∙ e1)
      ]
]
  where
    tail : Io ℕ ℕ
    tail = if bytes_eq (c ∷ p) (lit "env") then check_key_variable key else pure 1

check_users_file-none :
    (decode : Bytes → Option (List User)) (path : Bytes) (w : World)
    → (check_users_file decode path w).0 ≡ goes_on 0
    → (us : List User) × ((load_users_file decode path w).0 ≡ goes_on us)
unfolding check_users_file
check_users_file-none decode [] w e = one_issue w e
check_users_file-none decode (c ∷ path) w e =
    let (us, loads, rest) = check-none (load_users_file decode (c ∷ path)) (λ us. pure 0) w e in
    (us, loads)

-- The data directory is there.
check_data_dir-none :
    (data_dir : Bytes) (w : World)
    → (check_data_dir data_dir w).0 ≡ goes_on 0
    → w.disk data_dir ≡ some directory
unfolding check_data_dir
check_data_dir-none [] w e = one_issue w e
check_data_dir-none (c ∷ d) w e =
    let (n, found, probed) = check-none (stat (c ∷ d)) (probe_directory (c ∷ d)) w e in
    entry n (stat-goes_on (c ∷ d) w n found) probed
  where
    entry :
        (n : Node)
        → w.disk (c ∷ d) ≡ some n
        → (probe_directory (c ∷ d) n (stat (c ∷ d) w).1).0 ≡ goes_on 0
        → w.disk (c ∷ d) ≡ some directory
    entry (regular bytes mode) at e = one_issue w e
    entry directory at e = at

verdict-goes_on :
    (n : ℕ) (w : World)
    → ((if n == 0 then pure {E = ℕ} tt else return_early 1) w).0 ≡ goes_on tt
    → n ≡ 0
verdict-goes_on n w e = elim (Bool-cases (n == 0)) [
  | inl none_found ↦ (==_iff n 0).0 none_found
  | inr some_found ↦
      absurd (
        never
          (sym (ap (λ b. ((if b then pure {E = ℕ} tt else return_early 1) w).0) some_found) ∙ e))
]
  where
    never : ((return_early {E = ℕ} {A = Unit {0}} 1) w).0 ≡ goes_on tt → ⊥
    never e = cc

-- If doctor exits with code 0, then the data directory was there at the start; in the state in
-- which its users check began, the users file held entries that LoadUsersFile accepts, whose users
-- can be served; and in the state in which its key check began, the provider was "file" and the key
-- file had 32 bytes, or it was "env" with a variable of 64 characters.
pub run_doctor-Passes :
    (decode : Bytes → Option (List User)) (open_database close_database : Io OsError (Unit {0}))
    (getenv : Bytes → Bytes) (w : World)
    → (run_doctor decode open_database close_database getenv w).0 ≡ goes_on tt
    → let data_dir = getenv (lit "TABBY_SYNC_DATA_DIR") in
      let users_file = doctor_users_file (getenv (lit "TABBY_SYNC_USERS_FILE")) data_dir in
      let at_users = (check_data_dir data_dir w).1 in
      let at_key = (check_users_file decode users_file at_users).1 in
      (w.disk data_dir ≡ some directory)
      × ((us : List User) × ((load_users_file decode users_file at_users).0 ≡ goes_on us)
          × IsServable us)
      × HasKey
          (getenv (lit "TABBY_SYNC_MASTER_KEY_PROVIDER"))
          data_dir
          (getenv (lit "TABBY_SYNC_MASTER_KEY"))
          at_key
unfolding run_doctor
run_doctor-Passes decode open_database close_database getenv w e =
    let data_dir = getenv (lit "TABBY_SYNC_DATA_DIR") in
    let provider = getenv (lit "TABBY_SYNC_MASTER_KEY_PROVIDER") in
    let variable = getenv (lit "TABBY_SYNC_MASTER_KEY") in
    let users_file = doctor_users_file (getenv (lit "TABBY_SYNC_USERS_FILE")) data_dir in
    let judge : ℕ → Io ℕ (Unit {0}) = verdict decode open_database close_database getenv in
    let database = check_database decode open_database close_database getenv data_dir in
    let step4 = λ (a b c d : ℕ). judge (a + b + c + d) in
    let step3 = λ (a b c : ℕ). database >>= step4 a b c in
    let step2 = λ (a b : ℕ). check_master_key provider data_dir variable >>= step3 a b in
    let step1 = λ (a : ℕ). check_users_file decode users_file >>= step2 a in
    let (a, ea, same1) = bind-goes_on (check_data_dir data_dir) step1 w tt e in
    let w1 = (check_data_dir data_dir w).1 in
    let e1 = sym (ap (λ r. r.0) same1) ∙ e in
    let (b, eb, same2) = bind-goes_on (check_users_file decode users_file) (step2 a) w1 tt e1 in
    let w2 = (check_users_file decode users_file w1).1 in
    let e2 = sym (ap (λ r. r.0) same2) ∙ e1 in
    let (c, ec, same3) =
      bind-goes_on (check_master_key provider data_dir variable) (step3 a b) w2 tt e2 in
    let w3 = (check_master_key provider data_dir variable w2).1 in
    let e3 = sym (ap (λ r. r.0) same3) ∙ e2 in
    let (d, ed, same4) = bind-goes_on database (step4 a b c) w3 tt e3 in
    let e4 = sym (ap (λ r. r.0) same4) ∙ e3 in
    let none_found : a + b + c + d ≡ 0 = verdict-goes_on (a + b + c + d) (database w3).1 e4 in
    let a_none : a ≡ 0 = omega (arith, none_found) in
    let b_none : b ≡ 0 = omega (arith, none_found) in
    let c_none : c ≡ 0 = omega (arith, none_found) in
    let (us, loads) = check_users_file-none decode users_file w1 (eb ∙ ap goes_on b_none) in
    let (raw, mode, at, es, parses, accepts, servable) =
      load_users_file-IsServable decode users_file w1 us loads in
    (
      check_data_dir-none data_dir w (ea ∙ ap goes_on a_none),
      (us, loads, servable),
      check_master_key-none provider data_dir variable w2 (ec ∙ ap goes_on c_none),
    )
