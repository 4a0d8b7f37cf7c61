-- ===== src/Sqlite/Open/Modes.antt =====
-- The modes of the database's files behind Open of internal/store/sqlite/sqlite.go.
use tabby_sync.Common.{
  Bytes, Bool, true, false, Option, none, some, List, [], ◌∷◌, ◌++◌, ◌≡◌, refl, sym, ◌∙◌, ap, arith,
  Bool-cases, inl, inr, bytes_eq, bytes_eq_iff, if◌then◌else◌, All,
}
use tabby_sync.Files.{
  Node, regular, directory, OsError, not_exist, os_error, World, Ended, goes_on, returns, killed,
  Io, ◌>>=◌, ◌>>◌, pure, return_early, ignore, on_error, tried, tried_ended, mkdir_all, stat,
  chmod_path, with_mode, is_missing, bind_ended,
}
use tabby_sync.Files.Paths.{dir}
use tabby_sync.Files.Leaves.{chmod_path-Leaves, stat-Leaves}
use tabby_sync.Files.GoesOn.{
  bind-goes_on, on_error-goes_on, chmod_path-goes_on, stat-not_exist, chmod_path-cases,
}
use tabby_sync.Sqlite.Open.{
  Engine, verify_pragmas, expected_pragmas, sidecar_suffixes, tighten_found, tighten_sidecars,
  tighten_db_file_mode, prepare, open_store, Pragma, check_value,
}
use mathlib.Core.Path.{subst}
use tabby_sync.Auth.Text.{equal_fold}

-- A file that is there can be read and written by its owner only.
abbrev pub IsPrivate : Option Node → Type 0
IsPrivate none = Unit
IsPrivate (some (regular bytes mode)) = mode ≡ 384
IsPrivate (some directory) = Unit

with_mode-IsPrivate : (n : Option Node) → IsPrivate (with_mode 384 n)
with_mode-IsPrivate none = tt
with_mode-IsPrivate (some (regular bytes mode)) = refl
with_mode-IsPrivate (some directory) = tt

-- Keeping a property of the node at a path that no change of mode to 0600 breaks.
module _ (Q : Option Node → Type 0) (closed : (n : Option Node) → Q n → Q (with_mode 384 n))
    (q : Bytes) where
  abbrev Keeps : {A : Type 0} → Io OsError A → Type 0
  Keeps m = (w : World) → Q (w.disk q) → Q ((m w).1.disk q)

  bind-Keeps :
      {A B : Type 0} (m : Io OsError A) (f : A → Io OsError B)
      → Keeps m
      → ((a : A) → Keeps (f a))
      → Keeps (m >>= f)
  bind-Keeps {A = A} {B = B} m f h k w good = ended (m w).0 (m w).1 (h w good)
    where
      ended : (r : Ended OsError A) (v : World) → Q (v.disk q) → Q ((bind_ended f r v).1.disk q)
      ended (goes_on a) v good = k a v good
      ended (returns e) v good = good
      ended killed v good = good

  chmod_path-Keeps : (p : Bytes) → Keeps (chmod_path p 384)
  chmod_path-Keeps p w good = elim (Bool-cases (bytes_eq p q)) [
    | inl same ↦
        subst (λ x. Q ((chmod_path x 384 w).1.disk q)) (sym ((bytes_eq_iff p q).0 same)) own
    | inr differ ↦
        subst Q
          (sym (
            chmod_path-Leaves p q (λ e. absurd (ground (arith, differ, (bytes_eq_iff p q).1 e))) 384
              w))
          good
  ]
    where
      own : Q ((chmod_path q 384 w).1.disk q)
      own = elim (chmod_path-cases q 384 w) [
        | inl same ↦ subst Q (sym same) good
        | inr changed ↦ subst Q (sym changed) (closed (w.disk q) good)
      ]

  tighten_found-Keeps : (p : Bytes) (a : Ended OsError Node) → Keeps (tighten_found p a)
  tighten_found-Keeps p (goes_on n) w good = chmod_path-Keeps p w good
  tighten_found-Keeps p (returns not_exist) w good = good
  tighten_found-Keeps p (returns os_error) w good = good
  tighten_found-Keeps p killed w good = good

  tighten_sidecars-Keeps : (path : Bytes) (ss : List Bytes) → Keeps (tighten_sidecars path ss)
  unfolding tighten_sidecars
  tighten_sidecars-Keeps path [] w good = good
  tighten_sidecars-Keeps path (s ∷ ss) w good =
      bind-Keeps (tried (stat (path ++ s))) _
        (λ w good. subst Q (sym (stat-Leaves (path ++ s) q w)) good)
        (λ a.
          bind-Keeps (tighten_found (path ++ s) a) (λ u. tighten_sidecars path ss)
            (tighten_found-Keeps (path ++ s) a) (λ u. tighten_sidecars-Keeps path ss))
        w good

tried-goes_on :
    (m : Io OsError Node) (w : World) (a : Ended OsError Node)
    → (tried m w).0 ≡ goes_on a
    → (m w).0 ≡ a
tried-goes_on m w a e = ended (m w).0 e
  where
    ended : (r : Ended OsError Node) → tried_ended r ≡ goes_on a → r ≡ a
    ended (goes_on n) e = cc
    ended (returns x) e = cc
    ended killed e = absurd (cc)

-- A sidecar that has been gone through is missing or private.
tighten_found-IsPrivate :
    (p : Bytes) (a : Ended OsError Node) (w : World)
    → (a ≡ returns not_exist → w.disk p ≡ none)
    → (tighten_found p a w).0 ≡ goes_on tt
    → IsPrivate ((tighten_found p a w).1.disk p)
tighten_found-IsPrivate p (goes_on n) w missing e =
    subst IsPrivate (sym (chmod_path-goes_on p 384 w e).1) (with_mode-IsPrivate (w.disk p))
tighten_found-IsPrivate p (returns not_exist) w missing e = subst IsPrivate (sym (missing refl)) tt
tighten_found-IsPrivate p (returns os_error) w missing e = absurd (cc)
tighten_found-IsPrivate p killed w missing e = absurd (cc)

closed : (n : Option Node) → IsPrivate n → IsPrivate (with_mode 384 n)
closed n h = with_mode-IsPrivate n

tighten_sidecars-IsPrivate :
    (path : Bytes) (ss : List Bytes) (w : World)
    → (tighten_sidecars path ss w).0 ≡ goes_on tt
    → All (λ s. IsPrivate ((tighten_sidecars path ss w).1.disk (path ++ s))) ss
unfolding tighten_sidecars
tighten_sidecars-IsPrivate path [] w e = tt
tighten_sidecars-IsPrivate path (s ∷ ss) w e =
    let p = path ++ s in
    let rest = λ (a : Ended OsError Node). tighten_found p a >> tighten_sidecars path ss in
    let (a, stats, same) = bind-goes_on (tried (stat p)) rest w tt e in
    let w1 = (stat p w).1 in
    let (u, found, same') =
      bind-goes_on (tighten_found p a) (λ u. tighten_sidecars path ss) w1 tt
        (sym (ap (λ r. r.0) same) ∙ e) in
    let w2 = (tighten_found p a w1).1 in
    let whole = same ∙ same' in
    let e2 = sym (ap (λ r. r.0) whole) ∙ e in
    let private =
      tighten_found-IsPrivate p a w1
        (λ k. stat-Leaves p p w ∙ stat-not_exist p w (tried-goes_on (stat p) w a stats ∙ k))
        found in
    let all = tighten_sidecars-IsPrivate path ss w2 e2 in
    subst
      (λ (r : Ended OsError (Unit {0}) × World).
        IsPrivate (r.1.disk p) × All (λ s. IsPrivate (r.1.disk (path ++ s))) ss)
      (sym whole) (tighten_sidecars-Keeps IsPrivate closed p path ss w2 private, all)

-- PRAGMA has reported the expected value, in some state of the world.
abbrev pub IsVerified : Engine → Bytes × Bytes → Type 0
IsVerified e p =
    (v : World) × (got : Bytes) × ((e.pragma p.0 v).0 ≡ goes_on got) × (equal_fold got p.1 ≡ true)

check_value-goes_on :
    (got want : Bytes) (w : World)
    → (check_value got want w).0 ≡ goes_on tt
    → equal_fold got want ≡ true
check_value-goes_on got want w = test (equal_fold got want)
  where
    test :
        (b : Bool)
        → ((if b then pure {E = OsError} tt else return_early os_error) w).0 ≡ goes_on tt
        → b ≡ true
    test true e = refl
    test false e = absurd (cc)

verify_pragmas-IsVerified :
    (e : Engine) (ps : List Pragma) (w : World)
    → (verify_pragmas e ps w).0 ≡ goes_on tt
    → All (IsVerified e) ps
unfolding verify_pragmas
verify_pragmas-IsVerified e [] w h = tt
verify_pragmas-IsVerified e ((name, want) ∷ ps) w h =
    let rest = λ (got : Bytes). check_value got want >> verify_pragmas e ps in
    let (got, reads, same) = bind-goes_on (e.pragma name) rest w tt h in
    let w1 = (e.pragma name w).1 in
    let h1 = sym (ap (λ r. r.0) same) ∙ h in
    let (u, checks, same') =
      bind-goes_on (check_value got want) (λ u. verify_pragmas e ps) w1 tt h1 in
    (
      (w, got, reads, check_value-goes_on got want w1 checks),
      verify_pragmas-IsVerified e ps (check_value got want w1).1 (sym (ap (λ r. r.0) same') ∙ h1),
    )

not_missing : (n : Option Node) → is_missing n ≡ false → is_missing (with_mode 384 n) ≡ false
not_missing none h = h
not_missing (some (regular bytes mode)) h = refl
not_missing (some directory) h = refl

tighten_db_file_mode-IsPrivate :
    (path : Bytes) (w : World)
    → (tighten_db_file_mode path w).0 ≡ goes_on tt
    → let after = (tighten_db_file_mode path w).1 in
      (is_missing (after.disk path) ≡ false)
      × IsPrivate (after.disk path)
      × All (λ s. IsPrivate (after.disk (path ++ s))) sidecar_suffixes
unfolding tighten_db_file_mode
tighten_db_file_mode-IsPrivate path w e =
    let (u, changes, same) =
      bind-goes_on (chmod_path path 384) (λ u. tighten_sidecars path sidecar_suffixes) w tt e in
    let (there, mode) = chmod_path-goes_on path 384 w changes in
    let w1 = (chmod_path path 384 w).1 in
    subst
      (λ (r : Ended OsError (Unit {0}) × World).
        (is_missing (r.1.disk path) ≡ false)
        × IsPrivate (r.1.disk path)
        × All (λ s. IsPrivate (r.1.disk (path ++ s))) sidecar_suffixes)
      (sym same)
      (
        tighten_sidecars-Keeps (λ n. is_missing n ≡ false) not_missing path path sidecar_suffixes w1
            (ap is_missing mode ∙ not_missing (w.disk path) there),
        tighten_sidecars-Keeps IsPrivate closed path path sidecar_suffixes w1
            (subst IsPrivate (sym mode) (with_mode-IsPrivate (w.disk path))),
        tighten_sidecars-IsPrivate path sidecar_suffixes w1 (sym (ap (λ r. r.0) same) ∙ e),
      )

-- If Open goes on, then whatever the driver and the migrations have done, each expected pragma was
-- read with its expected value, the database file is there with mode 0600, and each of its sidecars
-- is missing or has mode 0600.
pub open_store-IsPrivate :
    (e : Engine) (path : Bytes) (w : World)
    → (open_store e path w).0 ≡ goes_on tt
    → let after = (open_store e path w).1 in
      All (IsVerified e) expected_pragmas
      × (is_missing (after.disk path) ≡ false)
      × IsPrivate (after.disk path)
      × All (λ s. IsPrivate (after.disk (path ++ s))) sidecar_suffixes
unfolding open_store prepare
open_store-IsPrivate e [] w h = absurd (cc)
open_store-IsPrivate e (c ∷ path') w h =
    let path = c ∷ path' in
    let tail = on_error (ignore e.close_db) (prepare e path) in
    let (u, made, same1) = bind-goes_on (mkdir_all (dir path)) (λ u. e.open_db >> tail) w tt h in
    let w1 = (mkdir_all (dir path) w).1 in
    let h1 = sym (ap (λ r. r.0) same1) ∙ h in
    let (u, opened, same2) = bind-goes_on e.open_db (λ u. tail) w1 tt h1 in
    let w2 = (e.open_db w1).1 in
    let (prepared, same3) =
      on_error-goes_on (ignore e.close_db) (prepare e path) w2 tt
        (sym (ap (λ r. r.0) same2) ∙ h1) in
    let step3 = λ (u : Unit {0}). e.migrate >> tighten_db_file_mode path in
    let (u, pings, same4) =
      bind-goes_on e.ping (λ u. verify_pragmas e expected_pragmas >> step3 u) w2 tt prepared in
    let w3 = (e.ping w2).1 in
    let h4 = sym (ap (λ r. r.0) same4) ∙ prepared in
    let (u, verifies, same5) = bind-goes_on (verify_pragmas e expected_pragmas) step3 w3 tt h4 in
    let w4 = (verify_pragmas e expected_pragmas w3).1 in
    let h5 = sym (ap (λ r. r.0) same5) ∙ h4 in
    let (u, migrates, same6) = bind-goes_on e.migrate (λ u. tighten_db_file_mode path) w4 tt h5 in
    let w5 = (e.migrate w4).1 in
    let end = same1 ∙ (same2 ∙ (same3 ∙ (same4 ∙ (same5 ∙ same6)))) in
    let (there, private, sidecars) =
      subst
        (λ (r : Ended OsError (Unit {0}) × World).
          (is_missing (r.1.disk path) ≡ false)
          × IsPrivate (r.1.disk path)
          × All (λ s. IsPrivate (r.1.disk (path ++ s))) sidecar_suffixes)
        (sym end) (tighten_db_file_mode-IsPrivate path w5 (sym (ap (λ r. r.0) same6) ∙ h5)) in
    (verify_pragmas-IsVerified e expected_pragmas w3 verifies, there, private, sidecars)
