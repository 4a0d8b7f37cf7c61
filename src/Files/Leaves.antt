-- ===== src/Files/Leaves.antt =====
-- The paths that each system call, and code made of them, leaves as they were.
use tabby_sync.Common.{
  ℕ, Bytes, bytes_eq, bytes_eq_iff, true, false, none, some, [], ◌≡◌, ◌≢◌, refl, sym, ◌∙◌,
  Bool-cases, inl, inr, ap, Option, Bool, take,
}
use tabby_sync.Files.{
  Node, regular, directory, Disk, Fate, succeeds, fails, dies, World, Ended, goes_on, returns,
  killed, Io, ◌>>=◌, update, system_call, chmod, write, sync, close, remove, rename, create_temp,
  open_truncated, mkdir_all, stat, read_file, next_fate, when_not, change, on_error, or_return,
  is_directory, is_regular, bind_ended, on_error_ended, called, contents, exists, emptied, extended,
  with_mode, moved, guarded_call, unchanged, chmod_path, is_missing,
}

bytes_eq_ne : (p q : Bytes) → p ≢ q → bytes_eq p q ≡ false
bytes_eq_ne p q ne = elim (Bool-cases (bytes_eq p q)) [
  | inl same ↦ absurd (ne ((bytes_eq_iff p q).0 same))
  | inr differ ↦ differ
]

pub update_ne : (p q : Bytes) (n : Option Node) (d : Disk) → p ≢ q → update p n d q ≡ d q
update_ne p q n d ne = rw (bytes_eq_ne p q ne) refl

pub update_self : (p : Bytes) (n : Option Node) (d : Disk) → update p n d p ≡ n
update_self p n d = rw ((bytes_eq_iff p p).1 refl) refl

-- Whatever its fate, the code leaves what stands at the path.
abbrev pub Leaves : {E A : Type 0} → Bytes → Io E A → Type 0
Leaves q m = (w : World) → (m w).1.disk q ≡ w.disk q

module _ {E A : Type 0} (q : Bytes) where
  pub bind-Leaves :
      {B : Type 0} (m : Io E A) (f : A → Io E B)
      → Leaves q m
      → ((a : A) → Leaves q (f a))
      → Leaves q (m >>= f)
  bind-Leaves m f h k w = ended (m w).0 (m w).1 ∙ h w
    where
      ended : (r : Ended E A) (w' : World) → (bind_ended f r w').1.disk q ≡ w'.disk q
      ended (goes_on a) w' = k a w'
      ended (returns e) w' = refl
      ended killed w' = refl

  pub on_error-Leaves :
      (c : Io E (Unit {0})) (m : Io E A) → Leaves q c → Leaves q m → Leaves q (on_error c m)
  on_error-Leaves c m k h w = ended (m w).0 (m w).1 ∙ h w
    where
      cleaned :
          (e : E) (r : Ended E (Unit {0})) (w' : World)
          → (bind_ended {A = Unit {0}} {B = A} (λ u v. (returns e, v)) r w').1.disk q ≡ w'.disk q
      cleaned e (goes_on a) w' = refl
      cleaned e (returns e') w' = refl
      cleaned e killed w' = refl

      ended : (r : Ended E A) (w' : World) → (on_error_ended c r w').1.disk q ≡ w'.disk q
      ended (goes_on a) w' = refl
      ended (returns e) w' = cleaned e (c w').0 (c w').1 ∙ k w'
      ended killed w' = refl

called-Leaves :
    (q : Bytes) (partly : ℕ → Disk → Disk) (whole : Disk → Disk)
    → ((n : ℕ) (d : Disk) → partly n d q ≡ d q)
    → ((d : Disk) → whole d q ≡ d q)
    → Leaves q (system_call partly whole)
called-Leaves q partly whole hp hw w = fate (next_fate w.fates)
  where
    fate : (f : Fate) → (called partly whole f w).1.disk q ≡ w.disk q
    fate succeeds = hw w.disk
    fate (fails n) = hp n w.disk
    fate (dies n) = hp n w.disk

guarded_call-Leaves :
    (q : Bytes) (refuses : Option Node → Bool) (p : Bytes) (whole : Disk → Disk)
    → ((d : Disk) → whole d q ≡ d q)
    → Leaves q (guarded_call refuses p whole)
guarded_call-Leaves q refuses p whole h w = test (refuses (w.disk p))
  where
    test : (c : Bool) → (when_not c (system_call unchanged whole) w).1.disk q ≡ w.disk q
    test true = refl
    test false = called-Leaves q unchanged whole (λ n d. refl) h w

-- The calls on one path leave every other one.
module _ (p q : Bytes) (ne : p ≢ q) where
  update-Leaves : (n : Option Node) (d : Disk) → update p n d q ≡ d q
  update-Leaves n d = update_ne p q n d ne

  pub chmod-Leaves : (mode : ℕ) → Leaves q (chmod p mode)
  unfolding chmod
  chmod-Leaves mode =
      called-Leaves q unchanged (change p (with_mode mode)) (λ n d. refl)
        (λ d. update-Leaves (with_mode mode (d p)) d)

  pub write-Leaves : (bytes : Bytes) → Leaves q (write p bytes)
  unfolding write
  write-Leaves bytes =
      called-Leaves q (λ n. change p (extended (take n bytes))) (change p (extended bytes))
        (λ n d. update-Leaves (extended (take n bytes) (d p)) d)
        (λ d. update-Leaves (extended bytes (d p)) d)

  pub remove-Leaves : Leaves q (remove p)
  unfolding remove
  remove-Leaves =
      called-Leaves q unchanged (update p none) (λ n d. refl) (λ d. update-Leaves none d)

  pub chmod_path-Leaves : (mode : ℕ) → Leaves q (chmod_path p mode)
  unfolding chmod_path
  chmod_path-Leaves mode =
      guarded_call-Leaves q is_missing p (change p (with_mode mode))
        (λ d. update-Leaves (with_mode mode (d p)) d)

  pub create_temp-Leaves : Leaves q (create_temp p)
  unfolding create_temp
  create_temp-Leaves =
      guarded_call-Leaves q exists p (update p (some (regular [] 384)))
        (λ d. update-Leaves (some (regular [] 384)) d)

  pub open_truncated-Leaves : (mode : ℕ) → Leaves q (open_truncated p mode)
  unfolding open_truncated
  open_truncated-Leaves mode =
      guarded_call-Leaves q is_directory p (change p (emptied mode))
        (λ d. update-Leaves (emptied mode (d p)) d)

  pub mkdir_all-Leaves : Leaves q (mkdir_all p)
  unfolding mkdir_all
  mkdir_all-Leaves =
      guarded_call-Leaves q is_regular p (update p (some directory))
        (λ d. update-Leaves (some directory) d)

pub sync-Leaves : (p q : Bytes) → Leaves q (sync p)
unfolding sync
sync-Leaves p q = called-Leaves q unchanged (unchanged 0) (λ n d. refl) (λ d. refl)

pub close-Leaves : (p q : Bytes) → Leaves q (close p)
unfolding close
close-Leaves p q = called-Leaves q unchanged (unchanged 0) (λ n d. refl) (λ d. refl)

pub rename-Leaves : (p p' q : Bytes) → p ≢ q → p' ≢ q → Leaves q (rename p p')
unfolding rename
rename-Leaves p p' q ne ne' =
    guarded_call-Leaves q is_directory p' (moved p p')
      (λ d. update_ne p q none (update p' (d p) d) ne ∙ update_ne p' q (d p) d ne')

pub stat-Leaves : (p q : Bytes) → Leaves q (stat p)
unfolding stat
stat-Leaves p q = called-Leaves q unchanged (unchanged 0) (λ n d. refl) (λ d. refl)

pub read_file-Leaves : (p q : Bytes) → Leaves q (read_file p)
unfolding read_file
read_file-Leaves p q = bind-Leaves q (stat p) contents (stat-Leaves p q) read
  where
    read : (n : Node) → Leaves q (contents n)
    read (regular bytes mode) w = refl
    read directory w = refl

pub or_return-Leaves :
    {E E' A : Type 0} (q : Bytes) (f : E → E') (m : Io E A) → Leaves q m → Leaves q (or_return f m)
or_return-Leaves q f m h w = h w

-- Unless the code goes on, it leaves what stands at the path.
abbrev pub KeepsUnlessDone : {E A : Type 0} → Bytes → Io E A → Type 0
KeepsUnlessDone {E} {A} q m =
    (w : World) → ((a : A) → (m w).0 ≢ goes_on a) → (m w).1.disk q ≡ w.disk q

module _ {E A : Type 0} (q : Bytes) where
  pub bind-KeepsUnlessDone :
      {B : Type 0} (m : Io E A) (f : A → Io E B)
      → Leaves q m
      → ((a : A) → KeepsUnlessDone q (f a))
      → KeepsUnlessDone q (m >>= f)
  bind-KeepsUnlessDone {B = B} m f h k w ne = ended (m w).0 (m w).1 ne ∙ h w
    where
      ended :
          (r : Ended E A) (w' : World)
          → ((b : B) → (bind_ended f r w').0 ≢ goes_on b)
          → (bind_ended f r w').1.disk q ≡ w'.disk q
      ended (goes_on a) w' ne = k a w' ne
      ended (returns e) w' ne = refl
      ended killed w' ne = refl

  pub on_error-KeepsUnlessDone :
      (c : Io E (Unit {0})) (m : Io E A)
      → Leaves q c
      → KeepsUnlessDone q m
      → KeepsUnlessDone q (on_error c m)
  on_error-KeepsUnlessDone c m k h w ne = ended (m w).0 (m w).1 refl
    where
      cleaned :
          (e : E) (r : Ended E (Unit {0})) (w' : World)
          → (bind_ended {A = Unit {0}} {B = A} (λ u v. (returns e, v)) r w').1.disk q ≡ w'.disk q
      cleaned e (goes_on a) w' = refl
      cleaned e (returns e') w' = refl
      cleaned e killed w' = refl

      ended :
          (r : Ended E A) (w' : World)
          → m w ≡ (r, w')
          → (on_error_ended c (m w).0 (m w).1).1.disk q ≡ w.disk q
      ended (goes_on a) w' e = absurd (ne a (ap (λ x. (on_error_ended c x.0 x.1).0) e))
      ended (returns x) w' e =
          ap (λ y. (on_error_ended c y.0 y.1).1.disk q) e
          ∙ (cleaned x (c w').0 (c w').1
              ∙ (k w' ∙ (ap (λ y. y.1.disk q) (sym e) ∙ h w (λ a g. absurd (cc)))))
      ended killed w' e =
          ap (λ y. (on_error_ended c y.0 y.1).1.disk q) e
          ∙ (ap (λ y. y.1.disk q) (sym e) ∙ h w (λ a g. absurd (cc)))
