-- ===== src/Files/GoesOn.antt =====
-- What a system call that goes on has done, and what its failure tells.
use tabby_sync.Common.{
  ℕ, Bytes, true, false, none, some, [], ◌≡◌, ◌≢◌, refl, ◌∙◌, arith, inl, inr, ap, ◌⊎◌, Option,
  Bool, take,
}
use tabby_sync.Files.{
  Node, regular, directory, Disk, Fate, succeeds, fails, dies, World, Ended, goes_on, returns,
  killed, Io, ◌>>=◌, update, system_call, chmod, write, rename, create_temp, stat, read_file,
  next_fate, when_not, change, on_error, or_return, is_directory, bind_ended, on_error_ended,
  called, contents, exists, extended, with_mode, moved, guarded_call, unchanged, looked_up, after,
  not_exist, map_ended, chmod_path, is_missing,
}
use tabby_sync.Files.Leaves.{update_self}

module _ {E A : Type 0} where
  bind_ended-goes_on :
      {B : Type 0} (f : A → Io E B) (r : Ended E A) (w : World) (b : B)
      → (bind_ended f r w).0 ≡ goes_on b
      → (a : A) × (r ≡ goes_on a) × (bind_ended f r w ≡ f a w)
  bind_ended-goes_on f (goes_on a) w b e = (a, refl, refl)
  bind_ended-goes_on f (returns x) w b e = absurd (cc)
  bind_ended-goes_on f killed w b e = absurd (cc)

-- A sequence that goes on is its second part, run where the first one went on.
pub bind-goes_on :
    {E A B : Type 0} (m : Io E A) (f : A → Io E B) (w : World) (b : B)
    → ((m >>= f) w).0 ≡ goes_on b
    → (a : A) × ((m w).0 ≡ goes_on a) × ((m >>= f) w ≡ f a (m w).1)
bind-goes_on m f w b e = bind_ended-goes_on f (m w).0 (m w).1 b e

-- A system call that goes on has made its whole change.
called-goes_on :
    (partly : ℕ → Disk → Disk) (whole : Disk → Disk) (f : Fate) (w : World)
    → (called partly whole f w).0 ≡ goes_on tt
    → (called partly whole f w).1.disk ≡ whole w.disk
called-goes_on partly whole succeeds w e = refl
called-goes_on partly whole (fails n) w e = absurd (cc)
called-goes_on partly whole (dies n) w e = absurd (cc)

guarded_call-goes_on :
    (refuses : Option Node → Bool) (p : Bytes) (whole : Disk → Disk) (w : World)
    → (guarded_call refuses p whole w).0 ≡ goes_on tt
    → (refuses (w.disk p) ≡ false) × ((guarded_call refuses p whole w).1.disk ≡ whole w.disk)
guarded_call-goes_on refuses p whole w = test (refuses (w.disk p))
  where
    test :
        (c : Bool)
        → (when_not c (system_call unchanged whole) w).0 ≡ goes_on tt
        → (c ≡ false) × ((when_not c (system_call unchanged whole) w).1.disk ≡ whole w.disk)
    test true e = absurd (cc)
    test false e = (refl, called-goes_on unchanged whole (next_fate w.fates) w e)

pub create_temp-goes_on :
    (p : Bytes) (w : World)
    → (create_temp p w).0 ≡ goes_on tt
    → ((create_temp p w).1.disk p ≡ some (regular [] 384)) × (w.disk p ≡ none)
unfolding create_temp
create_temp-goes_on p w e =
    let (free, made) = guarded_call-goes_on exists p (update p (some (regular [] 384))) w e in
    (ap (λ d. d p) made ∙ update_self p _ w.disk, ground arith)

pub rename-goes_on :
    (p q : Bytes) (w : World)
    → (rename p q w).0 ≡ goes_on tt
    → (rename p q w).1.disk ≡ moved p q w.disk
unfolding rename
rename-goes_on p q w e = (guarded_call-goes_on is_directory q (moved p q) w e).1

pub chmod-goes_on :
    (p : Bytes) (mode : ℕ) (w : World)
    → (chmod p mode w).0 ≡ goes_on tt
    → (chmod p mode w).1.disk p ≡ with_mode mode (w.disk p)
unfolding chmod
chmod-goes_on p mode w e =
    ap (λ d. d p) (called-goes_on unchanged (change p (with_mode mode)) (next_fate w.fates) w e)
    ∙ update_self p (with_mode mode (w.disk p)) w.disk

pub write-goes_on :
    (p bytes : Bytes) (w : World)
    → (write p bytes w).0 ≡ goes_on tt
    → (write p bytes w).1.disk p ≡ extended bytes (w.disk p)
unfolding write
write-goes_on p bytes w e =
    ap (λ d. d p)
      (called-goes_on (λ n. change p (extended (take n bytes))) (change p (extended bytes))
        (next_fate w.fates) w e)
    ∙ update_self p (extended bytes (w.disk p)) w.disk

-- A failed or interrupted rename has changed nothing.
pub rename_fails :
    (p q : Bytes) (w : World) → (rename p q w).0 ≢ goes_on tt → (rename p q w).1.disk ≡ w.disk
unfolding rename
rename_fails p q w = test (is_directory (w.disk q))
  where
    fate :
        (f : Fate)
        → (called unchanged (moved p q) f w).0 ≢ goes_on tt
        → (called unchanged (moved p q) f w).1.disk ≡ w.disk
    fate succeeds ne = absurd (ne refl)
    fate (fails n) ne = refl
    fate (dies n) ne = refl

    test :
        (c : Bool)
        → (when_not c (system_call unchanged (moved p q)) w).0 ≢ goes_on tt
        → (when_not c (system_call unchanged (moved p q)) w).1.disk ≡ w.disk
    test true ne = refl
    test false ne = fate (next_fate w.fates) ne

on_error_ended-goes_on :
    {E A : Type 0} (c : Io E (Unit {0})) (r : Ended E A) (w : World) (a : A)
    → (on_error_ended c r w).0 ≡ goes_on a
    → (r ≡ goes_on a) × (on_error_ended c r w ≡ (r, w))
on_error_ended-goes_on {E = E} {A = A} c (goes_on b) w a e = (e, refl)
on_error_ended-goes_on {E = E} {A = A} c (returns x) w a e = absurd (cleaned x (c w).0 (c w).1 e)
  where
    cleaned :
        (x : E) (r : Ended E (Unit {0})) (w' : World)
        → (bind_ended {A = Unit {0}} {B = A} (λ u v. (returns x, v)) r w').0 ≢ goes_on a
    cleaned x (goes_on b) w' e = cc
    cleaned x (returns y) w' e = cc
    cleaned x killed w' e = cc
on_error_ended-goes_on {E = E} {A = A} c killed w a e = absurd (cc)

pub on_error-goes_on :
    {E A : Type 0} (c : Io E (Unit {0})) (m : Io E A) (w : World) (a : A)
    → (on_error c m w).0 ≡ goes_on a
    → ((m w).0 ≡ goes_on a) × (on_error c m w ≡ m w)
on_error-goes_on c m w a e = on_error_ended-goes_on c (m w).0 (m w).1 a e

pub Ended-cases :
    {E A : Type 0} (r : Ended E A) → ((a : A) × (r ≡ goes_on a)) ⊎ ((a : A) → r ≢ goes_on a)
Ended-cases (goes_on a) = inl (a, refl)
Ended-cases (returns e) = inr (λ a g. cc)
Ended-cases killed = inr (λ a g. cc)

-- A file that can be read is a regular one, and what is read are its contents.
pub read_file-goes_on :
    (p bytes : Bytes) (w : World)
    → (read_file p w).0 ≡ goes_on bytes
    → (mode : ℕ) × (w.disk p ≡ some (regular bytes mode))
unfolding read_file stat
read_file-goes_on p bytes w = fate (next_fate w.fates) (w.disk p)
  where
    entry :
        (n : Node)
        → (contents n (after (unchanged 0) w)).0 ≡ goes_on bytes
        → (mode : ℕ) × (some n ≡ some (regular bytes mode))
    entry (regular old mode) e = (mode, cc)
    entry directory e = absurd (cc)

    fate :
        (f : Fate) (o : Option Node)
        → (bind_ended contents
            (looked_up (called unchanged (unchanged 0) f w).0 o)
            (called unchanged (unchanged 0) f w).1).0
          ≡ goes_on bytes
        → (mode : ℕ) × (o ≡ some (regular bytes mode))
    fate succeeds none e = absurd (cc)
    fate succeeds (some n) e = entry n e
    fate (fails n) o e = absurd (cc)
    fate (dies n) o e = absurd (cc)

-- If the code finds that there is no file, there is none.
pub stat-not_exist : (p : Bytes) (w : World) → (stat p w).0 ≡ returns not_exist → w.disk p ≡ none
unfolding stat
stat-not_exist p w = fate (next_fate w.fates) (w.disk p)
  where
    fate :
        (f : Fate) (o : Option Node)
        → looked_up (called unchanged (unchanged 0) f w).0 o ≡ returns not_exist
        → o ≡ none
    fate succeeds none e = refl
    fate succeeds (some n) e = absurd (cc)
    fate (fails n) o e = absurd (cc)
    fate (dies n) o e = absurd (cc)

pub read_file-not_exist :
    (p : Bytes) (w : World) → (read_file p w).0 ≡ returns not_exist → w.disk p ≡ none
unfolding read_file stat
read_file-not_exist p w = fate (next_fate w.fates) (w.disk p)
  where
    entry : (n : Node) → (contents n (after (unchanged 0) w)).0 ≢ returns not_exist
    entry (regular old mode) e = cc
    entry directory e = cc

    fate :
        (f : Fate) (o : Option Node)
        → (bind_ended contents
            (looked_up (called unchanged (unchanged 0) f w).0 o)
            (called unchanged (unchanged 0) f w).1).0
          ≡ returns not_exist
        → o ≡ none
    fate succeeds none e = refl
    fate succeeds (some n) e = absurd (entry n e)
    fate (fails n) o e = absurd (cc)
    fate (dies n) o e = absurd (cc)

-- However a change of mode ends, the node is as it was or has the mode.
pub chmod_path-cases :
    (p : Bytes) (mode : ℕ) (w : World)
    → ((chmod_path p mode w).1.disk p ≡ w.disk p)
      ⊎ ((chmod_path p mode w).1.disk p ≡ with_mode mode (w.disk p))
unfolding chmod_path
chmod_path-cases p mode w = test (is_missing (w.disk p))
  where
    fate :
        (f : Fate)
        → ((called unchanged (change p (with_mode mode)) f w).1.disk p ≡ w.disk p)
          ⊎ ((called unchanged (change p (with_mode mode)) f w).1.disk p
              ≡ with_mode mode (w.disk p))
    fate succeeds = inr (update_self p (with_mode mode (w.disk p)) w.disk)
    fate (fails n) = inl refl
    fate (dies n) = inl refl

    test :
        (b : Bool)
        → ((when_not b (system_call unchanged (change p (with_mode mode))) w).1.disk p ≡ w.disk p)
          ⊎ ((when_not b (system_call unchanged (change p (with_mode mode))) w).1.disk p
              ≡ with_mode mode (w.disk p))
    test true = inl refl
    test false = fate (next_fate w.fates)

pub chmod_path-goes_on :
    (p : Bytes) (mode : ℕ) (w : World)
    → (chmod_path p mode w).0 ≡ goes_on tt
    → (is_missing (w.disk p) ≡ false) × ((chmod_path p mode w).1.disk p ≡ with_mode mode (w.disk p))
unfolding chmod_path
chmod_path-goes_on p mode w e =
    let (there, done) = guarded_call-goes_on is_missing p (change p (with_mode mode)) w e in
    (there, ap (λ d. d p) done ∙ update_self p (with_mode mode (w.disk p)) w.disk)

pub or_return-goes_on :
    {E E' A : Type 0} (f : E → E') (m : Io E A) (w : World) (a : A)
    → (or_return f m w).0 ≡ goes_on a
    → (m w).0 ≡ goes_on a
or_return-goes_on {E = E} {E' = E'} {A = A} f m w a e = ended (m w).0 e
  where
    ended : (r : Ended E A) → map_ended f r ≡ goes_on a → r ≡ goes_on a
    ended (goes_on b) e = cc
    ended (returns x) e = absurd (cc)
    ended killed e = absurd (cc)

pub stat-goes_on : (p : Bytes) (w : World) (n : Node) → (stat p w).0 ≡ goes_on n → w.disk p ≡ some n
unfolding stat
stat-goes_on p w n = fate (next_fate w.fates) (w.disk p)
  where
    fate :
        (f : Fate) (o : Option Node)
        → looked_up (called unchanged (unchanged 0) f w).0 o ≡ goes_on n
        → o ≡ some n
    fate succeeds none e = absurd (cc)
    fate succeeds (some x) e = cc
    fate (fails n) o e = absurd (cc)
    fate (dies n) o e = absurd (cc)
