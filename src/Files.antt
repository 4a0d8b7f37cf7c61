-- ===== src/Files.antt =====
-- The part of Go's os package that internal/cli/usercmd.go and internal/keys/file_provider.go use: a
-- disk by path, system calls that succeed, fail or are the last ones of the process, and the
-- monad of code that makes them. What a call does is chosen by a list of fates.
pub mod Paths
pub mod Leaves
pub mod GoesOn
pub mod Fill
use tabby_sync.Common.{
  ℕ, Bytes, bytes_eq, Bool, true, false, Option, none, some, List, [], ◌∷◌, ◌++◌, take,
  if◌then◌else◌,
}

-- A regular file with its contents and its mode, or a directory.
pub data Node : Type 0 where
  regular : Bytes → ℕ → Node
  directory : Node

abbrev pub Disk : Type 0
Disk = Bytes → Option Node

-- A call takes effect, or fails, or the process is killed in it; the number counts the bytes that
-- a write has written by then.
pub data Fate : Type 0 where
  succeeds : Fate
  fails dies : ℕ → Fate

-- The disk and the fates of the calls to come; after the last one, calls succeed.
pub record World : Type 0 where
  pub disk : Disk
  pub fates : List Fate

-- fs.ErrNotExist, and every other error.
pub data OsError : Type 0 where
  not_exist os_error : OsError

-- How a piece of code ends: it goes on with a value, its function returns early, or the process is
-- gone.
pub data Ended (E A : Type 0) : Type 0 where
  goes_on : A → Ended E A
  returns : E → Ended E A
  killed : Ended E A

abbrev pub Io : Type 0 → Type 0 → Type 0
Io E A = World → Ended E A × World

module _ {E : Type 0} where
  abbrev pub pure : {A : Type 0} → A → Io E A
  pure a w = (goes_on a, w)

  abbrev pub return_early : {A : Type 0} → E → Io E A
  return_early e w = (returns e, w)

  abbrev pub panic : {A : Type 0} → Io E A
  panic w = (killed, w)

  abbrev pub bind_ended : {A B : Type 0} → (A → Io E B) → Ended E A → Io E B
  bind_ended f (goes_on a) w = f a w
  bind_ended f (returns e) w = (returns e, w)
  bind_ended f killed w = (killed, w)

  infixl 5 ◌>>=◌ ◌>>◌
  abbrev pub ◌>>=◌ : {A B : Type 0} → Io E A → (A → Io E B) → Io E B
  ◌>>=◌ m f w = bind_ended f (m w).0 (m w).1

  abbrev pub ◌>>◌ : {B : Type 0} → Io E (Unit {0}) → Io E B → Io E B
  m >> k = m >>= λ _. k

  abbrev pub on_error_ended : {A : Type 0} → Io E (Unit {0}) → Ended E A → Io E A
  on_error_ended c (goes_on a) w = (goes_on a, w)
  on_error_ended c (returns e) w = (c >> return_early e) w
  on_error_ended c killed w = (killed, w)

  -- What a deferred function does when the result is an error.
  abbrev pub on_error : {A : Type 0} → Io E (Unit {0}) → Io E A → Io E A
  on_error c m w = on_error_ended c (m w).0 (m w).1

abbrev pub map_ended : {E E' A : Type 0} → (E → E') → Ended E A → Ended E' A
map_ended f (goes_on a) = goes_on a
map_ended f (returns e) = returns (f e)
map_ended f killed = killed

-- `if err := m; err != nil { return f(err) }`
abbrev pub or_return : {E E' A : Type 0} → (E → E') → Io E A → Io E' A
or_return f m w = (map_ended f (m w).0, (m w).1)

abbrev pub tried_ended : {E A : Type 0} → Ended E A → Ended E (Ended E A)
tried_ended (goes_on a) = goes_on (goes_on a)
tried_ended (returns e) = goes_on (returns e)
tried_ended killed = killed

abbrev pub ignored : {E E' A : Type 0} → Ended E A → Ended E' (Unit {0})
ignored (goes_on a) = goes_on tt
ignored (returns e) = goes_on tt
ignored killed = killed

-- `_ = f()`
abbrev pub ignore : {E E' A : Type 0} → Io E A → Io E' (Unit {0})
ignore m w = (ignored (m w).0, (m w).1)

-- A call whose error the code looks at.
abbrev pub tried : {E A : Type 0} → Io E A → Io E (Ended E A)
tried m w = (tried_ended (m w).0, (m w).1)

abbrev pub next_fate : List Fate → Fate
next_fate [] = succeeds
next_fate (f ∷ fs) = f

abbrev pub other_fates : List Fate → List Fate
other_fates [] = []
other_fates (f ∷ fs) = fs

-- The call's fate is spent, and the disk changed.
abbrev pub after : (Disk → Disk) → World → World
after f w = record { disk = f w.disk; fates = other_fates w.fates }

abbrev pub update : Bytes → Option Node → Disk → Disk
update p n d q = if bytes_eq p q then n else d q

abbrev pub called : (ℕ → Disk → Disk) → (Disk → Disk) → Fate → Io OsError (Unit {0})
called partly whole succeeds w = (goes_on tt, after whole w)
called partly whole (fails n) w = (returns os_error, after (partly n) w)
called partly whole (dies n) w = (killed, after (partly n) w)

-- A call that changes the disk by `whole`, or only by `partly n`.
abbrev pub system_call : (ℕ → Disk → Disk) → (Disk → Disk) → Io OsError (Unit {0})
system_call partly whole w = called partly whole (next_fate w.fates) w

abbrev pub unchanged : ℕ → Disk → Disk
unchanged n d = d

abbrev pub with_mode : ℕ → Option Node → Option Node
with_mode mode (some (regular bytes old)) = some (regular bytes mode)
with_mode mode entry = entry

abbrev pub extended : Bytes → Option Node → Option Node
extended more (some (regular bytes mode)) = some (regular (bytes ++ more) mode)
extended more entry = entry

abbrev pub emptied : ℕ → Option Node → Option Node
emptied mode (some (regular bytes old)) = some (regular [] old)
emptied mode (some directory) = some directory
emptied mode none = some (regular [] mode)

abbrev pub change : Bytes → (Option Node → Option Node) → Disk → Disk
change p f d = update p (f (d p)) d

-- (*os.File).Chmod of the file at the path.
unfoldable pub chmod : Bytes → ℕ → Io OsError (Unit {0})
chmod p mode = system_call unchanged (change p (with_mode mode))

-- (*os.File).Write to the file at the path.
unfoldable pub write : Bytes → Bytes → Io OsError (Unit {0})
write p bytes = system_call (λ n. change p (extended (take n bytes))) (change p (extended bytes))

unfoldable pub sync : Bytes → Io OsError (Unit {0})
sync p = system_call unchanged (unchanged 0)

unfoldable pub close : Bytes → Io OsError (Unit {0})
close p = system_call unchanged (unchanged 0)

unfoldable pub remove : Bytes → Io OsError (Unit {0})
remove p = system_call unchanged (update p none)

abbrev pub is_directory : Option Node → Bool
is_directory (some directory) = true
is_directory entry = false

abbrev pub is_regular : Option Node → Bool
is_regular (some (regular bytes mode)) = true
is_regular entry = false

abbrev pub when_not : Bool → Io OsError (Unit {0}) → Io OsError (Unit {0})
when_not true m w = (returns os_error, w)
when_not false m w = m w

-- A call that is refused at once if the node at a path stands in its way.
abbrev pub guarded_call : (Option Node → Bool) → Bytes → (Disk → Disk) → Io OsError (Unit {0})
guarded_call refuses p whole w = when_not (refuses (w.disk p)) (system_call unchanged whole) w

abbrev pub moved : Bytes → Bytes → Disk → Disk
moved p q d = update p none (update q (d p) d)

unfoldable pub rename : Bytes → Bytes → Io OsError (Unit {0})
rename p q = guarded_call is_directory q (moved p q)

abbrev pub exists : Option Node → Bool
exists none = false
exists (some n) = true

abbrev pub is_missing : Option Node → Bool
is_missing none = true
is_missing (some n) = false

-- os.Chmod, by path.
unfoldable pub chmod_path : Bytes → ℕ → Io OsError (Unit {0})
chmod_path p mode = guarded_call is_missing p (change p (with_mode mode))

-- os.CreateTemp, at the name that it has found: the file is new, and has mode 0600.
unfoldable pub create_temp : Bytes → Io OsError (Unit {0})
create_temp p = guarded_call exists p (update p (some (regular [] 384)))

-- os.OpenFile with O_WRONLY|O_CREATE|O_TRUNC
unfoldable pub open_truncated : Bytes → ℕ → Io OsError (Unit {0})
open_truncated p mode = guarded_call is_directory p (change p (emptied mode))

-- os.WriteFile
unfoldable pub write_file : Bytes → Bytes → ℕ → Io OsError (Unit {0})
unfolding open_truncated write close
write_file p bytes mode = do open_truncated p mode; write p bytes; close p

-- os.MkdirAll, of the last directory of the path only.
unfoldable pub mkdir_all : Bytes → Io OsError (Unit {0})
mkdir_all p = guarded_call is_regular p (update p (some directory))

abbrev pub found : Option Node → Ended OsError Node
found none = returns not_exist
found (some n) = goes_on n

abbrev looked_up : Ended OsError (Unit {0}) → Option Node → Ended OsError Node
looked_up (goes_on u) entry = found entry
looked_up (returns e) entry = returns e
looked_up killed entry = killed

unfoldable pub stat : Bytes → Io OsError Node
stat p w = let (r, w') = system_call unchanged (unchanged 0) w in (looked_up r (w.disk p), w')

abbrev pub contents : Node → Io OsError Bytes
contents (regular bytes mode) = pure bytes
contents directory = return_early os_error

unfoldable pub read_file : Bytes → Io OsError Bytes
unfolding stat
read_file p = do entry ← stat p; contents entry
