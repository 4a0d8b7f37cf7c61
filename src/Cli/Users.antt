-- ===== src/Cli/Users.antt =====
-- The `user` commands of internal/cli/usercmd.go: what they do to the entries of the users file, and
-- the code around it. An entry has the fields of a user; the exit code 0 is going on.
pub mod Edits
pub mod Tokens
pub mod Entries
pub mod Accepted
pub mod Removed
pub mod Rotated
pub mod Fresh
pub mod Added
pub mod Commands
pub mod Completes
use tabby_sync.Common.{
  ℕ, suc, zero, ◌+◌, ◌^◌, ◌==◌, ℤ, pos, negsuc, ltb_ℤ, eqb_ℤ, Bytes, lit, bytes_eq, is_empty, Bool,
  true, false, not, ◌||◌, Option, none, some, List, [], ◌∷◌, ◌++◌, length, ltb, take, if◌then◌else◌,
  ◌≡◌, ◌-◌,
}
use tabby_sync.Files.{
  OsError, os_error, Ended, goes_on, returns, killed, Io, ◌>>=◌, ◌>>◌, pure, return_early, panic,
  or_return, read_file,
}
use tabby_sync.Files.Paths.{join}
use tabby_sync.Auth.{User}
use tabby_sync.Auth.Text.{trim_space, to_lower, equal_fold}
use tabby_sync.Api.{parse_int}
use tabby_sync.Keys.{encode_hex}
use tabby_sync.Cli.Atomic.{write_file_atomic}

-- gopkg.in/yaml.v3 on the schema of the users file: yaml.Marshal, and yaml.Unmarshal.
pub record Yaml : Type 0 where
  pub marshal : List User → Option Bytes
  pub unmarshal : Bytes → Option (List User)

-- What is marshalled can be read back.
abbrev pub RoundTrips : Yaml → Type 0
RoundTrips y = (us : List User) (raw : Bytes) → y.marshal us ≡ some raw → y.unmarshal raw ≡ some us

-- What one run takes from outside: crypto/rand's bytes for a token (`none` if it fails), the random
-- part of a temporary file's name, and the answer read from the standard input (`none` if the
-- scan fails).
pub record Inputs : Type 0 where
  pub random : Option Bytes
  pub suffix : Bytes
  pub answer : Option Bytes

pub record Token : Type 0 where
  pub plaintext : Bytes
  pub hash : Bytes
  pub prefix : Bytes

unfoldable pub resolve_users_file : (Bytes → Bytes) → Bytes
unfolding join lit
resolve_users_file getenv =
    if not (is_empty (getenv (lit "TABBY_SYNC_USERS_FILE")))
    then getenv (lit "TABBY_SYNC_USERS_FILE")
    else if not (is_empty (getenv (lit "TABBY_SYNC_DATA_DIR")))
    then join (getenv (lit "TABBY_SYNC_DATA_DIR")) (lit "users.yml")
    else []

-- `if !b { return code }`
abbrev pub require : Bool → ℕ → Io ℕ (Unit {0})
require true code w = (goes_on tt, w)
require false code w = (returns code, w)

abbrev pub decided : {A : Type 0} → Ended ℕ A → Io ℕ A
decided r w = (r, w)

-- `if err != nil { return code }`
abbrev pub or_code : {A : Type 0} → ℕ → Io OsError A → Io ℕ A
or_code code m = or_return (λ e. code) m

-- Of two integers the larger one, as the loop over the ids takes it.
abbrev pub larger : ℤ → ℤ → ℤ
larger m i = if ltb_ℤ m i then i else m

unfoldable pub max_id_from : ℤ → List User → ℤ
max_id_from m [] = m
max_id_from m (u ∷ us) = max_id_from (larger m u.id) us

-- maxID + 1 in 64 bits.
unfoldable pub wrapped_suc : ℤ → ℤ
wrapped_suc (pos n) = if n + 1 == 2 ^ 63 then negsuc (2 ^ 63 - 1) else pos (n + 1)
wrapped_suc (negsuc zero) = pos 0
wrapped_suc (negsuc (suc n)) = negsuc n

unfoldable pub next_id : List User → ℤ
unfolding max_id_from wrapped_suc
next_id us = wrapped_suc (max_id_from (pos 0) us)

-- The index of the first entry that passes a test.
unfoldable pub index_where : (User → Bool) → List User → Option ℕ
index_where p [] = none
index_where p (u ∷ us) =
    let rest = index_where p us in
    if p u then some 0 else elim rest [ none ↦ none | some i ↦ some (suc i) ]

unfoldable pub index_of_id : Option ℤ → List User → Option ℕ
unfolding index_where
index_of_id none us = none
index_of_id (some id) us = index_where (λ u. eqb_ℤ u.id id) us

-- findUser: `none` is -1.
unfoldable pub find_user : List User → Bytes → Option ℕ
unfolding index_of_id
find_user us target = elim (index_of_id (parse_int target) us) [
  | none ↦ index_where (λ u. equal_fold u.name target) us
  | some i ↦ some i
]

unfoldable pub name_is_taken : Bytes → List User → Bool
name_is_taken name [] = false
name_is_taken name (u ∷ us) = equal_fold u.name name || name_is_taken name us

-- append(users[:i], users[i+1:]...)
unfoldable pub remove_at : ℕ → List User → List User
remove_at i [] = []
remove_at zero (u ∷ us) = us
remove_at (suc i) (u ∷ us) = u ∷ remove_at i us

abbrev pub with_token : Token → User → User
with_token t u = record u { token_hash = t.hash; token_prefix = t.prefix }

unfoldable pub set_token_at : Token → ℕ → List User → List User
set_token_at t i [] = []
set_token_at t zero (u ∷ us) = with_token t u ∷ us
set_token_at t (suc i) (u ∷ us) = u ∷ set_token_at t i us

-- The loop over the arguments of `user rm`, from the flag and the target found so far.
unfoldable pub parse_rm : Bool → Bytes → List Bytes → Bool × Bytes
unfolding lit
parse_rm force target [] = (force, target)
parse_rm force target (arg ∷ args) =
    if bytes_eq arg (lit "--force") || bytes_eq arg (lit "-f")
    then parse_rm true target args
    else parse_rm force (if is_empty target then trim_space arg else target) args

abbrev says_yes : Option Bytes → Bool
says_yes none = false
says_yes (some answer) = bytes_eq (to_lower (trim_space answer)) (b'y' ∷ [])

unfoldable pub is_confirmed : Bool → Option Bytes → Bool
is_confirmed force answer = force || says_yes answer

abbrev pub arg_at : ℕ → List Bytes → Bytes
arg_at i [] = []
arg_at zero (a ∷ args) = a
arg_at (suc i) (a ∷ args) = arg_at i args

abbrev pub drop_args : ℕ → List Bytes → List Bytes
drop_args zero args = args
drop_args (suc i) [] = []
drop_args (suc i) (a ∷ args) = drop_args i args

abbrev pub edit_at : (ℕ → List User → List User) → List User → Option ℕ → Ended ℕ (List User)
edit_at f us none = returns 1
edit_at f us (some i) = goes_on (f i us)

abbrev pub new_user : ℤ → Bytes → Token → User
new_user id name t = record {
  id = id;
  name = name;
  token_prefix = t.prefix;
  token_hash = t.hash;
  disabled = false;
}

abbrev confirmed : Bool → Ended ℕ (List User) → Ended ℕ (List User)
confirmed true r = r
confirmed false (goes_on us) = returns 0
confirmed false (returns code) = returns code
confirmed false killed = killed

-- What runUserRm does to them; without a confirmation it returns 0 once it has found the user.
unfoldable pub remove_user : Bytes → Bool → List User → Ended ℕ (List User)
unfolding find_user remove_at
remove_user target sure us = confirmed sure (edit_at remove_at us (find_user us target))

module _ (sha256 : Bytes → Bytes) where
  -- generateToken, of the bytes drawn.
  unfoldable pub generate_token : Bytes → Token
  unfolding lit encode_hex
  generate_token random =
      let plaintext = lit "tbs_" ++ encode_hex random in
      record {
        plaintext = plaintext;
        hash = encode_hex (sha256 plaintext);
        prefix = take 12 plaintext;
      }

  -- generateToken panics if no random bytes can be drawn.
  abbrev pub drawn : Option Bytes → (Token → Ended ℕ (List User)) → Ended ℕ (List User)
  drawn none f = killed
  drawn (some random) f = f (generate_token random)

  -- What runUserAdd does to the entries that it has read.
  unfoldable pub add_user : Bytes → Option Bytes → List User → Ended ℕ (List User)
  unfolding name_is_taken next_id
  add_user name random us =
      if name_is_taken name us
      then returns 1
      else drawn random (λ t. goes_on (us ++ new_user (next_id us) name t ∷ []))

  -- What runUserRotate does to them.
  unfoldable pub rotate_user : Bytes → Option Bytes → List User → Ended ℕ (List User)
  unfolding find_user set_token_at
  rotate_user target random us = elim (find_user us target) [
    | none ↦ returns 1
    | some i ↦ drawn random (λ t. goes_on (set_token_at t i us))
  ]

module _ (yaml : Yaml) where
  abbrev pub parsed : Option (List User) → Io OsError (List User)
  parsed none = return_early os_error
  parsed (some us) = pure us

  unfoldable pub load_users_yaml : Bytes → Io OsError (List User)
  load_users_yaml path = do raw ← read_file path; parsed (yaml.unmarshal raw)

  abbrev pub written : Bytes → Bytes → Option Bytes → Io OsError (Unit {0})
  written suffix path none = return_early os_error
  written suffix path (some raw) = write_file_atomic suffix path raw 384

  unfoldable pub save_users_yaml : Bytes → Bytes → List User → Io OsError (Unit {0})
  save_users_yaml suffix path us = written suffix path (yaml.marshal us)

  -- Load the entries, edit them, and save them.
  unfoldable pub edit_users_file :
      Bytes → Bytes → (List User → Ended ℕ (List User)) → Io ℕ (Unit {0})
  unfolding load_users_yaml save_users_yaml
  edit_users_file suffix path edit = do
    us ← or_code 1 (load_users_yaml path)
    us' ← decided (edit us)
    or_code 1 (save_users_yaml suffix path us')

module _ (sha256 : Bytes → Bytes) (yaml : Yaml) (getenv : Bytes → Bytes) (inputs : Inputs) where
  unfoldable pub run_user_add : List Bytes → Io ℕ (Unit {0})
  unfolding resolve_users_file add_user edit_users_file
  run_user_add args = do
    require (not (ltb (length args) 4)) 2
    require (not (is_empty (trim_space (arg_at 3 args)))) 2
    require (not (is_empty (resolve_users_file getenv))) 2
    edit_users_file yaml inputs.suffix (resolve_users_file getenv)
        (add_user sha256 (trim_space (arg_at 3 args)) inputs.random)

  unfoldable pub run_user_rm : List Bytes → Io ℕ (Unit {0})
  unfolding parse_rm resolve_users_file remove_user is_confirmed edit_users_file
  run_user_rm args =
      let (force, target) = parse_rm false [] (drop_args 3 args) in
      do
        require (not (ltb (length args) 4)) 2
        require (not (is_empty target)) 2
        require (not (is_empty (resolve_users_file getenv))) 2
        edit_users_file yaml inputs.suffix (resolve_users_file getenv)
            (remove_user target (is_confirmed force inputs.answer))

  unfoldable pub run_user_rotate : List Bytes → Io ℕ (Unit {0})
  unfolding resolve_users_file rotate_user edit_users_file
  run_user_rotate args = do
    require (not (ltb (length args) 4)) 2
    require (not (is_empty (resolve_users_file getenv))) 2
    edit_users_file yaml inputs.suffix (resolve_users_file getenv)
        (rotate_user sha256 (trim_space (arg_at 3 args)) inputs.random)

  unfoldable pub run_user : List Bytes → Io ℕ (Unit {0})
  unfolding run_user_add run_user_rm run_user_rotate lit
  run_user args =
      if ltb (length args) 3
      then return_early 2
      else if bytes_eq (arg_at 2 args) (lit "add")
      then run_user_add args
      else if bytes_eq (arg_at 2 args) (lit "rm") || bytes_eq (arg_at 2 args) (lit "remove")
      then run_user_rm args
      else if bytes_eq (arg_at 2 args) (lit "rotate")
      then run_user_rotate args
      else return_early 2
