-- ===== src/Cli/Users/Completes.antt =====
-- The `user` commands of internal/cli/usercmd.go when no system call fails.
use tabby_sync.Common.{
  ℕ, Bytes, lit, bytes_eq, bytes_eq_iff, is_empty, Bool, true, false, not, ◌||◌, List, [], length,
  ltb, none, some, ◌≡◌, refl, sym, ◌∙◌, ap, arith, inl, inr, ◌⊎◌, if◌then◌else◌,
}
use tabby_sync.Files.{World, Disk, Ended, goes_on, Io, ◌>>◌}
use tabby_sync.Auth.{User}
use tabby_sync.Auth.Text.{trim_space}
use tabby_sync.Cli.Atomic.{temp_path}
use tabby_sync.Cli.Users.{
  Yaml, RoundTrips, Inputs, require, arg_at, drop_args, resolve_users_file, parse_rm, is_confirmed,
  add_user, remove_user, rotate_user, run_user_add, run_user_rm, run_user_rotate, run_user,
  edit_users_file,
}
use tabby_sync.Cli.Users.Edits.{Holds, edit_users_file-Edits, edit_users_file-Completes}
use tabby_sync.Cli.Users.Commands.{Asked}
use mathlib.Core.Path.{subst}

Holds-same :
    (yaml : Yaml) (path : Bytes) (us vs : List User) (w : World)
    → Holds yaml path us w
    → Holds yaml path vs w
    → us ≡ vs
Holds-same yaml path us vs w (raw, mode, at, parses) (raw', mode', at', parses') = cc

require-met :
    (b : Bool) (code : ℕ) (m : Io ℕ (Unit {0})) (w : World)
    → b ≡ true
    → (require b code >> m) w ≡ m w
require-met true code m w e = refl
require-met false code m w e = absurd (cc)

if-true : (b : Bool) (m n : Io ℕ (Unit {0})) (w : World) → b ≡ true → (if b then m else n) w ≡ m w
if-true true m n w e = refl
if-true false m n w e = absurd (cc)

if-false : (b : Bool) (m n : Io ℕ (Unit {0})) (w : World) → b ≡ false → (if b then m else n) w ≡ n w
if-false true m n w e = absurd (cc)
if-false false m n w e = refl

-- The code goes on, and the file holds the entries.
abbrev pub Done : Yaml → Bytes → List User → Ended ℕ (Unit {0}) × World → Type 0
Done yaml path us x = (x.0 ≡ goes_on tt) × Holds yaml path us x.1

module _ (yaml : Yaml) (trips : RoundTrips yaml) (path suffix : Bytes) (d : Disk)
    (us us' : List User) (raw : Bytes)
    (stands : Holds yaml path us (record { disk = d; fates = [] }))
    (marshals : yaml.marshal us' ≡ some raw) (free : d (temp_path path suffix) ≡ none) where
  edit_users_file-Done :
      (edit : List User → Ended ℕ (List User))
      → edit us ≡ goes_on us'
      → Done yaml path us' (edit_users_file yaml suffix path edit (record { disk = d; fates = [] }))
  edit_users_file-Done edit edits =
      let w : World = record { disk = d; fates = [] } in
      let fine =
        edit_users_file-Completes yaml path suffix edit d us us' raw stands edits marshals free in
      elim (edit_users_file-Edits yaml path suffix edit trips w) [
        | inl (e, vs, vs', before, edit_vs, after) ↦
            let same : vs ≡ us = Holds-same yaml path vs us w before stands in
            let same' : vs' ≡ us' = cc in
            (
              fine,
              subst (λ l. Holds yaml path l (edit_users_file yaml suffix path edit w).1) same'
                  after,
            )
        | inr (ne, same) ↦ absurd (ne fine)
      ]

module _ (args : List Bytes) where
  -- The command line has its operand: `add` and `rm` refuse an empty one.
  abbrev pub HasOperand : Type 0
  HasOperand =
      (ltb (length args) 4 ≡ false)
      × ((arg_at 2 args ≡ lit "add") → is_empty (trim_space (arg_at 3 args)) ≡ false)
      × (((arg_at 2 args ≡ lit "rm") ⊎ (arg_at 2 args ≡ lit "remove"))
          → is_empty (parse_rm false [] (drop_args 3 args)).1 ≡ false)

  is_add : arg_at 2 args ≡ lit "add" → bytes_eq (arg_at 2 args) (lit "add") ≡ true
  is_add e = (bytes_eq_iff (arg_at 2 args) (lit "add")).1 e

  is_rm :
      ((arg_at 2 args ≡ lit "rm") ⊎ (arg_at 2 args ≡ lit "remove"))
      → (bytes_eq (arg_at 2 args) (lit "add") ≡ false)
        × ((bytes_eq (arg_at 2 args) (lit "rm") || bytes_eq (arg_at 2 args) (lit "remove")) ≡ true)
  unfolding bytes_eq lit
  is_rm (inl e) = rw e (refl, refl)
  is_rm (inr e) = rw e (refl, refl)

  is_rotate :
      arg_at 2 args ≡ lit "rotate"
      → (bytes_eq (arg_at 2 args) (lit "add") ≡ false)
        × ((bytes_eq (arg_at 2 args) (lit "rm") || bytes_eq (arg_at 2 args) (lit "remove")) ≡ false)
        × (bytes_eq (arg_at 2 args) (lit "rotate") ≡ true)
  unfolding bytes_eq lit
  is_rotate e = rw e (refl, refl, refl)

module _ (sha256 : Bytes → Bytes) (yaml : Yaml) (getenv : Bytes → Bytes) (inputs : Inputs)
    (args : List Bytes) where
  module _ (complete : HasOperand args) (has_path : is_empty (resolve_users_file getenv) ≡ false)
      (w : World) where
    at_least_three : ltb (length args) 3 ≡ false
    at_least_three = ground (arith, complete.0)

    enough : not (ltb (length args) 4) ≡ true
    enough = ap not complete.0

    add-run :
        arg_at 2 args ≡ lit "add"
        → run_user sha256 yaml getenv inputs args w
          ≡ edit_users_file yaml inputs.suffix
              (resolve_users_file getenv)
              (add_user sha256 (trim_space (arg_at 3 args)) inputs.random)
              w
    unfolding run_user run_user_add
    add-run e =
        if-false (ltb (length args) 3) _ _ w at_least_three
        ∙ if-true (bytes_eq (arg_at 2 args) (lit "add")) _ _ w (is_add args e)
        ∙ require-met (not (ltb (length args) 4)) 2 _ w enough
        ∙ require-met (not (is_empty (trim_space (arg_at 3 args)))) 2 _ w (ap not (complete.1 e))
        ∙ require-met (not (is_empty (resolve_users_file getenv))) 2 _ w (ap not has_path)

    rm-run :
        (arg_at 2 args ≡ lit "rm") ⊎ (arg_at 2 args ≡ lit "remove")
        → let (force, target) = parse_rm false [] (drop_args 3 args) in
          run_user sha256 yaml getenv inputs args w
          ≡ edit_users_file yaml inputs.suffix
              (resolve_users_file getenv)
              (remove_user target (is_confirmed force inputs.answer))
              w
    unfolding run_user run_user_rm
    rm-run e =
        let (not_add, rm) = is_rm args e in
        if-false (ltb (length args) 3) _ _ w at_least_three
        ∙ if-false (bytes_eq (arg_at 2 args) (lit "add")) _ _ w not_add
        ∙ if-true (bytes_eq (arg_at 2 args) (lit "rm") || bytes_eq (arg_at 2 args) (lit "remove")) _
            _ w rm
        ∙ require-met (not (ltb (length args) 4)) 2 _ w enough
        ∙ require-met (not (is_empty (parse_rm false [] (drop_args 3 args)).1)) 2 _ w
            (ap not (complete.2 e))
        ∙ require-met (not (is_empty (resolve_users_file getenv))) 2 _ w (ap not has_path)

    rotate-run :
        arg_at 2 args ≡ lit "rotate"
        → run_user sha256 yaml getenv inputs args w
          ≡ edit_users_file yaml inputs.suffix
              (resolve_users_file getenv)
              (rotate_user sha256 (trim_space (arg_at 3 args)) inputs.random)
              w
    unfolding run_user run_user_rotate
    rotate-run e =
        let (not_add, not_rm, rotates) = is_rotate args e in
        if-false (ltb (length args) 3) _ _ w at_least_three
        ∙ if-false (bytes_eq (arg_at 2 args) (lit "add")) _ _ w not_add
        ∙ if-false (bytes_eq (arg_at 2 args) (lit "rm") || bytes_eq (arg_at 2 args) (lit "remove"))
            _ _ w not_rm
        ∙ if-true (bytes_eq (arg_at 2 args) (lit "rotate")) _ _ w rotates
        ∙ require-met (not (ltb (length args) 4)) 2 _ w enough
        ∙ require-met (not (is_empty (resolve_users_file getenv))) 2 _ w (ap not has_path)

  -- If no system call fails, `tabby-sync user` with one of its commands, its operand and a users
  -- file exits with code 0, and the users file holds what the command asks for. The file holds
  -- entries for which the command asks for some, these can be marshalled, and the temporary name is
  -- free; what yaml.Marshal writes is assumed to be read back.
  pub run_user-Completes :
      RoundTrips yaml
      → HasOperand args
      → is_empty (resolve_users_file getenv) ≡ false
      → (d : Disk) (us us' : List User) (raw : Bytes)
      → Holds yaml (resolve_users_file getenv) us (record { disk = d; fates = [] })
      → Asked sha256 yaml getenv inputs args us us'
      → yaml.marshal us' ≡ some raw
      → d (temp_path (resolve_users_file getenv) inputs.suffix) ≡ none
      → Done yaml
          (resolve_users_file getenv)
          us'
          (run_user sha256 yaml getenv inputs args (record { disk = d; fates = [] }))
  run_user-Completes trips complete has_path d us us' raw stands asked marshals free =
      let path = resolve_users_file getenv in
      let w : World = record { disk = d; fates = [] } in
      let done =
        edit_users_file-Done yaml trips path inputs.suffix d us us' raw stands marshals free in
      elim asked [
        | inl (add, edits) ↦
            subst (Done yaml path us') (sym (add-run complete has_path w add)) (done _ edits)
        | inr (inl (rm, edits)) ↦
            subst (Done yaml path us') (sym (rm-run complete has_path w rm)) (done _ edits)
        | inr (inr (rotate, edits)) ↦
            subst (Done yaml path us') (sym (rotate-run complete has_path w rotate)) (done _ edits)
      ]
