-- ===== src/Auth/Loading.antt =====
-- LoadUsersFile of internal/auth/users.go, and Reload of internal/auth/store.go: from the file to the
-- live snapshot.
use tabby_sync.Common.{
  ℕ, Bytes, Option, none, some, List, [], ◌∷◌, ◌≡◌, refl, sym, ◌∙◌, ap, All, false, ◌↔◌,
}
use tabby_sync.Files.{
  regular, World, Ended, goes_on, returns, killed, Io, ◌>>=◌, pure, return_early, panic, or_return,
  read_file,
}
use tabby_sync.Files.GoesOn.{bind-goes_on, read_file-goes_on, or_return-goes_on}
use tabby_sync.Auth.{
  User, Invalid, Checked, valid, invalid, validate_and_normalise, new_user_snapshot, lookup,
}
use tabby_sync.Auth.Users.{
  IsWellFormed, AreDistinct, HashesDiffer, validate_and_normalise-valid, new_user_snapshot-some,
}
use tabby_sync.Auth.Tokens.{Has, lookup_iff}
use mathlib.Core.Path.{subst}

-- Why a users file is not loaded: it cannot be read, it is not YAML of the schema, or it is refused.
pub data LoadError : Type 0 where
  unreadable undecodable : LoadError
  refused : ℕ → Invalid → LoadError

abbrev pub decoded : Option (List User) → Io LoadError (List User)
decoded none = return_early undecodable
decoded (some es) = pure es

abbrev pub accepted : Checked (List User) → Io LoadError (List User)
accepted (valid us) = pure us
accepted (invalid i why) = return_early (refused i why)

-- newUserStore panics where the snapshot does.
abbrev pub new_user_store : Option (List User) → Io LoadError (List User)
new_user_store none = panic
new_user_store (some us) = pure us

-- The decoder is that of gopkg.in/yaml.v3, with KnownFields.
module _ (decode : Bytes → Option (List User)) where
  unfoldable pub load_users_file : Bytes → Io LoadError (List User)
  load_users_file path = do
    raw ← or_return (λ e. unreadable) (read_file path)
    es ← decoded (decode raw)
    us ← accepted (validate_and_normalise es)
    new_user_store (new_user_snapshot us)

  abbrev pub swapped : List User → Ended LoadError (List User) → List User
  swapped live (goes_on fresh) = fresh
  swapped live (returns e) = live
  swapped live killed = live

  -- Reload: the live snapshot that it leaves.
  unfoldable pub reload : Bytes → List User → World → List User
  unfolding load_users_file
  reload path live w = swapped live (load_users_file path w).0

  -- Reloads, each on the disk that it finds.
  unfoldable pub reload_all : Bytes → List User → List World → List User
  unfolding reload
  reload_all path live [] = live
  reload_all path live (w ∷ ws) = reload_all path (reload path live w) ws

-- What Lookup and the handlers rely on.
pub record IsServable (us : List User) : Type 0 where
  pub well_formed : All IsWellFormed us
  pub distinct : AreDistinct us
  pub hashes_differ : HashesDiffer us

decoded-goes_on :
    (o : Option (List User)) (w : World) (es : List User)
    → (decoded o w).0 ≡ goes_on es
    → o ≡ some es
decoded-goes_on none w es e = absurd (cc)
decoded-goes_on (some x) w es e = cc

accepted-goes_on :
    (c : Checked (List User)) (w : World) (us : List User)
    → (accepted c w).0 ≡ goes_on us
    → c ≡ valid us
accepted-goes_on (valid x) w us e = cc
accepted-goes_on (invalid i why) w us e = absurd (cc)

new_user_store-goes_on :
    (o : Option (List User)) (w : World) (us : List User)
    → (new_user_store o w).0 ≡ goes_on us
    → o ≡ some us
new_user_store-goes_on none w us e = absurd (cc)
new_user_store-goes_on (some x) w us e = cc

module _ (decode : Bytes → Option (List User)) where
  -- The users that are loaded are those of the file, normalised, and can be served.
  pub load_users_file-IsServable :
      (path : Bytes) (w : World) (us : List User)
      → (load_users_file decode path w).0 ≡ goes_on us
      → (raw : Bytes) × (mode : ℕ) × (w.disk path ≡ some (regular raw mode))
        × (es : List User) × (decode raw ≡ some es)
        × (validate_and_normalise es ≡ valid us)
        × IsServable us
  unfolding load_users_file
  load_users_file-IsServable path w us e =
      let build = λ (us : List User). new_user_store (new_user_snapshot us) in
      let check = λ (es : List User). accepted (validate_and_normalise es) >>= build in
      let parse = λ (raw : Bytes). decoded (decode raw) >>= check in
      let (raw, reads, same1) =
        bind-goes_on (or_return (λ e. unreadable) (read_file path)) parse w us e in
      let w1 = (read_file path w).1 in
      let e1 = sym (ap (λ r. r.0) same1) ∙ e in
      let (es, parses, same2) = bind-goes_on (decoded (decode raw)) check w1 us e1 in
      let w2 = (decoded (decode raw) w1).1 in
      let e2 = sym (ap (λ r. r.0) same2) ∙ e1 in
      let (vs, checks, same3) =
        bind-goes_on (accepted (validate_and_normalise es)) build w2 us e2 in
      let w3 = (accepted (validate_and_normalise es) w2).1 in
      let e3 = sym (ap (λ r. r.0) same3) ∙ e2 in
      let (mode, at) =
        read_file-goes_on path raw w
          (or_return-goes_on (λ e. unreadable) (read_file path) w raw reads) in
      let valid_vs = accepted-goes_on (validate_and_normalise es) w2 vs checks in
      let (differ, same) =
        new_user_snapshot-some vs us (new_user_store-goes_on (new_user_snapshot vs) w3 us e3) in
      let (normal, wf, distinct) = validate_and_normalise-valid es vs valid_vs in
      (
        raw,
        mode,
        at,
        es,
        decoded-goes_on (decode raw) w1 es parses,
        valid_vs ∙ ap valid (sym same),
        record {
          well_formed = subst (All IsWellFormed) (sym same) wf;
          distinct = subst AreDistinct (sym same) distinct;
          hashes_differ = subst HashesDiffer (sym same) differ;
        },
      )

  reload-IsServable :
      (path : Bytes) (live : List User) (w : World)
      → IsServable live
      → IsServable (reload decode path live w)
  unfolding reload
  reload-IsServable path live w h = ended (load_users_file decode path w).0 refl
    where
      ended :
          (r : Ended LoadError (List User))
          → (load_users_file decode path w).0 ≡ r
          → IsServable (swapped decode live r)
      ended (goes_on fresh) e =
          let (raw, mode, at, es, parses, accepts, servable) =
            load_users_file-IsServable path w fresh e in
          servable
      ended (returns x) e = h
      ended killed e = h

  -- After any row of reloads, whatever stands in the users file each time and whichever reads fail,
  -- the live users can be served if those at the start could: they are well formed, and no two of them
  -- share an id, a name or a token hash.
  pub reload_all-IsServable :
      (path : Bytes) (live : List User) (ws : List World)
      → IsServable live
      → IsServable (reload_all decode path live ws)
  unfolding reload_all
  reload_all-IsServable path live [] h = h
  reload_all-IsServable path live (w ∷ ws) h =
      reload_all-IsServable path (reload decode path live w) ws (reload-IsServable path live w h)

-- After any row of reloads from users that can be served (well formed, and no two with one id, name
-- or token hash), whatever stands in the users file each time and whichever reads fail, the live
-- users can be served, and Lookup gives a user exactly if the user is live, has the token's hash,
-- and is not disabled.
pub reload_all-lookup :
    (decode : Bytes → Option (List User)) (sha256_hex : Bytes → Bytes) (path : Bytes)
    (live : List User) (ws : List World) (token : Bytes) (u : User)
    → IsServable live
    → let now = reload_all decode path live ws in
      IsServable now
      × ((lookup sha256_hex now token ≡ some u)
          ↔ (Has u now × (u.token_hash ≡ sha256_hex token) × (u.disabled ≡ false)))
reload_all-lookup decode sha256_hex path live ws token u h =
    let servable = reload_all-IsServable decode path live ws h in
    (
      servable,
      lookup_iff sha256_hex (reload_all decode path live ws) token u servable.hashes_differ,
    )
