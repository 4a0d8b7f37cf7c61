-- ===== src/Tests.antt =====
-- Sample data for the examples of the theorems: two users' rows, a cipher with the laws of the real
-- one, and a healthy environment.
pub mod Sqlite
pub mod Encrypted
pub mod Auth
pub mod Api
pub mod Server
pub mod Settings
pub mod Toys
pub mod KeyFile
pub mod Doctor
pub mod Cli
pub mod Bootstrap
use tabby_sync.Common.{
  ℕ, ◌+◌, ℤ, pos, Bytes, lit, none, some, List, [], ◌∷◌, ◌++◌, ◌≡◌, refl, arith, drop, length, Bool,
  true, false,
}
use tabby_sync.Store.{
  Time, CreateConfigInput, UpdateConfigPatch, ConfigWithPlaintext, UpdateConfigPlaintextPatch,
}
use tabby_sync.Crypto.{Primitives, IsAead}
use tabby_sync.Sqlite.Driver.{Row, Env, Db, at, healthy}
use tabby_sync.Sqlite.Invariant.{IsSound}
use tabby_sync.Auth.{User}

abbrev pub tag : Bytes
tag = 0 ∷ 0 ∷ 0 ∷ 0 ∷ 0 ∷ 0 ∷ 0 ∷ 0 ∷ 0 ∷ 0 ∷ 0 ∷ 0 ∷ 0 ∷ 0 ∷ 0 ∷ 0 ∷ []

abbrev pub sample_nonce : Bytes
sample_nonce = 1 ∷ 2 ∷ 3 ∷ 4 ∷ 5 ∷ 6 ∷ 7 ∷ 8 ∷ 9 ∷ 10 ∷ 11 ∷ 12 ∷ []

abbrev pub sample_key : Bytes
sample_key = tag ++ tag

-- A cipher that puts a constant tag before the text.
abbrev pub toy : Primitives
toy = record {
  hkdf = λ key info. some key;
  seal = λ key nonce plain aad. tag ++ plain;
  open_sealed = λ key nonce sealed aad. some (drop 16 sealed);
}

pub toy-IsAead : IsAead toy
toy-IsAead = record {
  derives = λ key info h. (key, refl);
  opens = λ key nonce plain aad. refl;
  tagged = λ key nonce plain aad. omega arith;
}

abbrev pub clock : ℕ → Time
clock n = 100

abbrev pub row1 : Row
row1 = record {
  id = pos 1;
  user_id = pos 7;
  name = 97 ∷ [];
  content_ciphertext = tag ++ 120 ∷ [];
  content_nonce = sample_nonce;
  last_used_with_version = none;
  created_at = at 5;
  modified_at = at 9;
}

abbrev pub row2 : Row
row2 = record row1 { id = pos 2; user_id = pos 8 }

abbrev pub sample_db : Db
sample_db = record { rows = row1 ∷ row2 ∷ []; seq = 2; calls = 0 }

pub sample_db-IsSound : IsSound sample_db
sample_db-IsSound = record {
  ids = (1, refl, omega arith, (2, refl, omega arith, omega arith));
  bounded = omega arith;
  stamps = ((5, 9, refl, refl), ((5, 9, refl, refl), tt));
}

abbrev pub sample_input : CreateConfigInput
sample_input = record {
  name = 98 ∷ [];
  content_ciphertext = 1 ∷ [];
  content_nonce = 2 ∷ [];
  last_used_with_version = [];
}

-- A patch of the name.
abbrev pub rename : UpdateConfigPatch
rename = record {
  name = some (99 ∷ []);
  content_ciphertext = [];
  content_nonce = [];
  last_used_with_version = none;
  preserve_modified_at = false;
  expected_modified_at = none;
}

-- A metadata-only patch that expects the timestamp `t`.
abbrev pub touch : Time → UpdateConfigPatch
touch t = record rename {
  name = none;
  last_used_with_version = some (49 ∷ []);
  preserve_modified_at = true;
  expected_modified_at = some t;
}
