-- ===== src/Tests/Auth.antt =====
-- Examples of the theorems on the users file, the tokens and the cryptographic labels.
use tabby_sync.Common.{
  pos, lit, some, List, [], ◌∷◌, ◌++◌, ◌≡◌, ◌↔◌, refl, arith, true, false, map, All, bytes_eq,
  find?, all, eqb_ℤ,
}
use tabby_sync.Store.{ok}
use tabby_sync.Crypto.{encrypt, decrypt, decrypt-encrypt, derive_subkey}
use tabby_sync.Crypto.Aad.{build_aad-injective}
use tabby_sync.Auth.{
  User, valid, validate_and_normalise, normalise, with_hash, validate_from, check_entry, has_id,
  has_name,
}
use tabby_sync.Auth.Text.{is_hash, trim_space, to_lower}
use tabby_sync.Auth.Users.{IsWellFormed, AreDistinct, HashesDiffer}
use tabby_sync.Auth.Complete.{validate_and_normalise_iff}
use tabby_sync.Tests.{toy, toy-IsAead, tag, sample_key, sample_nonce}

abbrev pub alice : User
alice = record {
  id = pos 1;
  name = lit "alice";
  token_prefix = lit "tsk_";
  token_hash = lit "0123456789abcdef0123456789abcdef0123456789abcdef0123456789abcdef";
  disabled = false;
}

abbrev pub bob : User
bob = record alice {
  id = pos 2;
  name = lit "bob";
  token_hash = lit "ff23456789abcdef0123456789abcdef0123456789abcdef0123456789abcdef";
  disabled = true;
}

abbrev users : List User
users = alice ∷ bob ∷ []

accepted : validate_and_normalise users ≡ valid (map normalise users)
unfolding validate_and_normalise validate_from check_entry normalise is_hash trim_space to_lower lit
    has_id has_name all eqb_ℤ bytes_eq
accepted = refl

differ : HashesDiffer users
unfolding with_hash find? bytes_eq lit
differ = (refl, (refl, tt))

build_aad-injective_example : (pos 7 ≡ pos 7) × (pos 1 ≡ pos 1)
build_aad-injective_example =
    build_aad-injective (pos 7) (pos 7) (pos 1) (pos 1) (omega arith) (omega arith) (omega arith)
      (omega arith) refl

decrypt-encrypt_example :
    decrypt toy sample_key (pos 7) (pos 1) (tag ++ lit "text") sample_nonce ≡ ok (lit "text")
decrypt-encrypt_example =
    decrypt-encrypt toy toy-IsAead (some sample_nonce) sample_key (pos 7) (pos 1) (lit "text")
      (tag ++ lit "text") sample_nonce (unfold encrypt derive_subkey in refl) refl

validate_and_normalise_iff_example :
    (validate_and_normalise users ≡ valid (map normalise users)) ↔ (
      (map normalise users ≡ map normalise users)
      × All IsWellFormed (map normalise users)
      × AreDistinct (map normalise users))
validate_and_normalise_iff_example = validate_and_normalise_iff users (map normalise users)
