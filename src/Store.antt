-- ===== src/Store.antt =====
-- internal/store/store.go: the data of the persistence contract, and its errors as a result type.
-- A wrapped error (`%w`) is the sentinel that `errors.Is` finds in it; all others are `internal`.
use tabby_sync.Common.{ℕ, ℤ, Bytes, Bool, Option, ◌≡◌, refl, ◌⊎◌, inl, inr, List}

-- An instant, in nanoseconds (Go's time.Time in UTC, at RFC3339Nano's precision).
abbrev pub Time : Type 0
Time = ℕ

pub record Config : Type 0 where
  pub id : ℤ
  pub user_id : ℤ
  pub name : Bytes
  pub content_ciphertext : Bytes
  pub content_nonce : Bytes
  pub last_used_with_version : Bytes
  pub created_at : Time
  pub modified_at : Time

pub record CreateConfigInput : Type 0 where
  pub name : Bytes
  pub content_ciphertext : Bytes
  pub content_nonce : Bytes
  pub last_used_with_version : Bytes

-- A nil pointer is `none`; a nil slice and an empty one are both `[]`.
pub record UpdateConfigPatch : Type 0 where
  pub name : Option Bytes
  pub content_ciphertext : Bytes
  pub content_nonce : Bytes
  pub last_used_with_version : Option Bytes
  pub preserve_modified_at : Bool
  pub expected_modified_at : Option Time

pub record CreateConfigPlaintextInput : Type 0 where
  pub name : Bytes
  pub content : Bytes
  pub last_used_with_version : Bytes

pub record UpdateConfigPlaintextPatch : Type 0 where
  pub name : Option Bytes
  pub content : Option Bytes
  pub last_used_with_version : Option Bytes

pub record ConfigWithPlaintext : Type 0 where
  pub id : ℤ
  pub user_id : ℤ
  pub name : Bytes
  pub content : Bytes
  pub last_used_with_version : Bytes
  pub created_at : Time
  pub modified_at : Time

pub data Error : Type 0 where
  config_not_found invalid_patch config_changed decrypt_failed internal : Error

pub data Result {ℓ} (A : Type ℓ) : Type ℓ where
  ok : A → Result A
  err : Error → Result A

pub Result-cases {ℓ} :
    {A : Type ℓ} (r : Result A) → ((a : A) × (r ≡ ok a)) ⊎ ((e : Error) × (r ≡ err e))
Result-cases (ok a) = inl (a, refl)
Result-cases (err e) = inr (e, refl)

-- The EncryptedStore interface: every method may fail, and changes the state of type `S`.
pub record EncryptedStore (S : Type 0) : Type 0 where
  pub create_config_plaintext : ℤ → CreateConfigPlaintextInput → S → Result ConfigWithPlaintext × S
  pub get_config_plaintext : ℤ → ℤ → S → Result ConfigWithPlaintext × S
  pub list_configs_by_user_plaintext : ℤ → S → Result (List ConfigWithPlaintext) × S
  pub update_config_plaintext :
      ℤ → ℤ → UpdateConfigPlaintextPatch → S → Result ConfigWithPlaintext × S
  pub delete_config : ℤ → ℤ → S → Result (Unit {0}) × S
  pub count_configs_by_user : ℤ → S → Result ℕ × S
