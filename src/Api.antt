-- ===== src/Api.antt =====
-- internal/api: the six handlers, over an implementation of the EncryptedStore interface.
pub mod PathId
pub mod Hiding
pub mod Quota
pub mod Errors
use tabby_sync.Common.{
  ℕ, ◌+◌, ◌-◌, ◌*◌, ◌^◌, ℤ, pos, negsuc, ltb_ℤ, Bytes, lit, is_empty, Bool, true, false, not, ◌&&◌,
  ◌||◌, Option, none, some, is_some, List, [], ◌∷◌, map, length, ltb, leb, if◌then◌else◌, value,
  all, ◌==◌, zero, suc,
}
use tabby_sync.Store.{
  Time, CreateConfigPlaintextInput, UpdateConfigPlaintextPatch, ConfigWithPlaintext, Result, ok,
  err, Error, config_not_found, decrypt_failed, EncryptedStore,
}
use tabby_sync.Auth.{User}

pub record ConfigResponse : Type 0 where
  pub id : ℤ
  pub name : Bytes
  pub content : Bytes
  pub last_used_with_version : Option Bytes
  pub created_at : Time
  pub modified_at : Time

pub record CreateConfigRequest : Type 0 where
  pub name : Bytes

pub record PatchConfigRequest : Type 0 where
  pub name : Option Bytes
  pub content : Option Bytes
  pub last_used_with_version : Option Bytes

-- What a handler encodes; active_config is always null.
pub data Body : Type 0 where
  no_content : Body
  user_response : ℤ → Bytes → Body
  config_response : ConfigResponse → Body
  configs_response : List ConfigResponse → Body
  error_response : Bytes → Body

-- An ERROR line of the log: its message and the attributes.
pub record LogLine : Type 0 where
  pub message : Bytes
  pub op : Bytes
  pub user_id : Option ℤ
  pub config_id : Option ℤ

pub record Answer : Type 0 where
  pub status : ℕ
  pub body : Body
  pub log : List LogLine

-- What encoding/json reports of a request body: whether there is one, the value of the strict
-- decoding (unless it fails), and whether more data follows.
pub record Input (A : Type 0) : Type 0 where
  pub present : Bool
  pub decoded : Option A
  pub more : Bool

abbrev pub max_configs_per_user : ℕ
max_configs_per_user = 50

abbrev pub max_content_bytes : ℕ
max_content_bytes = 2 * 1024 * 1024

-- newConfigResponse
unfoldable pub new_config_response : ConfigWithPlaintext → ConfigResponse
new_config_response c = record {
  id = c.id;
  name = c.name;
  content = c.content;
  last_used_with_version =
      if is_empty c.last_used_with_version then none else some c.last_used_with_version;
  created_at = c.created_at;
  modified_at = c.modified_at;
}

abbrev pub write_json : ℕ → Body → Answer
write_json status body = record { status = status; body = body; log = [] }

unfoldable pub write_error : ℕ → Bytes → Answer
write_error status code = write_json status (error_response code)

abbrev pub err_not_found : Bytes
err_not_found = lit "not found"

abbrev pub err_bad_request : Bytes
err_bad_request = lit "bad request"

abbrev pub err_invalid_request : Bytes
err_invalid_request = lit "invalid request"

abbrev pub err_internal : Bytes
err_internal = lit "internal error"

abbrev pub err_quota_exceeded : Bytes
err_quota_exceeded = lit "quota exceeded"

abbrev pub err_content_too_large : Bytes
err_content_too_large = lit "content too large"

-- storeErrorAttrs: the id of the configuration only if it is positive.
unfoldable pub store_error_line : Bytes → Bytes → ℤ → ℤ → LogLine
store_error_line message op user_id config_id = record {
  message = message;
  op = op;
  user_id = some user_id;
  config_id = if ltb_ℤ (pos 0) config_id then some config_id else none;
}

unfoldable pub write_store_error : Bytes → ℤ → ℤ → Error → Answer
unfolding write_error store_error_line
write_store_error op user_id config_id config_not_found = write_error 404 err_not_found
write_store_error op user_id config_id decrypt_failed = record (write_error 500 err_internal) {
  log = store_error_line (lit "decrypt failure") op user_id config_id ∷ [];
}
write_store_error op user_id config_id e = record (write_error 500 err_internal) {
  log = store_error_line (lit "internal error") op user_id config_id ∷ [];
}

unfoldable pub is_digit : ℕ → Bool
is_digit c = leb 48 c && leb c 57

-- strconv.ParseInt(s, 10, 64) of a text of digits with the sign taken off.
unfoldable pub parse_magnitude : Bytes → Option ℕ
unfolding is_digit
parse_magnitude s = if is_empty s then none else if all is_digit s then some (value 0 s) else none

abbrev pub positive : Option ℕ → Option ℤ
positive none = none
positive (some n) = if ltb n (2 ^ 63) then some (pos n) else none

abbrev pub negative : Option ℕ → Option ℤ
negative none = none
negative (some zero) = some (pos 0)
negative (some (suc n)) = if ltb n (2 ^ 63) then some (negsuc n) else none

-- strconv.ParseInt(s, 10, 64): `none` is a syntax error or a value out of range.
unfoldable pub parse_int : Bytes → Option ℤ
parse_int [] = none
parse_int (c ∷ s) =
    if c == b'-'
    then negative (parse_magnitude s)
    else if c == b'+'
    then positive (parse_magnitude s)
    else positive (parse_magnitude (c ∷ s))

-- parseConfigID: `none` is the 404 response.
unfoldable pub parse_config_id : Bytes → Option ℤ
parse_config_id raw = elim (parse_int raw) [
  | none ↦ none
  | some id ↦ if ltb_ℤ (pos 0) id then some id else none
]

-- decodeJSON: `none` is the 400 response.
unfoldable pub decode_json : {A : Type 0} → Input A → Option A
decode_json r = if not r.present then none else if r.more then none else r.decoded

-- currentUser's response to a request without a user.
unfoldable pub user_missing : Answer
unfolding write_error
user_missing = record (write_error 500 err_internal) {
  log =
      record {
        message = lit "auth user missing on authenticated request";
        op = lit "current_user";
        user_id = none;
        config_id = none;
      }
      ∷ [];
}

unfoldable pub handle_get_user : Option User → Answer
handle_get_user none = user_missing
handle_get_user (some u) = write_json 200 (user_response u.id u.name)

-- A handler's answer, and the state that it leaves.
abbrev pub Handled : Type 0 → Type 0
Handled S = Answer × S

module _ {S : Type 0} (enc : EncryptedStore S) where
  -- What follows a call of the store.
  abbrev pub respond : {A : Type 0} → Bytes → ℤ → ℤ → (A → Answer) → Result A × S → Handled S
  respond op user_id config_id f (ok a, s) = (f a, s)
  respond op user_id config_id f (err e, s) = (write_store_error op user_id config_id e, s)

  unfoldable pub handle_list_configs : Option User → S → Handled S
  unfolding new_config_response
  handle_list_configs none s = (user_missing, s)
  handle_list_configs (some u) s =
      respond (lit "list_configs") u.id (pos 0)
        (λ rows. write_json 200 (configs_response (map new_config_response rows)))
        (enc.list_configs_by_user_plaintext u.id s)

  unfoldable pub handle_get_config : Option User → Bytes → S → Handled S
  unfolding new_config_response
  handle_get_config none raw s = (user_missing, s)
  handle_get_config (some u) raw s = elim (parse_config_id raw) [
    | none ↦ (write_error 404 err_not_found, s)
    | some id ↦
        respond (lit "get_config") u.id id
          (λ row. write_json 200 (config_response (new_config_response row)))
          (enc.get_config_plaintext u.id id s)
  ]

  -- From the quota check on; `meanwhile` is what other requests commit between the count and the
  -- create, which are two calls of the store.
  unfoldable pub create_within_quota : (S → S) → User → Bytes → Result ℕ × S → Handled S
  unfolding new_config_response
  create_within_quota meanwhile u name (err e, s) =
      (write_store_error (lit "count_configs") u.id (pos 0) e, s)
  create_within_quota meanwhile u name (ok count, s) =
      if leb max_configs_per_user count
      then (write_error 409 err_quota_exceeded, s)
      else respond (lit "create_config") u.id (pos 0)
          (λ row. write_json 201 (config_response (new_config_response row)))
          (enc.create_config_plaintext u.id
            (record { name = name; content = []; last_used_with_version = [] }) (meanwhile s))

  unfoldable pub handle_create_config :
      (S → S) → Option User → Input CreateConfigRequest → S → Handled S
  unfolding create_within_quota
  handle_create_config meanwhile none r s = (user_missing, s)
  handle_create_config meanwhile (some u) r s = elim (decode_json r) [
    | none ↦ (write_error 400 err_bad_request, s)
    | some req ↦
        if is_empty req.name
        then (write_error 400 err_invalid_request, s)
        else create_within_quota meanwhile u req.name (enc.count_configs_by_user u.id s)
  ]

  abbrev pub is_too_large : Option Bytes → Bool
  is_too_large none = false
  is_too_large (some content) = ltb max_content_bytes (length content)

  abbrev pub has_no_field : PatchConfigRequest → Bool
  has_no_field req =
      not (is_some req.name)
      && not (is_some req.content)
      && not (is_some req.last_used_with_version)

  -- The checks of the decoded patch, and the update.
  unfoldable pub patch_checked : User → ℤ → PatchConfigRequest → S → Handled S
  unfolding new_config_response
  patch_checked u id req s =
      if has_no_field req
      then (write_error 400 err_invalid_request, s)
      else if is_too_large req.content
      then (write_error 413 err_content_too_large, s)
      else respond (lit "update_config") u.id id
          (λ row. write_json 200 (config_response (new_config_response row)))
          (enc.update_config_plaintext u.id id
            (record {
              name = req.name;
              content = req.content;
              last_used_with_version = req.last_used_with_version;
            })
            s)

  unfoldable pub handle_patch_config :
      Option User → Bytes → Input PatchConfigRequest → S → Handled S
  unfolding patch_checked
  handle_patch_config none raw r s = (user_missing, s)
  handle_patch_config (some u) raw r s = elim (parse_config_id raw) [
    | none ↦ (write_error 404 err_not_found, s)
    | some id ↦ elim (decode_json r) [
      | none ↦ (write_error 400 err_bad_request, s)
      | some req ↦ patch_checked u id req s
    ]
  ]

  unfoldable pub handle_delete_config : Option User → Bytes → S → Handled S
  handle_delete_config none raw s = (user_missing, s)
  handle_delete_config (some u) raw s = elim (parse_config_id raw) [
    | none ↦ (write_error 404 err_not_found, s)
    | some id ↦
        respond (lit "delete_config") u.id id (λ _. write_json 204 no_content)
          (enc.delete_config u.id id s)
  ]
