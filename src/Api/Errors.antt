-- ===== src/Api/Errors.antt =====
-- What the handlers log, and the limits of a PATCH.
use tabby_sync.Common.{
  ℕ, ◌≤◌, ◌==◌, ℤ, Bytes, Bool, true, false, not, Option, none, some, [], ◌≡◌, refl, arith,
  is_empty, length, map, Option-cases, inl, inr, leb, if◌then◌else◌, is_some, ◌||◌, Bool-cases, lit,
  pos,
}
use tabby_sync.Store.{
  EncryptedStore, Result, ok, err, Error, config_not_found, decrypt_failed, invalid_patch,
  config_changed, internal,
}
use tabby_sync.Auth.{User}
use tabby_sync.Api.{
  Answer, Input, CreateConfigRequest, PatchConfigRequest, Handled, respond, write_error, write_json,
  write_store_error, user_missing, decode_json, parse_config_id, handle_get_user,
  handle_list_configs, handle_get_config, handle_create_config, create_within_quota,
  handle_patch_config, patch_checked, handle_delete_config, has_no_field, is_too_large,
  max_configs_per_user, new_config_response, config_response, configs_response, no_content,
}

-- A request to one of the endpoints, as its handler sees it.
pub data Request : Type 0 where
  get_user list_configs : Request
  get_config delete_config : Bytes → Request
  create_config : Input CreateConfigRequest → Request
  patch_config : Bytes → Input PatchConfigRequest → Request

-- The handler that api.New registers for each endpoint.
unfoldable pub serve :
    {S : Type 0} → EncryptedStore S → (S → S) → Option User → Request → S → Handled S
serve enc meanwhile u get_user s = (handle_get_user u, s)
serve enc meanwhile u list_configs s = handle_list_configs enc u s
serve enc meanwhile u (get_config raw) s = handle_get_config enc u raw s
serve enc meanwhile u (delete_config raw) s = handle_delete_config enc u raw s
serve enc meanwhile u (create_config r) s = handle_create_config enc meanwhile u r s
serve enc meanwhile u (patch_config raw r) s = handle_patch_config enc u raw r s

-- The response is a 500 exactly if the handler logged a line.
abbrev pub IsErrorLogged : Answer → Type 0
IsErrorLogged a = (a.status == 500) ≡ not (is_empty a.log)

module _ {S : Type 0} (enc : EncryptedStore S) where
  -- The same of a handler's answer and state.
  record Logged (h : Handled S) : Type 0 where
    pub at : IsErrorLogged h.0

  store_error : (op : Bytes) (u id : ℤ) (e : Error) → IsErrorLogged (write_store_error op u id e)
  unfolding write_store_error write_error
  store_error op u id config_not_found = refl
  store_error op u id decrypt_failed = refl
  store_error op u id invalid_patch = refl
  store_error op u id config_changed = refl
  store_error op u id internal = refl

  respond-Logged :
      {A : Type 0} (op : Bytes) (u id : ℤ) (f : A → Answer) (r : Result A × S)
      → ((a : A) → IsErrorLogged (f a))
      → Logged (respond enc op u id f r)
  respond-Logged op u id f (ok a, s) h = record { at = h a }
  respond-Logged op u id f (err e, s) h = record { at = store_error op u id e }

  if_Logged : (b : Bool) (x y : Handled S) → Logged x → Logged y → Logged (if b then x else y)
  if_Logged true x y h k = h
  if_Logged false x y h k = k

  option-Logged :
      {A : Type 0} (o : Option A) (x : Handled S) (f : A → Handled S)
      → Logged x
      → ((a : A) → Logged (f a))
      → Logged (elim o as (λ _. Handled S) [ none ↦ x | some a ↦ f a ])
  option-Logged none x f h k = h
  option-Logged (some a) x f h k = k a

  list_configs-Logged : (u : Option User) (s : S) → Logged (handle_list_configs enc u s)
  unfolding handle_list_configs user_missing write_error
  list_configs-Logged none s = record { at = refl }
  list_configs-Logged (some u) s =
      respond-Logged (lit "list_configs") u.id (pos 0)
        (λ rows. write_json 200 (configs_response (map new_config_response rows)))
        (enc.list_configs_by_user_plaintext u.id s) (λ a. refl)

  get_config-Logged :
      (u : Option User) (raw : Bytes) (s : S) → Logged (handle_get_config enc u raw s)
  unfolding handle_get_config user_missing write_error
  get_config-Logged none raw s = record { at = refl }
  get_config-Logged (some u) raw s =
      option-Logged (parse_config_id raw) _ _ (record { at = refl })
        (λ id.
          respond-Logged (lit "get_config") u.id id
            (λ row. write_json 200 (config_response (new_config_response row)))
            (enc.get_config_plaintext u.id id s) (λ a. refl))

  delete_config-Logged :
      (u : Option User) (raw : Bytes) (s : S) → Logged (handle_delete_config enc u raw s)
  unfolding handle_delete_config user_missing write_error
  delete_config-Logged none raw s = record { at = refl }
  delete_config-Logged (some u) raw s =
      option-Logged (parse_config_id raw) _ _ (record { at = refl })
        (λ id.
          respond-Logged (lit "delete_config") u.id id (λ _. write_json 204 no_content)
            (enc.delete_config u.id id s) (λ a. refl))

  create_within_quota-Logged :
      (meanwhile : S → S) (u : User) (name : Bytes) (r : Result ℕ × S)
      → Logged (create_within_quota enc meanwhile u name r)
  unfolding create_within_quota write_error
  create_within_quota-Logged meanwhile u name (err e, s) = record {
    at = store_error (lit "count_configs") u.id (pos 0) e;
  }
  create_within_quota-Logged meanwhile u name (ok n, s) =
      if_Logged (leb max_configs_per_user n) _ _ (record { at = refl })
        (respond-Logged (lit "create_config") u.id (pos 0)
          (λ row. write_json 201 (config_response (new_config_response row)))
          (enc.create_config_plaintext u.id
            (record { name = name; content = []; last_used_with_version = [] }) (meanwhile s))
          (λ a. refl))

  create_config-Logged :
      (meanwhile : S → S) (u : Option User) (r : Input CreateConfigRequest) (s : S)
      → Logged (handle_create_config enc meanwhile u r s)
  unfolding handle_create_config user_missing write_error
  create_config-Logged meanwhile none r s = record { at = refl }
  create_config-Logged meanwhile (some u) r s =
      option-Logged (decode_json r) _ _ (record { at = refl })
        (λ req.
          if_Logged (is_empty req.name) _ _ (record { at = refl })
            (create_within_quota-Logged meanwhile u req.name (enc.count_configs_by_user u.id s)))

  patch_checked-Logged :
      (u : User) (id : ℤ) (req : PatchConfigRequest) (s : S) → Logged (patch_checked enc u id req s)
  unfolding patch_checked write_error
  patch_checked-Logged u id req s =
      if_Logged (has_no_field enc req) _ _ (record { at = refl })
        (if_Logged (is_too_large enc req.content) _ _ (record { at = refl })
          (respond-Logged (lit "update_config") u.id id
            (λ row. write_json 200 (config_response (new_config_response row)))
            (enc.update_config_plaintext u.id id
              (record {
                name = req.name;
                content = req.content;
                last_used_with_version = req.last_used_with_version;
              })
              s)
            (λ a. refl)))

  patch_config-Logged :
      (u : Option User) (raw : Bytes) (r : Input PatchConfigRequest) (s : S)
      → Logged (handle_patch_config enc u raw r s)
  unfolding handle_patch_config user_missing write_error
  patch_config-Logged none raw r s = record { at = refl }
  patch_config-Logged (some u) raw r s =
      option-Logged (parse_config_id raw) _ _ (record { at = refl })
        (λ id.
          option-Logged (decode_json r) _ _ (record { at = refl })
            (λ req. patch_checked-Logged u id req s))

  get_user-Logged : (u : Option User) → IsErrorLogged (handle_get_user u)
  unfolding handle_get_user user_missing write_error
  get_user-Logged none = refl
  get_user-Logged (some u) = refl

  -- Over any implementation of EncryptedStore, each of the six handlers logs a line exactly if it
  -- answers with status 500.
  pub serve-IsErrorLogged :
      (meanwhile : S → S) (u : Option User) (r : Request) (s : S)
      → IsErrorLogged (serve enc meanwhile u r s).0
  unfolding serve
  serve-IsErrorLogged meanwhile u get_user s = get_user-Logged u
  serve-IsErrorLogged meanwhile u list_configs s = (list_configs-Logged u s).at
  serve-IsErrorLogged meanwhile u (get_config raw) s = (get_config-Logged u raw s).at
  serve-IsErrorLogged meanwhile u (delete_config raw) s = (delete_config-Logged u raw s).at
  serve-IsErrorLogged meanwhile u (create_config r) s = (create_config-Logged meanwhile u r s).at
  serve-IsErrorLogged meanwhile u (patch_config raw r) s = (patch_config-Logged u raw r s).at

-- A PATCH that is answered with 200 had a user, a valid id, a body with at least one field, and a
-- content of at most 2 MiB.
pub record WasAccepted (u : Option User) (raw : Bytes) (r : Input PatchConfigRequest) : Type 0 where
  pub user : is_some u ≡ true
  pub id : is_some (parse_config_id raw) ≡ true
  pub request : PatchConfigRequest
  pub decoded : decode_json r ≡ some request
  pub fields :
      (is_some request.name || is_some request.content || is_some request.last_used_with_version)
      ≡ true
  pub content : (c : Bytes) → request.content ≡ some c → length c ≤ 2097152

patched :
    {S : Type 0} (enc : EncryptedStore S) (u : User) (id : ℤ) (req : PatchConfigRequest) (s : S)
    → (patch_checked enc u id req s).0.status ≡ 200
    → (has_no_field enc req ≡ false) × (is_too_large enc req.content ≡ false)
unfolding patch_checked write_error
patched enc u id req s e = elim (Bool-cases (has_no_field enc req)) [
  | inl h ↦ absurd (ground (arith, h))
  | inr h ↦ elim (Bool-cases (is_too_large enc req.content)) [
    | inl k ↦ absurd (ground (arith, h, k))
    | inr k ↦ (h, k)
  ]
]

small_enough :
    {S : Type 0} (enc : EncryptedStore S) (o : Option Bytes) (c : Bytes)
    → is_too_large enc o ≡ false
    → o ≡ some c
    → length c ≤ 2097152
small_enough enc none c h e = absurd (ground arith)
small_enough enc (some d) c h e = ground arith

-- A PATCH that is answered with 200 had a user, a valid path id, and a body that decodes, with at
-- least one field and with a content of at most 2 MiB (if any).
pub handle_patch_config-ok :
    {S : Type 0} (enc : EncryptedStore S) (u : Option User) (raw : Bytes)
    (r : Input PatchConfigRequest) (s : S)
    → (handle_patch_config enc u raw r s).0.status ≡ 200
    → WasAccepted u raw r
unfolding handle_patch_config user_missing write_error
handle_patch_config-ok enc none raw r s e = absurd (omega arith)
handle_patch_config-ok enc (some u) raw r s e = elim (Option-cases (parse_config_id raw)) [
  | inl bad ↦ absurd (ground arith)
  | inr (id, parsed) ↦ elim (Option-cases (decode_json r)) [
    | inl bad ↦ absurd (ground arith)
    | inr (req, decoded) ↦
        let checks = patched enc u id req s (ground arith) in
        record {
          user = refl;
          id = ground arith;
          request = req;
          decoded = decoded;
          fields = ground arith;
          content = λ c same. small_enough enc req.content c checks.1 same;
        }
  ]
]
