-- ===== src/Config/Loading.antt =====
-- What Load of internal/config/config.go accepts.
use tabby_sync.Common.{
  sym, Bytes, lit, bytes_eq, bytes_eq_iff, is_empty, true, false, ◌≡◌, refl, arith, ◌⊎◌, inl, inr,
  ◌↔◌, Bool-cases,
}
use mathlib.Core.Path.{subst}
use tabby_sync.Config.{
  resolve, validate, Settings, settings, load, contains, allowed_master_key_providers,
  allowed_log_levels,
}

-- Settings that the server can start with.
pub record IsUsable (c : Settings) : Type 0 where
  pub addr : is_empty c.addr ≡ false
  pub data_dir : is_empty c.data_dir ≡ false
  pub users_file : is_empty c.users_file ≡ false
  pub provider : (c.master_key_provider ≡ lit "env") ⊎ (c.master_key_provider ≡ lit "file")
  pub log_level :
      (c.log_level ≡ lit "error")
      ⊎ ((c.log_level ≡ lit "warn") ⊎ ((c.log_level ≡ lit "info") ⊎ (c.log_level ≡ lit "debug")))

provider_cases :
    (s : Bytes)
    → contains allowed_master_key_providers s ≡ true
    → (s ≡ lit "env") ⊎ (s ≡ lit "file")
unfolding contains
provider_cases s h = elim (Bool-cases (bytes_eq (lit "env") s)) [
  | inl hit ↦ inl (ground (arith, bytes_eq_iff (lit "env") s))
  | inr miss ↦ inr (ground (arith, miss, bytes_eq_iff (lit "file") s))
]

level_cases :
    (s : Bytes)
    → contains allowed_log_levels s ≡ true
    → (s ≡ lit "error") ⊎ ((s ≡ lit "warn") ⊎ ((s ≡ lit "info") ⊎ (s ≡ lit "debug")))
unfolding contains
level_cases s h = elim (Bool-cases (bytes_eq (lit "error") s)) [
  | inl hit ↦ inl (ground (arith, bytes_eq_iff (lit "error") s))
  | inr m1 ↦ elim (Bool-cases (bytes_eq (lit "warn") s)) [
    | inl hit ↦ inr (inl (ground (arith, bytes_eq_iff (lit "warn") s)))
    | inr m2 ↦ elim (Bool-cases (bytes_eq (lit "info") s)) [
      | inl hit ↦ inr (inr (inl (ground (arith, bytes_eq_iff (lit "info") s))))
      | inr m3 ↦ inr (inr (inr (ground (arith, m1, m2, m3, bytes_eq_iff (lit "debug") s))))
    ]
  ]
]

validated :
    (cfg c : Settings)
    → validate cfg ≡ settings c
    → (cfg ≡ c)
      × (is_empty cfg.data_dir ≡ false)
      × (is_empty cfg.users_file ≡ false)
      × (contains allowed_master_key_providers cfg.master_key_provider ≡ true)
      × (contains allowed_log_levels cfg.log_level ≡ true)
unfolding validate
validated cfg c h = (ground arith, ground arith, ground arith, ground arith, ground arith)

addr_given : (getenv : Bytes → Bytes) → is_empty (resolve getenv).addr ≡ false
unfolding resolve lit
addr_given getenv = ground arith

provider_known :
    (s : Bytes)
    → (s ≡ lit "env") ⊎ (s ≡ lit "file")
    → (contains allowed_master_key_providers s ≡ true) × (is_empty s ≡ false)
unfolding contains bytes_eq lit
provider_known s (inl e) =
    subst (λ t. (contains allowed_master_key_providers t ≡ true) × (is_empty t ≡ false)) (sym e)
      (refl, refl)
provider_known s (inr e) =
    subst (λ t. (contains allowed_master_key_providers t ≡ true) × (is_empty t ≡ false)) (sym e)
      (refl, refl)

level_known :
    (s : Bytes)
    → (s ≡ lit "error") ⊎ ((s ≡ lit "warn") ⊎ ((s ≡ lit "info") ⊎ (s ≡ lit "debug")))
    → contains allowed_log_levels s ≡ true
unfolding contains bytes_eq lit
level_known s (inl e) = subst (λ t. contains allowed_log_levels t ≡ true) (sym e) refl
level_known s (inr (inl e)) = subst (λ t. contains allowed_log_levels t ≡ true) (sym e) refl
level_known s (inr (inr (inl e))) = subst (λ t. contains allowed_log_levels t ≡ true) (sym e) refl
level_known s (inr (inr (inr e))) = subst (λ t. contains allowed_log_levels t ≡ true) (sym e) refl

usable : (c : Settings) → IsUsable c → validate c ≡ settings c
unfolding validate
usable c u =
    let (known, given) = provider_known c.master_key_provider u.provider in
    ground (arith, u.data_dir, u.users_file, known, given, level_known c.log_level u.log_level)

accepted :
    (getenv : Bytes → Bytes) (c : Settings)
    → load getenv ≡ settings c
    → (c ≡ resolve getenv) × IsUsable c
unfolding load
accepted getenv c h =
    let (same, dir, users, provider, level) = validated (resolve getenv) c h in
    (
      sym same,
      subst IsUsable same (record {
        addr = addr_given getenv;
        data_dir = dir;
        users_file = users;
        provider = provider_cases (resolve getenv).master_key_provider provider;
        log_level = level_cases (resolve getenv).log_level level;
      }),
    )

-- Load accepts an environment with some settings exactly if they are the resolved variables (with
-- the defaults), the data directory and the users file are set, the provider is env or file, and
-- the log level is error, warn, info or debug; the address is then set too.
pub load_iff :
    (getenv : Bytes → Bytes) (c : Settings)
    → (load getenv ≡ settings c) ↔ ((c ≡ resolve getenv) × IsUsable c)
unfolding load
load_iff getenv c =
    (accepted getenv c, λ h. subst (λ d. validate d ≡ settings c) h.0 (usable c h.1))
