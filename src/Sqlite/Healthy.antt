-- ===== src/Sqlite/Healthy.antt =====
-- An operation of internal/store/sqlite/sqlite.go that succeeds has run as if no driver call failed.
use tabby_sync.Common.{ℤ, Option, none, some, ◌≡◌, refl, ap, ◌∙◌, arith}
use tabby_sync.Store.{Time, CreateConfigInput, Result, ok, err}
use tabby_sync.Sqlite.Driver.{Env, Db, M, ◌>>=◌, healthy, call, now_fn, rollback}
use tabby_sync.Sqlite.{
  create_in_tx, create_reserved, create_config_with_id, with_rollback, next_modified_at,
}

-- Where the first action succeeds, the second one does the same.
pub record Agrees {A : Type 0} (m m' : M A) : Type 0 where
  pub at : (db : Db) (a : A) → (m db).0 ≡ ok a → m db ≡ m' db

Agrees-same : {A : Type 0} (m : M A) → Agrees m m
Agrees-same m = record { at = λ db a e. refl }

bind-Agrees :
    {A B : Type 0} (r r' : Result A × Db) (f f' : A → M B)
    → ((a : A) → r.0 ≡ ok a → r ≡ r')
    → ((a : A) → Agrees (f a) (f' a))
    → (b : B)
    → (elim r.0 as (λ _. Result B × Db) [ ok a ↦ f a r.1 | err e ↦ (err e, r.1) ]).0 ≡ ok b
    → (elim r.0 as (λ _. Result B × Db) [ ok a ↦ f a r.1 | err e ↦ (err e, r.1) ])
      ≡ (elim r'.0 as (λ _. Result B × Db) [ ok a ↦ f' a r'.1 | err e ↦ (err e, r'.1) ])
bind-Agrees {B = B} (ok a, db) r' f f' h k b e =
    (k a).at db b e
    ∙ ap (λ r. elim r.0 as (λ _. Result B × Db) [ ok a ↦ f' a r.1 | err e ↦ (err e, r.1) ])
        (h a refl)
bind-Agrees (err x, db) r' f f' h k b e = absurd (cc)

Agrees-bind :
    {A B : Type 0} (m m' : M A) (f f' : A → M B)
    → Agrees m m'
    → ((a : A) → Agrees (f a) (f' a))
    → Agrees (m >>= f) (m' >>= f')
Agrees-bind m m' f f' h k = record {
  at = λ db b e. bind-Agrees (m db) (m' db) f f' (h.at db) k b e;
}

module _ (env : Env) where
  Agrees-call : Agrees (call env) (call (healthy env.now))
  unfolding call
  Agrees-call = record { at = λ db a e. ground arith }

  Agrees-now_fn : Agrees (now_fn env) (now_fn (healthy env.now))
  unfolding now_fn
  Agrees-now_fn = record { at = λ db a e. refl }

  Agrees-next_modified_at :
      (old : Time) → Agrees (next_modified_at env old) (next_modified_at (healthy env.now) old)
  unfolding next_modified_at
  Agrees-next_modified_at old = search (Agrees-bind, Agrees-now_fn, Agrees-same)

  module _ (u : ℤ) (build : ℤ → Result CreateConfigInput) where
    Agrees-create_reserved :
        (created : Time) (id : ℤ)
        → Agrees
            (create_reserved env u build created id)
            (create_reserved (healthy env.now) u build created id)
    unfolding create_reserved
    Agrees-create_reserved created id =
        search (Agrees-bind, Agrees-call, Agrees-next_modified_at, Agrees-same) depth 40

    Agrees-create_in_tx : Agrees (create_in_tx env u build) (create_in_tx (healthy env.now) u build)
    unfolding create_in_tx
    Agrees-create_in_tx =
        search (Agrees-bind, Agrees-call, Agrees-now_fn, Agrees-create_reserved, Agrees-same) depth
          20

  rollback-Agrees :
      {A : Type 0} (start : Db) (r r' : Result A × Db)
      → ((a : A) → r.0 ≡ ok a → r ≡ r')
      → (a : A)
      → (elim r.0 as (λ _. Result A × Db) [ ok a ↦ r | err e ↦ (err e, rollback start r.1) ]).0
        ≡ ok a
      → (elim r.0 as (λ _. Result A × Db) [ ok a ↦ r | err e ↦ (err e, rollback start r.1) ])
        ≡ (elim r'.0 as (λ _. Result A × Db) [ ok a ↦ r' | err e ↦ (err e, rollback start r'.1) ])
  rollback-Agrees {A = A} start (ok b, db) r' h a e =
      ap (λ r. elim r.0 as (λ _. Result A × Db) [ ok a ↦ r | err e ↦ (err e, rollback start r.1) ])
        (h b refl)
  rollback-Agrees start (err x, db) r' h a e = absurd (cc)

  Agrees-with_rollback :
      {A : Type 0} (m m' : M A) → Agrees m m' → Agrees (with_rollback m) (with_rollback m')
  unfolding with_rollback
  Agrees-with_rollback m m' h = record {
    at = λ db a e. rollback-Agrees db (m db) (m' db) (h.at db) a e;
  }

  -- What CreateConfigWithID does when it succeeds.
  pub Agrees-create_config_with_id :
      (u : ℤ) (build : Option (ℤ → Result CreateConfigInput))
      → Agrees (create_config_with_id env u build) (create_config_with_id (healthy env.now) u build)
  unfolding create_config_with_id
  Agrees-create_config_with_id u none = Agrees-same (create_config_with_id env u none)
  Agrees-create_config_with_id u (some build) =
      search (Agrees-bind, Agrees-call, Agrees-with_rollback, Agrees-create_in_tx)
