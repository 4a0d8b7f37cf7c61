-- ===== src/Migrations/Runner.antt =====
-- What a run of the migrations leaves: applyMigrations of internal/store/sqlite/migrations.go.
use tabby_sync.Common.{
  ℕ, ◌+◌, Bytes, Bool, List, [], ◌∷◌, ◌++◌, map, filter, ◌≡◌, refl, sym, ap, ◌∙◌, arith, ◌⊎◌, inl,
  inr, Bool-cases, Option,
}
use tabby_sync.Store.{Result, Result-cases, ok, err, Error, internal}
use tabby_sync.Migrations.{
  Migration, Schema, split_sql_statements, is_applied, run_statements, rolled_back, apply_migration,
  apply_pending, apply_migrations, load_migrations, DirEntry,
}
use mathlib.Core.Path.{subst}
use mathlib.Core.List.{append-nil, append_assoc}
use tabby_sync.Migrations.Pending.{
  pending, versions, AllApplied-pending, pending-none, nothing_done,
}

-- The statements of the migrations, in order.
unfoldable pub statements : List Migration → List Bytes
statements [] = []
statements (m ∷ ms) = split_sql_statements m.sql ++ statements ms

-- From `a` to `b`, exactly the migrations `ms` were applied and recorded, in order.
pub record Extends (a b : Schema) (ms : List Migration) : Type 0 where
  pub applied : b.applied ≡ a.applied ++ map (λ m. m.version) ms
  pub executed : b.executed ≡ a.executed ++ statements ms

Extends-nil : (a b : Schema) → a.applied ≡ b.applied → a.executed ≡ b.executed → Extends a b []
unfolding statements
Extends-nil a b p q = record {
  applied = sym p ∙ sym (append-nil a.applied);
  executed = sym q ∙ sym (append-nil a.executed);
}

Extends-cons :
    (a b c : Schema) (m : Migration) (ms : List Migration)
    → b.applied ≡ a.applied ++ m.version ∷ []
    → b.executed ≡ a.executed ++ split_sql_statements m.sql
    → Extends b c ms
    → Extends a c (m ∷ ms)
unfolding statements
Extends-cons a b c m ms p q e = record {
  applied =
      e.applied
      ∙ ap (λ l. l ++ map (λ m. m.version) ms) p
      ∙ append_assoc a.applied (m.version ∷ []) (map (λ m. m.version) ms);
  executed =
      e.executed
      ∙ ap (λ l. l ++ statements ms) q
      ∙ append_assoc a.executed (split_sql_statements m.sql) (statements ms);
}

module _ (faulty : ℕ → Bool) where
  -- A transaction that succeeds has executed all statements and recorded the version.
  run_statements-ok :
      (v : ℕ) (stmts : List Bytes) (s : Schema)
      → (run_statements faulty v stmts s).0 ≡ ok tt
      → ((run_statements faulty v stmts s).1.applied ≡ s.applied ++ v ∷ [])
        × ((run_statements faulty v stmts s).1.executed ≡ s.executed ++ stmts)
  unfolding run_statements
  run_statements-ok v [] s h = (ground arith, ground (arith, append-nil s.executed))
  run_statements-ok v (stmt ∷ stmts) s h =
      let next : Schema = record s { executed = s.executed ++ stmt ∷ []; calls = s.calls + 1 } in
      let whole = append_assoc s.executed (stmt ∷ []) stmts in
      (
        ground (arith, run_statements-ok v stmts next),
        ground (arith, run_statements-ok v stmts next, whole),
      )

  -- A migration is applied and recorded as a whole, or leaves the tables.
  apply_migration-cases :
      (m : Migration) (s : Schema)
      → (((apply_migration faulty m s).0 ≡ ok tt)
          × ((apply_migration faulty m s).1.applied ≡ s.applied ++ m.version ∷ [])
          × ((apply_migration faulty m s).1.executed ≡ s.executed ++ split_sql_statements m.sql))
        ⊎ ((e : Error) × ((apply_migration faulty m s).0 ≡ err e)
            × ((apply_migration faulty m s).1.applied ≡ s.applied)
            × ((apply_migration faulty m s).1.executed ≡ s.executed))
  unfolding apply_migration rolled_back
  apply_migration-cases m s = elim (Bool-cases (faulty s.calls)) [
    | inl down ↦ inr (internal, ground (arith, down), ground (arith, down), ground (arith, down))
    | inr up ↦
        let begun = record s { calls = s.calls + 1 } in
        elim (Result-cases (run_statements faulty m.version (split_sql_statements m.sql) begun).0) [
          | inl (a, fine) ↦
              let (p, q) = run_statements-ok m.version (split_sql_statements m.sql) begun fine in
              inl
                (ground (arith, up, fine), ground (arith, up, fine, p), ground (arith, up, fine, q))
          | inr (e, failed) ↦ inr (
            e,
            ground (arith, up, failed),
            ground (arith, up, failed),
            ground (arith, up, failed),
          )
        ]
  ]

-- Of the migrations `ms` a first part was applied: all of them, or there is an error.
pub record Progress (ms : List Migration) (r : Result (Unit {0})) (a b : Schema) : Type 0 where
  pub done : List Migration
  pub left : List Migration
  pub parts : ms ≡ done ++ left
  pub extends : Extends a b done
  pub ended : ((r ≡ ok tt) × (left ≡ [])) ⊎ ((e : Error) × (r ≡ err e))

module _ (faulty : ℕ → Bool) where
  failed-Progress :
      (ms : List Migration) (e : Error) (r : Result (Unit {0})) (a b : Schema)
      → r ≡ err e
      → b.applied ≡ a.applied
      → b.executed ≡ a.executed
      → Progress ms r a b
  failed-Progress ms e r a b h p q = record {
    done = [];
    left = ms;
    parts = refl;
    extends = Extends-nil a b (sym p) (sym q);
    ended = inr (e, h);
  }

  apply_pending-Progress :
      (applied : List ℕ) (ms : List Migration) (s : Schema)
      → Progress
          (pending applied ms)
          (apply_pending faulty applied ms s).0
          s
          (apply_pending faulty applied ms s).1
  unfolding apply_pending pending filter
  apply_pending-Progress applied [] s = record {
    done = [];
    left = [];
    parts = refl;
    extends = Extends-nil s s refl refl;
    ended = inl (refl, refl);
  }
  apply_pending-Progress applied (m ∷ ms) s = elim (Bool-cases (is_applied m.version applied)) [
    | inl old ↦ rw old (apply_pending-Progress applied ms s)
    | inr new ↦ elim (apply_migration-cases faulty m s) [
      | inl (fine, p, q) ↦
          let next = (apply_migration faulty m s).1 in
          let rest = apply_pending-Progress applied ms next in
          rw (new, fine)
            (record {
              done = m ∷ rest.done;
              left = rest.left;
              parts = ap (λ l. m ∷ l) rest.parts;
              extends =
                  Extends-cons s next (apply_pending faulty applied ms next).1 m rest.done p q
                    rest.extends;
              ended = rest.ended;
            })
      | inr (e, failed, p, q) ↦
          rw (new, failed) (failed-Progress _ e (err e) s (apply_migration faulty m s).1 refl p q)
    ]
  ]

  -- The number of driver calls does not matter.
  recalled :
      (ms : List Migration) (r : Result (Unit {0})) (s b : Schema) (n : ℕ)
      → Progress ms r (record s { calls = n }) b
      → Progress ms r s b
  recalled ms r s b n h = record {
    done = h.done;
    left = h.left;
    parts = h.parts;
    extends = record { applied = h.extends.applied; executed = h.extends.executed };
    ended = h.ended;
  }

  begun :
      (files : Option (List DirEntry)) (migs : List Migration) (s : Schema)
      → load_migrations files ≡ ok migs
      → ((e : Error) × (n : ℕ) × (apply_migrations faulty files s
            ≡ (err e, record s { calls = n })))
        ⊎ ((n : ℕ) × (apply_migrations faulty files s
              ≡ apply_pending faulty s.applied migs (record s { calls = n })))
  unfolding apply_migrations
  begun files migs s loaded = elim (Bool-cases (faulty s.calls)) [
    | inl down ↦ inl (internal, s.calls + 1, ground (arith, loaded, down))
    | inr up ↦ elim (Bool-cases (faulty (s.calls + 1))) [
      | inl down ↦ inl (internal, s.calls + 1 + 1, ground (arith, loaded, up, down))
      | inr fine ↦ inr (s.calls + 1 + 1, ground (arith, loaded, up, fine))
    ]
  ]

  -- If the files load, applyMigrations applies and records a first part of the migrations that were
  -- not recorded yet, each as a whole and in order of their versions, whichever driver calls fail:
  -- all of them if it succeeds, and otherwise it returns an error.
  pub apply_migrations-Progress :
      (files : Option (List DirEntry)) (migs : List Migration) (s : Schema)
      → load_migrations files ≡ ok migs
      → Progress
          (pending s.applied migs)
          (apply_migrations faulty files s).0
          s
          (apply_migrations faulty files s).1
  apply_migrations-Progress files migs s loaded = elim (begun files migs s loaded) [
    | inl (e, n, run) ↦
        subst (λ r. Progress (pending s.applied migs) r.0 s r.1) (sym run)
          (failed-Progress _ e (err e) s (record s { calls = n }) refl refl refl)
    | inr (n, run) ↦
        subst (λ r. Progress (pending s.applied migs) r.0 s r.1) (sym run)
          (recalled _ _ s _ n (apply_pending-Progress s.applied migs (record s { calls = n })))
  ]

-- If the files load and applyMigrations succeeded, another run on the database that it left
-- executes no statement and records no version, whichever driver calls fail then.
pub apply_migrations-again :
    (faulty later : ℕ → Bool) (files : Option (List DirEntry)) (migs : List Migration) (s : Schema)
    → load_migrations files ≡ ok migs
    → (apply_migrations faulty files s).0 ≡ ok tt
    → let after = (apply_migrations faulty files s).1 in
      ((apply_migrations later files after).1.applied ≡ after.applied)
      × ((apply_migrations later files after).1.executed ≡ after.executed)
apply_migrations-again faulty later files migs s loaded fine =
    let after = (apply_migrations faulty files s).1 in
    let first = apply_migrations-Progress faulty files migs s loaded in
    let second = apply_migrations-Progress later files migs after loaded in
    let whole : first.done ≡ pending s.applied migs = elim first.ended [
      | inl (h, none_left) ↦
          sym (append-nil first.done) ∙ ap (λ l. first.done ++ l) (sym none_left) ∙ sym first.parts
      | inr (e, h) ↦ absurd (ground (arith, fine, h))
    ] in
    let all_applied : pending after.applied migs ≡ [] =
      ap (λ l. pending l migs) (first.extends.applied ∙ ap (λ ms. s.applied ++ versions ms) whole)
      ∙ pending-none _ migs (AllApplied-pending s.applied migs) in
    let idle = nothing_done second.done second.left (sym all_applied ∙ second.parts) in
    (
      second.extends.applied
          ∙ ap (λ ms. after.applied ++ versions ms) idle
          ∙ append-nil after.applied,
      second.extends.executed
          ∙ ap (λ ms. after.executed ++ statements ms) idle
          ∙ (unfold statements in append-nil after.executed),
    )
