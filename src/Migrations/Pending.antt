-- ===== src/Migrations/Pending.antt =====
-- The migrations of applyMigrations (internal/store/sqlite/migrations.go) that are not yet recorded.
use tabby_sync.Common.{
  ℕ, true, false, not, ◌||◌, List, [], ◌∷◌, ◌++◌, map, filter, All, ◌≡◌, refl, sym, arith, inl, inr,
  Bool-cases, ==_iff,
}
use tabby_sync.Migrations.{Migration, is_applied}
use mathlib.Core.Path.{subst}

-- The migrations that are not yet recorded.
unfoldable pub pending : List ℕ → List Migration → List Migration
pending applied ms = filter (λ m. not (is_applied m.version applied)) ms

is_applied-++ :
    (v : ℕ) (xs ys : List ℕ) → is_applied v (xs ++ ys) ≡ (is_applied v xs || is_applied v ys)
unfolding is_applied
is_applied-++ v [] ys = refl
is_applied-++ v (x ∷ xs) ys = ground (arith, is_applied-++ v xs ys)

abbrev pub versions : List Migration → List ℕ
versions ms = map (λ m. m.version) ms

pub AllApplied : List ℕ → List Migration → Type 0
AllApplied l ms = All (λ m. is_applied m.version l ≡ true) ms

AllApplied-more :
    (xs ys : List ℕ) (v : ℕ) (ms : List Migration)
    → AllApplied (xs ++ ys) ms
    → AllApplied (xs ++ v ∷ ys) ms
unfolding AllApplied is_applied
AllApplied-more xs ys v [] h = tt
AllApplied-more xs ys v (m ∷ ms) (h, hs) = (
  ground (arith, is_applied-++ m.version xs ys, is_applied-++ m.version xs (v ∷ ys)),
  AllApplied-more xs ys v ms hs,
)

pending-old :
    (applied : List ℕ) (m : Migration) (ms : List Migration)
    → is_applied m.version applied ≡ true
    → pending applied (m ∷ ms) ≡ pending applied ms
unfolding pending filter
pending-old applied m ms old = ground (arith, old)

pending-new :
    (applied : List ℕ) (m : Migration) (ms : List Migration)
    → is_applied m.version applied ≡ false
    → pending applied (m ∷ ms) ≡ m ∷ pending applied ms
unfolding pending filter
pending-new applied m ms new = ground (arith, new)

pub AllApplied-pending :
    (applied : List ℕ) (ms : List Migration)
    → AllApplied (applied ++ versions (pending applied ms)) ms
unfolding AllApplied is_applied
AllApplied-pending applied [] = tt
AllApplied-pending applied (m ∷ ms) =
    let rest = AllApplied-pending applied ms in
    let l = versions (pending applied ms) in
    elim (Bool-cases (is_applied m.version applied)) [
      | inl old ↦
          subst (λ k. AllApplied (applied ++ versions k) (m ∷ ms))
            (sym (pending-old applied m ms old))
            (ground (arith, old, is_applied-++ m.version applied l), rest)
      | inr new ↦
          subst (λ k. AllApplied (applied ++ versions k) (m ∷ ms))
            (sym (pending-new applied m ms new))
            (
              ground (
                arith,
                ==_iff m.version m.version,
                is_applied-++ m.version applied (m.version ∷ l),
              ),
              AllApplied-more applied l m.version ms rest,
            )
    ]

pub pending-none : (l : List ℕ) (ms : List Migration) → AllApplied l ms → pending l ms ≡ []
unfolding AllApplied pending filter
pending-none l [] h = refl
pending-none l (m ∷ ms) (h, hs) = ground (arith, pending-none l ms hs)

pub nothing_done : (done left : List Migration) → [] ≡ done ++ left → done ≡ []
nothing_done [] left e = refl
nothing_done (m ∷ done) left e = absurd (ground arith)
