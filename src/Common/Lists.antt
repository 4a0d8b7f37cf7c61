-- ===== src/Common/Lists.antt =====
-- Lists measured by native numbers, Boolean filters and predicates by recursion.
use Prim.Native.Nat.{ℕ, zero, suc, ◌+◌}
use mathlib.Core.Path.{◌≡◌, refl}
use mathlib.Core.Bool.{Bool, true, false, ◌&&◌}
use mathlib.Core.Option.{Option, none, some}
use mathlib.Core.List.{List, [], ◌∷◌, ◌++◌}
use native.Mathlib.Omega.{arith}
use tabby_sync.Common.Tests.{if◌then◌else◌}

module _ {ℓ} {A : Type ℓ} where
  abbrev pub length : List A → ℕ
  length [] = 0
  length (x ∷ xs) = suc (length xs)

  -- The elements that pass a Boolean test, in order.
  unfoldable pub filter : (A → Bool) → List A → List A
  filter p [] = []
  filter p (x ∷ xs) = let rest = filter p xs in if p x then x ∷ rest else rest

  unfoldable pub find? : (A → Bool) → List A → Option A
  find? p [] = none
  find? p (x ∷ xs) = let rest = find? p xs in if p x then some x else rest

  unfoldable pub all : (A → Bool) → List A → Bool
  all p [] = true
  all p (x ∷ xs) = p x && all p xs

  pub length-append : (xs ys : List A) → length (xs ++ ys) ≡ length xs + length ys
  length-append [] ys = omega arith
  length-append (x ∷ xs) ys = omega (arith, length-append xs ys)

  pub filter-append :
      (p : A → Bool) (xs ys : List A) → filter p (xs ++ ys) ≡ filter p xs ++ filter p ys
  unfolding filter
  filter-append p [] ys = refl
  filter-append p (x ∷ xs) ys = ground (arith, filter-append p xs ys)

  -- One more element that fails the test.
  pub filter-snoc :
      (p : A → Bool) (xs : List A) (x : A) → p x ≡ false → filter p xs ≡ filter p (xs ++ x ∷ [])
  unfolding filter
  filter-snoc p [] x h = ground arith
  filter-snoc p (y ∷ xs) x h = ground (arith, filter-snoc p xs x h)

abbrev pub All {ℓ κ} : {A : Type ℓ} → (A → Type κ) → List A → Type κ
All P [] = Unit
All P (x ∷ xs) = P x × All P xs

pub All-append {ℓ κ} :
    {A : Type ℓ} (P : A → Type κ) (xs ys : List A) → All P xs → All P ys → All P (xs ++ ys)
All-append P [] ys h k = k
All-append P (x ∷ xs) ys (p, h) k = (p, All-append P xs ys h k)

module _ {ℓ} {A : Type ℓ} where
  abbrev pub drop : ℕ → List A → List A
  drop zero xs = xs
  drop (suc n) [] = []
  drop (suc n) (x ∷ xs) = drop n xs

  abbrev pub take : ℕ → List A → List A
  take zero xs = []
  take (suc n) [] = []
  take (suc n) (x ∷ xs) = x ∷ take n xs

  -- Two concatenations are equal part by part, if the first parts are of one length.
  pub append-injective :
      (xs ys xs' ys' : List A)
      → length xs ≡ length ys
      → xs ++ xs' ≡ ys ++ ys'
      → (xs ≡ ys) × (xs' ≡ ys')
  append-injective [] [] xs' ys' l e = (refl, e)
  append-injective [] (y ∷ ys) xs' ys' l e = absurd (omega arith)
  append-injective (x ∷ xs) [] xs' ys' l e = absurd (omega arith)
  append-injective (x ∷ xs) (y ∷ ys) xs' ys' l e =
      let (p, q) = append-injective xs ys xs' ys' (omega arith) (cc) in (cc, q)
