-- ===== src/Common/Decimal.antt =====
-- Decimal texts: what `%d` and strconv print, and the value of a text of digits.
use Prim.Native.Nat.{ℕ, zero, suc, ◌+◌, ◌-◌, ◌*◌, ◌/◌, ◌%◌, ◌<◌, ◌≤◌}
use mathlib.Core.Path.{◌≡◌, refl, ap, sym, subst}
use mathlib.Core.Logic.{inl, inr, ◌≢◌}
use mathlib.Core.List.{[], ◌∷◌, ◌++◌}
use native.Mathlib.Omega.{arith}
use tabby_sync.Common.Tests.{ltb, if◌then◌else◌, Bool-cases}
use tabby_sync.Common.Int.{ℤ, pos, negsuc}
use tabby_sync.Common.ByteStrings.{Bytes}
use tabby_sync.Common.Lists.{All, All-append, drop}

-- The digits of n, on fuel; `suc n` suffices.
digits_from : ℕ → ℕ → Bytes
digits_from zero n = []
digits_from (suc f) n =
    let front = digits_from f (n / 10) in
    if ltb n 10 then (48 + n) ∷ [] else front ++ (48 + n % 10) ∷ []

unfoldable pub print_ℕ : ℕ → Bytes
unfolding digits_from
print_ℕ n = digits_from (suc n) n

-- A minus sign for a negative number: `negsuc n` is -(n + 1).
unfoldable pub print_ℤ : ℤ → Bytes
unfolding print_ℕ
print_ℤ (pos n) = print_ℕ n
print_ℤ (negsuc n) = b'-' ∷ print_ℕ (suc n)

-- The number that a text of digits denotes.
pub value : ℕ → Bytes → ℕ
value acc [] = acc
value acc (c ∷ s) = value (acc * 10 + (c - 48)) s

value-snoc : (acc : ℕ) (s : Bytes) (c : ℕ) → value acc (s ++ c ∷ []) ≡ value acc s * 10 + (c - 48)
unfolding value
value-snoc acc [] c = refl
value-snoc acc (d ∷ s) c = value-snoc (acc * 10 + (d - 48)) s c

value-digits_from : (f n : ℕ) → n < f → value 0 (digits_from f n) ≡ n
unfolding digits_from
value-digits_from zero n h = absurd (omega arith)
value-digits_from (suc f) n h = elim (Bool-cases (ltb n 10)) [
  | inl small ↦ rw small (unfold value in omega arith)
  | inr big ↦
      rw (big, value-snoc 0 (digits_from f (n / 10)) (48 + n % 10))
        (omega (arith, value-digits_from f (n / 10) (ground arith)))
]

-- The fuel is enough: the printed text denotes the number.
pub value-print_ℕ : (n : ℕ) → value 0 (print_ℕ n) ≡ n
unfolding print_ℕ
value-print_ℕ n = value-digits_from (suc n) n (omega arith)

IsDigits : Bytes → Type 0
IsDigits s = All (λ c. 48 ≤ c) s

digits_from-IsDigits : (f n : ℕ) → IsDigits (digits_from f n)
unfolding digits_from IsDigits
digits_from-IsDigits zero n = tt
digits_from-IsDigits (suc f) n = elim (Bool-cases (ltb n 10)) [
  | inl small ↦ rw small (omega arith, tt)
  | inr big ↦ rw big (
      All-append (λ c. 48 ≤ c) (digits_from f (n / 10)) _ (digits_from-IsDigits f (n / 10))
        (omega arith, tt))
]

signed : (m n : ℕ) → print_ℤ (pos m) ≢ print_ℤ (negsuc n)
unfolding print_ℤ IsDigits
signed m n e = omega (arith, (subst IsDigits e (digits_from-IsDigits (suc m) m)).0)

-- Different integers print differently.
pub print_ℤ-injective : (a b : ℤ) → print_ℤ a ≡ print_ℤ b → a ≡ b
unfolding print_ℤ
print_ℤ-injective (pos m) (pos n) e =
    ap pos (omega (arith, value-print_ℕ m, value-print_ℕ n, ap (value 0) e))
print_ℤ-injective (pos m) (negsuc n) e = absurd (signed m n e)
print_ℤ-injective (negsuc m) (pos n) e = absurd (signed n m (sym e))
print_ℤ-injective (negsuc m) (negsuc n) e =
    ap negsuc
      (omega (arith, value-print_ℕ (suc m), value-print_ℕ (suc n), ap (value 0) (ap (drop 1) e)))

-- A text of decimal digits, not empty.
abbrev pub AreDigits : Bytes → Type 0
AreDigits s = All (λ c. (48 ≤ c) × (c ≤ 57)) s

digits_from-AreDigits : (f n : ℕ) → AreDigits (digits_from f n)
unfolding digits_from
digits_from-AreDigits zero n = tt
digits_from-AreDigits (suc f) n = elim (Bool-cases (ltb n 10)) [
  | inl small ↦ rw small ((omega arith, ground arith), tt)
  | inr big ↦ rw big (
      All-append (λ c. (48 ≤ c) × (c ≤ 57)) (digits_from f (n / 10)) _
        (digits_from-AreDigits f (n / 10)) ((omega arith, omega arith), tt))
]

pub print_ℕ-AreDigits : (n : ℕ) → AreDigits (print_ℕ n)
unfolding print_ℕ
print_ℕ-AreDigits n = digits_from-AreDigits (suc n) n

snoc-cons : (s : Bytes) (c : ℕ) → (d : ℕ) × (t : Bytes) × (s ++ c ∷ [] ≡ d ∷ t)
snoc-cons [] c = (c, [], refl)
snoc-cons (d ∷ s) c = (d, s ++ c ∷ [], refl)

pub print_ℕ-cons : (n : ℕ) → (d : ℕ) × (t : Bytes) × (print_ℕ n ≡ d ∷ t)
unfolding print_ℕ digits_from
print_ℕ-cons n = elim (Bool-cases (ltb n 10)) [
  | inl small ↦ (48 + n, [], rw small refl)
  | inr big ↦ rw big (snoc-cons (digits_from n (n / 10)) (48 + n % 10))
]
