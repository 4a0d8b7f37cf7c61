-- ===== src/Api/PathId.antt =====
-- The {id} of a path: parseConfigID of internal/api/handlers.go.
use tabby_sync.Common.{
  ℕ, suc, ◌^◌, ◌<◌, ◌==◌, ℤ, pos, negsuc, Bytes, true, Option, none, some, [], ◌∷◌, ◌≡◌, refl,
  arith, all, value, print_ℕ, value-print_ℕ, print_ℕ-AreDigits, AreDigits, print_ℕ-cons, Bool-cases,
  inl, inr, ◌∙◌, ap, sym, zero,
}
use tabby_sync.Api.{is_digit, parse_magnitude, parse_int, parse_config_id, positive, negative}
use mathlib.Core.Path.{subst}

all-is_digit : (s : Bytes) → AreDigits s → all is_digit s ≡ true
unfolding all is_digit
all-is_digit [] h = refl
all-is_digit (c ∷ s) ((lo, hi), h) = ground (arith, all-is_digit s h)

parse_magnitude-digits :
    (c : ℕ) (s : Bytes) → AreDigits (c ∷ s) → parse_magnitude (c ∷ s) ≡ some (value 0 (c ∷ s))
unfolding parse_magnitude
parse_magnitude-digits c s h = ground (arith, all-is_digit (c ∷ s) h)

parse_int-digits :
    (c : ℕ) (s : Bytes) → AreDigits (c ∷ s) → parse_int (c ∷ s) ≡ positive (some (value 0 (c ∷ s)))
unfolding parse_int
parse_int-digits c s h = let (low, high) = h.0 in ground (arith, parse_magnitude-digits c s h)

parse_config_id-digits :
    (n c : ℕ) (s : Bytes)
    → 0 < n
    → n < 2 ^ 63
    → AreDigits (c ∷ s)
    → value 0 (c ∷ s) ≡ n
    → parse_config_id (c ∷ s) ≡ some (pos n)
unfolding parse_config_id
parse_config_id-digits n c s lo hi digits number = ground (arith, parse_int-digits c s digits)

-- The decimal text of every number from 1 to 2^63 - 1 is parsed as that id.
pub parse_config_id-print_ℕ :
    (n : ℕ) → 0 < n → n < 2 ^ 63 → parse_config_id (print_ℕ n) ≡ some (pos n)
parse_config_id-print_ℕ n lo hi =
    let (c, s, e) = print_ℕ-cons n in
    ap parse_config_id e
    ∙ parse_config_id-digits n c s lo hi (subst AreDigits e (print_ℕ-AreDigits n))
        (ap (value 0) (sym e) ∙ value-print_ℕ n)

-- At most 2^63 - 1, unless negative.
abbrev Within : ℤ → Type 0
Within (pos n) = n < 2 ^ 63
Within (negsuc n) = Unit

positive-Within : (o : Option ℕ) (id : ℤ) → positive o ≡ some id → Within id
positive-Within none id e = absurd (ground arith)
positive-Within (some n) (pos m) e = ground arith
positive-Within (some n) (negsuc m) e = tt

negative-Within : (o : Option ℕ) (id : ℤ) → negative o ≡ some id → Within id
negative-Within none id e = absurd (ground arith)
negative-Within (some zero) (pos m) e = ground arith
negative-Within (some (suc n)) (pos m) e = ground arith
negative-Within (some n) (negsuc m) e = tt

parse_int-Within : (raw : Bytes) (id : ℤ) → parse_int raw ≡ some id → Within id
unfolding parse_int
parse_int-Within [] id e = absurd (ground arith)
parse_int-Within (c ∷ s) id e = elim (Bool-cases (c == b'-')) [
  | inl minus ↦ negative-Within (parse_magnitude s) id (ground arith)
  | inr not_minus ↦ elim (Bool-cases (c == b'+')) [
    | inl plus ↦ positive-Within (parse_magnitude s) id (ground arith)
    | inr bare ↦ positive-Within (parse_magnitude (c ∷ s)) id (ground arith)
  ]
]

-- Every path id that is accepted is a number from 1 to 2^63 - 1.
pub parse_config_id-InRange :
    (raw : Bytes) (id : ℤ)
    → parse_config_id raw ≡ some id
    → (n : ℕ) × (id ≡ pos n) × (0 < n) × (n < 2 ^ 63)
unfolding parse_config_id
parse_config_id-InRange raw (pos n) e =
    (n, refl, ground arith, parse_int-Within raw (pos n) (ground arith))
parse_config_id-InRange raw (negsuc n) e = absurd (ground arith)
