-- ===== src/Cli/Users/Fresh.antt =====
-- The id and the name that `user add` of internal/cli/usercmd.go gives: no entry has them.
use tabby_sync.Common.{
  ℕ, ◌+◌, ◌-◌, ◌^◌, ℤ, pos, negsuc, ltb_ℤ, eqb_ℤ, Bytes, bytes_eq, bytes_eq_iff, true, false, List,
  [], ◌∷◌, map, ◌≡◌, ◌≢◌, refl, ◌∙◌, ap, arith, All, Bool-cases, inl, inr,
}
use tabby_sync.Auth.{User, has_id, has_name, normalise}
use tabby_sync.Auth.Text.{trim_space, to_lower, equal_fold}
use tabby_sync.Cli.Users.{max_id_from, wrapped_suc, next_id, name_is_taken, larger}
use mathlib.Core.Path.{subst}

-- a <= b
abbrev AtMost : ℤ → ℤ → Type 0
AtMost a b = ltb_ℤ b a ≡ false

AtMost-refl : (a : ℤ) → AtMost a a
AtMost-refl (pos n) = ground arith
AtMost-refl (negsuc n) = ground arith

AtMost-trans : (a b c : ℤ) → AtMost a b → AtMost b c → AtMost a c
AtMost-trans (pos a) (pos b) (pos c) h k = ground arith
AtMost-trans (pos a) (pos b) (negsuc c) h k = absurd (cc)
AtMost-trans (pos a) (negsuc b) c h k = absurd (cc)
AtMost-trans (negsuc a) b (pos c) h k = refl
AtMost-trans (negsuc a) (pos b) (negsuc c) h k = absurd (cc)
AtMost-trans (negsuc a) (negsuc b) (negsuc c) h k = ground arith

larger_bounds : (m i : ℤ) → AtMost m (larger m i) × AtMost i (larger m i)
larger_bounds m i = elim (Bool-cases (ltb_ℤ m i)) [
  | inl less ↦ rw less (less_at_most m i less, AtMost-refl i)
  | inr not_less ↦ rw not_less (AtMost-refl m, not_less)
]
  where
    less_at_most : (m i : ℤ) → ltb_ℤ m i ≡ true → AtMost m i
    less_at_most (pos a) (pos b) h = ground arith
    less_at_most (negsuc a) (negsuc b) h = ground arith
    less_at_most (pos a) (negsuc b) h = absurd (cc)
    less_at_most (negsuc a) (pos b) h = refl

-- The largest id bounds the one that the loop began with, and every id of the entries.
max_id_from-AtMost :
    (m : ℤ) (us : List User)
    → AtMost m (max_id_from m us) × All (λ u. AtMost u.id (max_id_from m us)) us
unfolding max_id_from
max_id_from-AtMost m [] = (AtMost-refl m, tt)
max_id_from-AtMost m (u ∷ us) =
    let (low, high) = larger_bounds m u.id in
    let (lows, highs) = max_id_from-AtMost (larger m u.id) us in
    (
      AtMost-trans m (larger m u.id) (max_id_from (larger m u.id) us) low lows,
      (AtMost-trans u.id (larger m u.id) (max_id_from (larger m u.id) us) high lows, highs),
    )

-- An id above all others is not among the normalised ones.
has_id-above :
    (n : ℕ) (us : List User)
    → All (λ u. AtMost u.id (pos n)) us
    → has_id (pos (n + 1)) (map normalise us) ≡ false
unfolding has_id normalise eqb_ℤ
has_id-above n [] h = refl
has_id-above n (u ∷ us) (p, h) = ground (arith, has_id-above n us h, differs u.id p)
  where
    differs : (i : ℤ) → AtMost i (pos n) → eqb_ℤ i (pos (n + 1)) ≡ false
    differs (pos m) p = ground arith
    differs (negsuc m) p = refl

wrapped_suc-pos :
    (m : ℤ)
    → AtMost (pos 0) m
    → m ≢ pos (2 ^ 63 - 1)
    → (n : ℕ) × (m ≡ pos n) × (wrapped_suc m ≡ pos (n + 1))
unfolding wrapped_suc
wrapped_suc-pos (pos n) low no_overflow = (n, refl, ground arith)
wrapped_suc-pos (negsuc n) low no_overflow = absurd (cc)

-- The next id is positive and new, unless the largest one is the last int64.
pub next_id-IsNew :
    (us : List User)
    → max_id_from (pos 0) us ≢ pos (2 ^ 63 - 1)
    → (ltb_ℤ (next_id us) (pos 1) ≡ false) × (has_id (next_id us) (map normalise us) ≡ false)
unfolding next_id
next_id-IsNew us no_overflow =
    let (low, high) = max_id_from-AtMost (pos 0) us in
    let (n, is, next) = wrapped_suc-pos (max_id_from (pos 0) us) low no_overflow in
    (
      ap (λ i. ltb_ℤ i (pos 1)) next ∙ (ground arith),
      ap (λ i. has_id i (map normalise us)) next
          ∙ has_id-above n us (subst (λ m. All (λ u. AtMost u.id m) us) is high),
    )

equal_fold_refl : (s : Bytes) → equal_fold s s ≡ true
unfolding equal_fold
equal_fold_refl s = (bytes_eq_iff (to_lower s) (to_lower s)).1 refl

-- If no entry has the name but for case, the loader finds no user of the name, as long as the
-- names of the entries are trimmed.
pub has_name-free :
    (name : Bytes) (us : List User)
    → All (λ u. trim_space u.name ≡ u.name) us
    → name_is_taken name us ≡ false
    → has_name name (map normalise us) ≡ false
unfolding has_name name_is_taken normalise
has_name-free name [] h free = refl
has_name-free name (u ∷ us) (trimmed, h) free = ground (
  arith,
  has_name-free name us h,
  differs u.name (ground arith),
  ap (λ n. bytes_eq n name) trimmed,
)
  where
    differs : (n : Bytes) → equal_fold n name ≡ false → bytes_eq n name ≡ false
    differs n h = elim (Bool-cases (bytes_eq n name)) [
      | inr ne ↦ ne
      | inl same ↦ absurd (
          ground (
            arith,
            h,
            ap (λ m. equal_fold m name) ((bytes_eq_iff n name).0 same),
            equal_fold_refl name,
          ))
    ]
