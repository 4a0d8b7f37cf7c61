-- ===== src/Auth/Trimming.antt =====
-- strings.TrimSpace on ASCII texts, as internal/auth and internal/cli use it.
use tabby_sync.Common.{
  Bytes, false, [], ◌∷◌, ◌++◌, ◌≡◌, refl, sym, ◌∙◌, ap, All, All-append, Bool-cases, inl, inr,
}
use tabby_sync.Auth.Text.{is_space, trim_left, trim_space}
use mathlib.Core.Path.{subst}
use mathlib.Core.List.{reverse, reverse-reverse, reverse-append, reverse-cons}

-- The first byte, if any, is no white space.
abbrev StartsWell : Bytes → Type 0
StartsWell [] = Unit
StartsWell (c ∷ s) = is_space c ≡ false

trim_left-StartsWell : (s : Bytes) → StartsWell (trim_left s)
unfolding trim_left
trim_left-StartsWell [] = tt
trim_left-StartsWell (c ∷ s) = elim (Bool-cases (is_space c)) [
  | inl space ↦ rw space (trim_left-StartsWell s)
  | inr letter ↦ rw letter letter
]

trim_left_same : (s : Bytes) → StartsWell s → trim_left s ≡ s
unfolding trim_left
trim_left_same [] h = refl
trim_left_same (c ∷ s) h = rw h refl

trim_left-suffix : (s : Bytes) → (pre : Bytes) × (s ≡ pre ++ trim_left s)
unfolding trim_left
trim_left-suffix [] = ([], refl)
trim_left-suffix (c ∷ s) = elim (Bool-cases (is_space c)) [
  | inl space ↦ let (pre, e) = trim_left-suffix s in (c ∷ pre, rw space (ap (λ t. c ∷ t) e))
  | inr letter ↦ ([], rw letter refl)
]

StartsWell-front : (s t : Bytes) → StartsWell (s ++ t) → StartsWell s
StartsWell-front [] t h = tt
StartsWell-front (c ∷ s) t h = h

-- A text that starts and ends well is trimmed already.
trim_space_same : (s : Bytes) → StartsWell s → StartsWell (reverse s) → trim_space s ≡ s
unfolding trim_space
trim_space_same s front back =
    ap (λ t. reverse (trim_left (reverse t))) (trim_left_same s front)
    ∙ (ap reverse (trim_left_same (reverse s) back) ∙ reverse-reverse s)

-- Trimming twice is trimming once.
pub trim_space_idempotent : (s : Bytes) → trim_space (trim_space s) ≡ trim_space s
trim_space_idempotent s =
    let t = trim_left s in
    let u = trim_left (reverse t) in
    let (pre, e) = trim_left-suffix (reverse t) in
    let whole : t ≡ reverse u ++ reverse pre =
      sym (reverse-reverse t) ∙ (ap reverse e ∙ reverse-append pre u) in
    unfold trim_space in
    trim_space_same (reverse u)
      (StartsWell-front (reverse u) (reverse pre) (subst StartsWell whole (trim_left-StartsWell s)))
      (subst StartsWell (sym (reverse-reverse u)) (trim_left-StartsWell (reverse t)))

abbrev pub HasNoSpace : Bytes → Type 0
HasNoSpace s = All (λ c. is_space c ≡ false) s

HasNoSpace-StartsWell : (s : Bytes) → HasNoSpace s → StartsWell s
HasNoSpace-StartsWell [] h = tt
HasNoSpace-StartsWell (c ∷ s) h = h.0

HasNoSpace-reverse : (s : Bytes) → HasNoSpace s → HasNoSpace (reverse s)
HasNoSpace-reverse [] h = tt
HasNoSpace-reverse (c ∷ s) (p, h) =
    subst HasNoSpace (sym (reverse-cons c s))
      (All-append (λ d. is_space d ≡ false) (reverse s) (c ∷ []) (HasNoSpace-reverse s h) (p, tt))

-- A text without white space is as it was.
pub trim_space-HasNoSpace : (s : Bytes) → HasNoSpace s → trim_space s ≡ s
trim_space-HasNoSpace s h =
    trim_space_same s (HasNoSpace-StartsWell s h)
      (HasNoSpace-StartsWell (reverse s) (HasNoSpace-reverse s h))
