-- ===== src/Cli/Scrub/Secrets.antt =====
-- No secret is left in a text that scrubPaths of internal/cli/cli.go has washed.
use tabby_sync.Common.{
  ℕ, zero, suc, ◌-◌, ◌==◌, Bytes, lit, is_empty, true, false, List, [], ◌∷◌, ◌++◌, length, ltb, ◌≡◌,
  refl, arith, All, Bool-cases, inl, inr, ◌⊎◌, if◌then◌else◌,
}
use tabby_sync.Cli.Scrub.{
  has_prefix, has_substring, replace_from, replace_all, redacted, insert_by_length, longest_first,
  replace_each, scrub_paths,
}
use mathlib.Core.Path.{subst}

-- A secret that can be told from the mark: it is not empty, has neither of its brackets, and does
-- not stand in its word.
pub record IsSecret (p : Bytes) : Type 0 where
  pub some_byte : is_empty p ≡ false
  pub no_brackets : All (λ c. ((c == b'<') ≡ false) × ((c == b'>') ≡ false)) p
  pub not_in_mark : has_substring p (lit "redacted") ≡ false

abbrev NoBrackets : Bytes → Type 0
NoBrackets p = All (λ c. ((c == b'<') ≡ false) × ((c == b'>') ≡ false)) p

-- A prefix without brackets of a text in which `old` has been replaced is one of the text itself.
has_prefix-replace :
    (old p s : Bytes)
    → NoBrackets p
    → has_prefix p (replace_from old redacted 0 s) ≡ true
    → has_prefix p s ≡ true
unfolding has_prefix replace_from redacted lit
has_prefix-replace old [] s ok h = refl
has_prefix-replace old (c ∷ p) [] ok h = h
has_prefix-replace old (c ∷ p) (d ∷ s) ((lt, gt), ok) h =
    elim (Bool-cases (has_prefix old (d ∷ s))) [
      | inl hit ↦ absurd (ground (arith))
      | inr miss ↦ ground (arith, has_prefix-replace old p s ok)
    ]

-- An empty rest: the prefix ends before the closing bracket.
has_prefix-bracket :
    (p word rest : Bytes)
    → NoBrackets p
    → has_prefix p (word ++ b'>' ∷ rest) ≡ true
    → has_prefix p word ≡ true
unfolding has_prefix
has_prefix-bracket [] word rest ok h = refl
has_prefix-bracket (c ∷ p) [] rest ((lt, gt), ok) h = absurd (ground (arith))
has_prefix-bracket (c ∷ p) (d ∷ word) rest ((lt, gt), ok) h =
    ground (arith, has_prefix-bracket p word rest ok)

-- What stands in front of a closing bracket and behind it.
has_substring-bracket :
    (p word rest : Bytes)
    → is_empty p ≡ false
    → NoBrackets p
    → has_substring p (word ++ b'>' ∷ rest) ≡ true
    → (has_substring p word ≡ true) ⊎ (has_substring p rest ≡ true)
unfolding has_substring
has_substring-bracket [] word rest full ok h = absurd (cc)
has_substring-bracket (c ∷ p) [] rest full ((lt, gt), ok) h =
    inr (unfold has_prefix in ground arith)
has_substring-bracket (c ∷ p) (d ∷ word) rest full ok h =
    elim (Bool-cases (has_prefix (c ∷ p) (d ∷ (word ++ b'>' ∷ rest)))) [
      | inl here ↦ inl (ground (arith, has_prefix-bracket (c ∷ p) (d ∷ word) rest ok here))
      | inr later ↦ elim (has_substring-bracket (c ∷ p) word rest full ok (ground arith)) [
        | inl front ↦ inl (ground arith)
        | inr back ↦ inr back
      ]
    ]

not_in_empty : (p : Bytes) → is_empty p ≡ false → has_prefix p [] ≡ false
unfolding has_prefix
not_in_empty [] h = absurd (cc)
not_in_empty (c ∷ p) h = refl

-- Replacing does not bring a secret into a text.
module _ (p : Bytes) (secret : IsSecret p) where
  marked : (rest : Bytes) → has_substring p (redacted ++ rest) ≡ true → has_substring p rest ≡ true
  unfolding has_substring has_prefix redacted lit
  marked rest h = behind p secret.some_byte secret.no_brackets secret.not_in_mark h
    where
      behind :
          (q : Bytes)
          → is_empty q ≡ false
          → NoBrackets q
          → has_substring q (lit "redacted") ≡ false
          → has_substring q (b'<' ∷ (lit "redacted" ++ b'>' ∷ rest)) ≡ true
          → has_substring q rest ≡ true
      behind [] full ok word h = absurd (cc)
      behind (c ∷ q) full ((lt, gt), ok) word h =
          elim (has_substring-bracket (c ∷ q) (lit "redacted") rest full ((lt, gt), ok)
            (ground (arith))) [ inl front ↦ absurd (cc) | inr back ↦ back ]

  has_substring-replace :
      (old : Bytes) (skip : ℕ) (s : Bytes)
      → has_substring p (replace_from old redacted skip s) ≡ true
      → has_substring p s ≡ true
  unfolding has_substring replace_from
  has_substring-replace old skip [] h = h
  has_substring-replace old (suc skip) (c ∷ s) h =
      ground (arith, has_substring-replace old skip s h)
  has_substring-replace old zero (c ∷ s) h = elim (Bool-cases (has_prefix old (c ∷ s))) [
    | inl hit ↦
        let rest = replace_from old redacted (length old - 1) s in
        let later = has_substring-replace old (length old - 1) s (marked rest (ground arith)) in
        ground arith
    | inr miss ↦
        ground (
          arith,
          has_substring-replace old 0 s,
          has_prefix-replace old p (c ∷ s) secret.no_brackets,
        )
  ]

  -- After its replacement the secret is gone.
  has_substring-replaced :
      (skip : ℕ) (s : Bytes) → has_substring p (replace_from p redacted skip s) ≡ false
  unfolding has_substring replace_from
  has_substring-replaced skip [] = not_in_empty p secret.some_byte
  has_substring-replaced (suc skip) (c ∷ s) = has_substring-replaced skip s
  has_substring-replaced zero (c ∷ s) = elim (Bool-cases (has_prefix p (c ∷ s))) [
    | inl hit ↦
        let rest = replace_from p redacted (length p - 1) s in
        ground (arith, marked rest, has_substring-replaced (length p - 1) s)
    | inr miss ↦
        ground
          (arith, has_substring-replaced 0 s, has_prefix-replace p p (c ∷ s) secret.no_brackets)
  ]

  absent_stays :
      (old msg : Bytes)
      → has_substring p msg ≡ false
      → has_substring p (if is_empty old then msg else replace_all msg old redacted) ≡ false
  unfolding replace_all
  absent_stays [] msg h = h
  absent_stays (c ∷ old) msg h =
      elim (Bool-cases (has_substring p (replace_from (c ∷ old) redacted 0 msg))) [
        | inl found ↦ absurd (ground (arith, has_substring-replace (c ∷ old) 0 msg found))
        | inr absent ↦ absent
      ]

  absent_from_all :
      (msg : Bytes) (secrets : List Bytes)
      → has_substring p msg ≡ false
      → has_substring p (replace_each msg secrets) ≡ false
  unfolding replace_each
  absent_from_all msg [] h = h
  absent_from_all msg (s ∷ ss) h =
      absent_from_all (if is_empty s then msg else replace_all msg s redacted) ss
        (absent_stays s msg h)

  replaced :
      (msg : Bytes)
      → has_substring p (if is_empty p then msg else replace_all msg p redacted) ≡ false
  unfolding replace_all
  replaced msg = rw secret.some_byte (has_substring-replaced 0 msg)

-- The text is in the list.
abbrev pub IsAmong : Bytes → List Bytes → Type 0
IsAmong p [] = ⊥
IsAmong p (s ∷ ss) = (p ≡ s) ⊎ IsAmong p ss

IsAmong-insert :
    (p s : Bytes) (ss : List Bytes) → IsAmong p (s ∷ ss) → IsAmong p (insert_by_length s ss)
unfolding insert_by_length
IsAmong-insert p s [] h = h
IsAmong-insert p s (t ∷ ts) h = elim (Bool-cases (ltb (length s) (length t))) [
  | inl shorter ↦ rw shorter (elim h [
    | inl same ↦ inr (IsAmong-insert p s ts (inl same))
    | inr (inl same) ↦ inl same
    | inr (inr later) ↦ inr (IsAmong-insert p s ts (inr later))
  ])
  | inr longer ↦ rw longer h
]

IsAmong-longest_first : (p : Bytes) (ss : List Bytes) → IsAmong p ss → IsAmong p (longest_first ss)
unfolding longest_first
IsAmong-longest_first p [] h = h
IsAmong-longest_first p (s ∷ ss) (inl same) = IsAmong-insert p s (longest_first ss) (inl same)
IsAmong-longest_first p (s ∷ ss) (inr later) =
    IsAmong-insert p s (longest_first ss) (inr (IsAmong-longest_first p ss later))

replace_each-hides :
    (p : Bytes)
    → IsSecret p
    → (msg : Bytes) (ss : List Bytes) → IsAmong p ss
    → has_substring p (replace_each msg ss) ≡ false
unfolding replace_each
replace_each-hides p secret msg [] h = absurd h
replace_each-hides p secret msg (s ∷ ss) (inl same) =
    absent_from_all p secret (if is_empty s then msg else replace_all msg s redacted) ss (
      subst (λ s. has_substring p (if is_empty s then msg else replace_all msg s redacted) ≡ false)
        same (replaced p secret msg))
replace_each-hides p secret msg (s ∷ ss) (inr later) =
    replace_each-hides p secret (if is_empty s then msg else replace_all msg s redacted) ss later

-- A secret that is given to scrubPaths, is not empty, has no angle bracket and does not stand in
-- the word of the mark, is nowhere in the text that comes out, whatever the other secrets are and
-- however they overlap.
pub scrub_paths-hides :
    (msg : Bytes) (secrets : List Bytes) (p : Bytes)
    → IsSecret p
    → IsAmong p secrets
    → has_substring p (scrub_paths msg secrets) ≡ false
unfolding scrub_paths
scrub_paths-hides msg secrets p secret among =
    replace_each-hides p secret msg (longest_first secrets) (IsAmong-longest_first p secrets among)
