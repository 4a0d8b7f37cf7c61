-- ===== src/Cli/Users/Tokens.antt =====
-- generateToken of internal/cli/usercmd.go: the form of a new token, its hash and its prefix.
use tabby_sync.Common.{
  ℕ, ◌*◌, ◌/◌, ◌%◌, ◌<◌, Bytes, lit, true, false, some, [], ◌∷◌, ◌++◌, ◌≡◌, refl, ◌∙◌, ap, arith,
  All, all, length, is_empty, take, drop, zero, suc, bytes_eq,
}
use tabby_sync.Keys.{digit, encode_hex}
use tabby_sync.Auth.{bearer_token}
use tabby_sync.Auth.Text.{
  is_space, is_hex_digit, is_hash, to_lower, lower, trim_space, has_any_space, equal_fold,
}
use tabby_sync.Auth.Trimming.{HasNoSpace, trim_space-HasNoSpace}
use tabby_sync.Cli.Users.{generate_token}

abbrev pub AreBytes : Bytes → Type 0
AreBytes s = All (λ b. b < 256) s

-- A SHA-256 sum has 32 bytes.
abbrev pub IsSha256 : (Bytes → Bytes) → Type 0
IsSha256 sha256 = (s : Bytes) → AreBytes (sha256 s) × (length (sha256 s) ≡ 32)

-- Lowercase hex digits.
abbrev IsHexText : Bytes → Type 0
IsHexText s = All (λ c. is_hex_digit c ≡ true) s

digit-hex : (n : ℕ) → n < 16 → is_hex_digit (digit n) ≡ true
unfolding is_hex_digit
digit-hex n h = ground arith

encode_hex-IsHexText : (bs : Bytes) → AreBytes bs → IsHexText (encode_hex bs)
unfolding encode_hex
encode_hex-IsHexText [] h = tt
encode_hex-IsHexText (b ∷ bs) (lt, h) = (
  digit-hex (b / 16) (omega arith),
  (digit-hex (b % 16) (omega arith), encode_hex-IsHexText bs h),
)

pub length-encode_hex : (bs : Bytes) → length (encode_hex bs) ≡ length bs * 2
unfolding encode_hex
length-encode_hex [] = refl
length-encode_hex (b ∷ bs) = omega (arith, length-encode_hex bs)

hex_no_space : (c : ℕ) → is_hex_digit c ≡ true → is_space c ≡ false
unfolding is_hex_digit is_space
hex_no_space c h = ground arith

hex_lower : (c : ℕ) → is_hex_digit c ≡ true → lower c ≡ c
unfolding is_hex_digit lower
hex_lower c h = ground arith

IsHexText-HasNoSpace : (s : Bytes) → IsHexText s → HasNoSpace s
IsHexText-HasNoSpace [] h = tt
IsHexText-HasNoSpace (c ∷ s) (p, h) = (hex_no_space c p, IsHexText-HasNoSpace s h)

to_lower-IsHexText : (s : Bytes) → IsHexText s → to_lower s ≡ s
unfolding to_lower
to_lower-IsHexText [] h = refl
to_lower-IsHexText (c ∷ s) (p, h) = ground (arith, hex_lower c p, to_lower-IsHexText s h)

all-IsHexText : (s : Bytes) → IsHexText s → all is_hex_digit s ≡ true
unfolding all
all-IsHexText [] h = refl
all-IsHexText (c ∷ s) (p, h) = ground (arith, all-IsHexText s h)

-- The hex text of a sum is kept by the loader, and taken for a hash.
hash-IsHash :
    (sum : Bytes)
    → AreBytes sum
    → length sum ≡ 32
    → (to_lower (trim_space (encode_hex sum)) ≡ encode_hex sum) × (is_hash (encode_hex sum) ≡ true)
hash-IsHash sum bytes sized =
    let hex = encode_hex-IsHexText sum bytes in
    (
      ap to_lower
            (trim_space-HasNoSpace (encode_hex sum) (IsHexText-HasNoSpace (encode_hex sum) hex))
          ∙ to_lower-IsHexText (encode_hex sum) hex,
      unfold is_hash in ground (arith, length-encode_hex sum, all-IsHexText (encode_hex sum) hex),
    )

HasNoSpace-take : (n : ℕ) (s : Bytes) → HasNoSpace s → HasNoSpace (take n s)
HasNoSpace-take zero s h = tt
HasNoSpace-take (suc n) [] h = tt
HasNoSpace-take (suc n) (c ∷ s) (p, h) = (p, HasNoSpace-take n s h)

has_any_space-HasNoSpace : (s : Bytes) → HasNoSpace s → has_any_space s ≡ false
unfolding has_any_space is_space
has_any_space-HasNoSpace [] h = refl
has_any_space-HasNoSpace (c ∷ s) (p, h) = ground (arith, has_any_space-HasNoSpace s h)

bearer_token_form :
    (c : ℕ) (s : Bytes)
    → has_any_space (c ∷ s) ≡ false
    → bearer_token (lit "Bearer " ++ c ∷ s) ≡ some (c ∷ s)
unfolding bearer_token lit equal_fold to_lower lower bytes_eq
bearer_token_form c s h = ground arith

module _ (sha256 : Bytes → Bytes) (random : Bytes) where
  pub plaintext-HasNoSpace : AreBytes random → HasNoSpace (generate_token sha256 random).plaintext
  unfolding generate_token lit is_space
  plaintext-HasNoSpace bytes =
      let hex = IsHexText-HasNoSpace (encode_hex random) (encode_hex-IsHexText random bytes) in
      (refl, (refl, (refl, (refl, hex))))

  -- The loader keeps the hash, and takes it for one.
  pub hash_is_kept :
      IsSha256 sha256
      → (to_lower (trim_space (generate_token sha256 random).hash)
          ≡ (generate_token sha256 random).hash)
        × (is_hash (generate_token sha256 random).hash ≡ true)
  unfolding generate_token
  hash_is_kept is_sha =
      let (digest, sized) = is_sha (generate_token sha256 random).plaintext in
      hash-IsHash (sha256 (generate_token sha256 random).plaintext) digest sized

  -- The prefix is not empty, and the loader keeps it as it is.
  pub prefix-IsKept :
      AreBytes random
      → (trim_space (generate_token sha256 random).prefix ≡ (generate_token sha256 random).prefix)
        × (is_empty (generate_token sha256 random).prefix ≡ false)
  unfolding generate_token
  prefix-IsKept bytes = (
    trim_space-HasNoSpace (take 12 (generate_token sha256 random).plaintext)
        (HasNoSpace-take 12 (generate_token sha256 random).plaintext (plaintext-HasNoSpace bytes)),
    unfold lit in refl,
  )

  -- A client that sends the new token behind "Bearer " is asking for exactly this token.
  pub bearer_token-generate_token :
      AreBytes random
      → bearer_token (lit "Bearer " ++ (generate_token sha256 random).plaintext)
        ≡ some (generate_token sha256 random).plaintext
  unfolding generate_token lit
  bearer_token-generate_token bytes =
      bearer_token_form b't' (drop 1 (generate_token sha256 random).plaintext) (
        has_any_space-HasNoSpace (generate_token sha256 random).plaintext
          (plaintext-HasNoSpace bytes))
