-- ===== src/Crypto/Aad.antt =====
-- The associated data and the derivation labels of internal/crypto/crypto.go, on different ids.
use tabby_sync.Common.{
  ℕ, zero, suc, ◌+◌, ◌*◌, ◌<◌, ◌/◌, ◌%◌, ◌^◌, ℤ, pos, negsuc, Bytes, print_ℤ-injective, lit, [],
  ◌∷◌, ◌++◌, ◌≡◌, refl, ap, arith, length, length-append, append-injective, drop,
}
use tabby_sync.Crypto.{big_endian, uint64, build_aad, hkdf_info}

-- The range of an int64.
abbrev pub IsInt64 : ℤ → Type 0
IsInt64 (pos n) = n < 2 ^ 63
IsInt64 (negsuc n) = n < 2 ^ 63

pow256 : ℕ → ℕ
pow256 zero = 1
pow256 (suc k) = pow256 k * 256

number : ℕ → Bytes → ℕ
number acc [] = acc
number acc (b ∷ s) = number (acc * 256 + b) s

number-snoc : (acc : ℕ) (s : Bytes) (b : ℕ) → number acc (s ++ b ∷ []) ≡ number acc s * 256 + b
unfolding number
number-snoc acc [] b = refl
number-snoc acc (c ∷ s) b = number-snoc (acc * 256 + c) s b

number-big_endian : (k n : ℕ) → n < pow256 k → number 0 (big_endian k n) ≡ n
unfolding big_endian pow256
number-big_endian zero n h = unfold number in omega arith
number-big_endian (suc k) n h =
    rw (number-snoc 0 (big_endian k (n / 256)) (n % 256))
      (omega (arith, number-big_endian k (n / 256) (omega arith)))

length-big_endian : (k n : ℕ) → length (big_endian k n) ≡ k
unfolding big_endian
length-big_endian zero n = refl
length-big_endian (suc k) n =
    omega
      (arith, length-append (big_endian k (n / 256)) (n % 256 ∷ []), length-big_endian k (n / 256))

uint64-lt : (a : ℤ) → uint64 a < pow256 8
unfolding uint64 pow256
uint64-lt (pos n) = omega arith
uint64-lt (negsuc n) = omega arith

uint64-injective : (a b : ℤ) → IsInt64 a → IsInt64 b → uint64 a ≡ uint64 b → a ≡ b
unfolding uint64
uint64-injective (pos m) (pos n) h k e = ap pos (omega arith)
uint64-injective (pos m) (negsuc n) h k e = absurd (omega arith)
uint64-injective (negsuc m) (pos n) h k e = absurd (omega arith)
uint64-injective (negsuc m) (negsuc n) h k e = ap negsuc (omega arith)

big_endian-injective :
    (a b : ℕ) → a < pow256 8 → b < pow256 8 → big_endian 8 a ≡ big_endian 8 b → a ≡ b
big_endian-injective a b h k e =
    omega (arith, number-big_endian 8 a h, number-big_endian 8 b k, ap (number 0) e)

-- On int64 ids, two equal associated data are of the same user and the same configuration.
pub build_aad-injective :
    (u v c d : ℤ)
    → IsInt64 u
    → IsInt64 v
    → IsInt64 c
    → IsInt64 d
    → build_aad u c ≡ build_aad v d
    → (u ≡ v) × (c ≡ d)
unfolding build_aad
build_aad-injective u v c d hu hv hc hd e =
    let (p, q) =
      append-injective (big_endian 8 (uint64 u)) (big_endian 8 (uint64 v)) _ _
        (omega (arith, length-big_endian 8 (uint64 u), length-big_endian 8 (uint64 v)))
        (ap (drop 1) e) in
    (
      uint64-injective u v hu hv (big_endian-injective _ _ (uint64-lt u) (uint64-lt v) p),
      uint64-injective c d hc hd (big_endian-injective _ _ (uint64-lt c) (uint64-lt d) q),
    )

pub length-build_aad : (u c : ℤ) → length (build_aad u c) ≡ 17
unfolding build_aad
length-build_aad u c = omega (
  arith,
  length-append (big_endian 8 (uint64 u)) (big_endian 8 (uint64 c)),
  length-big_endian 8 (uint64 u),
  length-big_endian 8 (uint64 c),
)

-- Two equal key derivation labels are of the same user.
pub hkdf_info-injective : (u v : ℤ) → hkdf_info u ≡ hkdf_info v → u ≡ v
unfolding hkdf_info
hkdf_info-injective u v e =
    print_ℤ-injective u v
      (append-injective (lit "tabby-sync/v1/user/") (lit "tabby-sync/v1/user/") _ _ refl e).1
