-- ===== src/Keys/Hex.antt =====
-- The hex round trip of the master key: internal/keys/env_provider.go.
use tabby_sync.Common.{
  ℕ, ◌+◌, ◌*◌, ◌/◌, ◌%◌, ◌<◌, Bytes, some, [], ◌∷◌, ◌≡◌, refl, arith, All, length, is_empty, false,
}
use tabby_sync.Keys.{loaded, nibble, decode_hex, encode_hex, digit, load_env}

nibble-digit : (n : ℕ) → n < 16 → nibble (digit n) ≡ some n
unfolding nibble
nibble-digit n h = ground arith

decode_hex-encode_hex : (bs : Bytes) → All (λ b. b < 256) bs → decode_hex (encode_hex bs) ≡ some bs
unfolding decode_hex encode_hex
decode_hex-encode_hex [] h = refl
decode_hex-encode_hex (b ∷ bs) (lt, h) = ground (
  arith,
  nibble-digit (b / 16) (omega arith),
  nibble-digit (b % 16) (omega arith),
  decode_hex-encode_hex bs h,
  the_byte b,
)
  where
    the_byte : (b : ℕ) → b / 16 * 16 + b % 16 ≡ b
    the_byte b = omega arith

is_empty-encode_hex : (key : Bytes) → length key ≡ 32 → is_empty (encode_hex key) ≡ false
unfolding encode_hex
is_empty-encode_hex [] h = absurd (omega arith)
is_empty-encode_hex (b ∷ bs) h = refl

-- EnvProvider.Load returns a master key of 32 bytes from its hex text.
pub load_env-encode_hex :
    (key : Bytes)
    → All (λ b. b < 256) key
    → length key ≡ 32
    → load_env (encode_hex key) ≡ loaded key
unfolding load_env
load_env-encode_hex key bytes sized =
    ground (arith, is_empty-encode_hex key sized, decode_hex-encode_hex key bytes, sized)
