-- ===== src/Keys.antt =====
-- internal/keys/env_provider.go: the master key from the environment, and encoding/hex as it uses it.
pub mod Hex
pub mod File
pub mod Generation
pub mod Starts
use tabby_sync.Common.{
  ℕ, ◌+◌, ◌-◌, ◌*◌, ◌/◌, ◌%◌, Bytes, is_empty, Bool, true, false, ◌&&◌, Option, none, some, List,
  [], ◌∷◌, length, leb, ltb, ◌==◌, if◌then◌else◌,
}

pub data Key : Type 0 where
  loaded : Bytes → Key
  missing not_hex invalid_length : Key

abbrev pub master_key_size : ℕ
master_key_size = 32

-- The value of a hex digit of either case.
unfoldable pub nibble : ℕ → Option ℕ
nibble c =
    if leb b'0' c && leb c b'9'
    then some (c - b'0')
    else if leb b'a' c && leb c b'f'
    then some (c - b'a' + 10)
    else if leb b'A' c && leb c b'F'
    then some (c - b'A' + 10)
    else none

abbrev pub byte_of : Option ℕ → Option ℕ → Option Bytes → Option Bytes
byte_of none low rest = none
byte_of (some h) none rest = none
byte_of (some h) (some l) none = none
byte_of (some h) (some l) (some bs) = some ((h * 16 + l) ∷ bs)

-- hex.DecodeString: `none` for a wrong digit or an odd length.
unfoldable pub decode_hex : Bytes → Option Bytes
unfolding nibble
decode_hex [] = some []
decode_hex (c ∷ []) = none
decode_hex (c ∷ d ∷ s) = byte_of (nibble c) (nibble d) (decode_hex s)

abbrev pub digit : ℕ → ℕ
digit n = if ltb n 10 then b'0' + n else b'a' + (n - 10)

-- hex.EncodeToString
unfoldable pub encode_hex : Bytes → Bytes
encode_hex [] = []
encode_hex (b ∷ bs) = digit (b / 16) ∷ digit (b % 16) ∷ encode_hex bs

-- EnvProvider.Load, of the variable's value.
unfoldable pub load_env : Bytes → Key
unfolding decode_hex
load_env raw = if is_empty raw then missing else elim (decode_hex raw) [
  | none ↦ not_hex
  | some decoded ↦ if length decoded == master_key_size then loaded decoded else invalid_length
]
