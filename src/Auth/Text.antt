-- ===== src/Auth/Text.antt =====
-- The text helpers that internal/auth takes from Go's strings and regexp packages, on the bytes of
-- ASCII texts: TrimSpace, ToLower, EqualFold, ContainsAny, and the pattern of a token hash.
use tabby_sync.Common.{
  ℕ, ◌+◌, Bytes, Bool, false, ◌&&◌, ◌||◌, [], ◌∷◌, length, all, leb, ◌==◌, if◌then◌else◌, bytes_eq,
  map,
}
use mathlib.Core.List.{reverse}

-- The ASCII white space: tab, newline, vertical tab, form feed, carriage return, space.
unfoldable pub is_space : ℕ → Bool
is_space c = (leb 9 c && leb c 13) || c == 32

unfoldable pub trim_left : Bytes → Bytes
unfolding is_space
trim_left [] = []
trim_left (c ∷ s) = let rest = trim_left s in if is_space c then rest else c ∷ s

unfoldable pub trim_space : Bytes → Bytes
unfolding trim_left
trim_space s = reverse (trim_left (reverse (trim_left s)))

unfoldable pub lower : ℕ → ℕ
lower c = if leb b'A' c && leb c b'Z' then c + 32 else c

unfoldable pub to_lower : Bytes → Bytes
unfolding lower
to_lower s = map lower s

unfoldable pub equal_fold : Bytes → Bytes → Bool
unfolding to_lower
equal_fold s t = bytes_eq (to_lower s) (to_lower t)

-- strings.ContainsAny(token, " \t\r\n")
unfoldable pub has_any_space : Bytes → Bool
has_any_space [] = false
has_any_space (c ∷ s) = (c == 32 || c == 9 || c == 13 || c == 10) || has_any_space s

unfoldable pub is_hex_digit : ℕ → Bool
is_hex_digit c = (leb b'0' c && leb c b'9') || (leb b'a' c && leb c b'f')

-- ^[0-9a-f]{64}$
unfoldable pub is_hash : Bytes → Bool
unfolding is_hex_digit
is_hash s = length s == 64 && all is_hex_digit s
