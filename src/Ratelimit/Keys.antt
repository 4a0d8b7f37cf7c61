-- ===== src/Ratelimit/Keys.antt =====
-- Which requests share a bucket: extractKey of internal/ratelimit/ratelimit.go.
use tabby_sync.Common.{
  Bytes, lit, Option, none, some, ◌++◌, ◌≡◌, ◌≢◌, ap, arith, print_ℤ, print_ℤ-injective, drop, ◌↔◌,
}
use tabby_sync.Auth.{User}
use tabby_sync.Ratelimit.{extract_key}

-- Two authenticated requests share a bucket exactly if their users have the same id, and an
-- authenticated request never shares one with an unauthenticated request, whatever their addresses.
pub extract_key-separate :
    (split_host_port : Bytes → Option Bytes) (u v : User) (addr other : Bytes)
    → ((extract_key split_host_port (some u) addr ≡ extract_key split_host_port (some v) other)
        ↔ (u.id ≡ v.id))
      × (extract_key split_host_port (some u) addr ≢ extract_key split_host_port none other)
unfolding extract_key lit
extract_key-separate split_host_port u v addr other = (
  (λ e. print_ℤ-injective u.id v.id (ap (drop 5) e), λ e. ap (λ i. lit "user:" ++ print_ℤ i) e),
  λ e. ground arith,
)
