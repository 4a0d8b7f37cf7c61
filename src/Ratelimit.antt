-- ===== src/Ratelimit.antt =====
-- internal/ratelimit/ratelimit.go: the token buckets and their collection.
pub mod Burst
pub mod Keys
use tabby_sync.Common.{
  ℕ, ◌+◌, ◌-◌, ◌*◌, ◌/◌, Bytes, lit, bytes_eq, is_empty, Bool, true, false, not, Option, none, some,
  or_else, List, [], ◌∷◌, ◌++◌, ltb, leb, if◌then◌else◌, print_ℤ, filter,
}
use tabby_sync.Store.{Time}
use tabby_sync.Auth.{User}

-- The tokens are counted in parts of 1/window, so a token is `window` parts and the refill over
-- `d` nanoseconds is `d * rate` parts: the exact values of what the source computes in float64.
pub record Bucket : Type 0 where
  pub tokens : ℕ
  pub last_check : Time

pub record Limiter : Type 0 where
  pub rate : ℕ
  pub window : ℕ
  pub buckets : Bytes → Option Bucket

abbrev pub second : ℕ
second = 1000000000

-- New: at least one token, and a window of at least a second.
unfoldable pub new : ℕ → ℕ → Limiter
new rate window = record {
  rate = if ltb rate 1 then 1 else rate;
  window = if ltb window second then second else window;
  buckets = λ _. none;
}

-- The refill up to the capacity.
unfoldable pub refilled : ℕ → ℕ → Time → Bucket → ℕ
refilled rate window now b =
    let tokens = b.tokens + (now - b.last_check) * rate in
    if ltb (rate * window) tokens then rate * window else tokens

-- Whether a bucket has a token, and the bucket afterwards.
unfoldable pub take_token : ℕ → ℕ → Time → Bucket → Bool × Bucket
unfolding refilled
take_token rate window now b =
    let tokens = refilled rate window now b in
    if ltb tokens window
    then (false, record { tokens = tokens; last_check = now })
    else (true, record { tokens = tokens - window; last_check = now })

-- The bucket of a key that has none.
abbrev pub full_bucket : ℕ → ℕ → Time → Bucket
full_bucket rate window now = record { tokens = rate * window; last_check = now }

unfoldable pub allow : Time → Bytes → Limiter → Bool × Limiter
allow now key l =
    let b = or_else (l.buckets key) (full_bucket l.rate l.window now) in
    let taken = take_token l.rate l.window now b in
    (
      taken.0,
      record l { buckets = λ other. if bytes_eq key other then some taken.1 else l.buckets other },
    )

-- A bucket that gc keeps: lastCheck is not before now - 2 * window.
unfoldable pub is_live : ℕ → Time → Bucket → Bool
is_live window now b = not (ltb (b.last_check + 2 * window) now)

-- What a sweep leaves of a key's bucket.
abbrev pub collected : ℕ → Time → Option Bucket → Option Bucket
collected window now none = none
collected window now (some b) = if is_live window now b then some b else none

-- One sweep of gc.
unfoldable pub gc : Time → Limiter → Limiter
gc now l = record l { buckets = λ key. collected l.window now (l.buckets key) }

-- remoteIP, with the host of net.SplitHostPort (`none` is its error).
unfoldable pub remote_ip : (Bytes → Option Bytes) → Bytes → Bytes
remote_ip split_host_port addr =
    if is_empty addr then lit "unknown" else or_else (split_host_port addr) addr

unfoldable pub extract_key : (Bytes → Option Bytes) → Option User → Bytes → Bytes
unfolding remote_ip
extract_key split_host_port (some u) addr = lit "user:" ++ print_ℤ u.id
extract_key split_host_port none addr = lit "ip:" ++ remote_ip split_host_port addr
