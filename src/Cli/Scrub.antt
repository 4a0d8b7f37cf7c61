-- ===== src/Cli/Scrub.antt =====
-- What internal/cli/cli.go does to texts before it logs them: redactPath, scrubPaths, parseLogLevel,
-- and strings.ReplaceAll as it uses it.
pub mod Secrets
use tabby_sync.Common.{
  ℕ, zero, suc, ◌-◌, ◌==◌, Bytes, lit, bytes_eq, is_empty, Bool, true, false, ◌&&◌, ◌||◌, List, [],
  ◌∷◌, ◌++◌, length, ltb, if◌then◌else◌,
}
use tabby_sync.Auth.Text.{to_lower}

-- strings.HasPrefix(s, p)
unfoldable pub has_prefix : Bytes → Bytes → Bool
has_prefix [] s = true
has_prefix (c ∷ p) [] = false
has_prefix (c ∷ p) (d ∷ s) = c == d && has_prefix p s

-- strings.Contains(s, p)
unfoldable pub has_substring : Bytes → Bytes → Bool
unfolding has_prefix
has_substring p [] = has_prefix p []
has_substring p (c ∷ s) = has_prefix p (c ∷ s) || has_substring p s

-- The text from here on, of which `skip` bytes belong to an occurrence that has been replaced.
unfoldable pub replace_from : Bytes → Bytes → ℕ → Bytes → Bytes
unfolding has_prefix
replace_from old new skip [] = []
replace_from old new (suc skip) (c ∷ s) = replace_from old new skip s
replace_from old new zero (c ∷ s) =
    if has_prefix old (c ∷ s)
    then new ++ replace_from old new (length old - 1) s
    else c ∷ replace_from old new 0 s

-- strings.ReplaceAll, for an `old` that is not empty.
unfoldable pub replace_all : Bytes → Bytes → Bytes → Bytes
unfolding replace_from
replace_all s old new = replace_from old new 0 s

unfoldable pub redacted : Bytes
unfolding lit
redacted = lit "<redacted>"

unfoldable pub insert_by_length : Bytes → List Bytes → List Bytes
insert_by_length s [] = s ∷ []
insert_by_length s (t ∷ ts) =
    let rest = insert_by_length s ts in if ltb (length s) (length t) then t ∷ rest else s ∷ t ∷ ts

-- sort.Slice by descending length. It leaves open how equally long texts stand.
unfoldable pub longest_first : List Bytes → List Bytes
unfolding insert_by_length
longest_first [] = []
longest_first (s ∷ ss) = insert_by_length s (longest_first ss)

unfoldable pub replace_each : Bytes → List Bytes → Bytes
unfolding replace_all redacted
replace_each msg [] = msg
replace_each msg (s ∷ ss) = replace_each (if is_empty s then msg else replace_all msg s redacted) ss

unfoldable pub scrub_paths : Bytes → List Bytes → Bytes
unfolding replace_each longest_first
scrub_paths msg secrets = replace_each msg (longest_first secrets)

unfoldable pub redact_path : Bytes → Bytes
unfolding lit
redact_path v = if is_empty v then lit "<unset>" else lit "<set>"

pub data Level : Type 0 where
  level_error level_warn level_debug level_info : Level

unfoldable pub parse_log_level : Bytes → Level
unfolding to_lower lit
parse_log_level s =
    let l = to_lower s in
    if bytes_eq l (lit "error")
    then level_error
    else if bytes_eq l (lit "warn")
    then level_warn
    else if bytes_eq l (lit "debug")
    then level_debug
    else if bytes_eq l (lit "info")
    then level_info
    else level_info
