-- ===== src/Server/Http.antt =====
-- net/http as internal/server uses it: a request, what a request has produced so far, handlers that
-- return or panic, and middlewares.
use tabby_sync.Common.{
  ℕ, Bytes, bytes_eq, Option, none, some, List, [], ◌∷◌, ◌++◌, if◌then◌else◌, is_some,
}
use tabby_sync.Auth.{User}

-- r.Body: nil, a body that reads to its end, or one whose reading fails.
pub data RequestBody : Type 0 where
  absent : RequestBody
  readable : Bytes → RequestBody
  broken : RequestBody

-- The parts of a request that the middlewares use; a header that is not there is the empty text.
-- `user` and `request_id` are the values on its context.
pub record Request : Type 0 where
  pub method : Bytes
  pub path : Bytes
  pub remote_addr : Bytes
  pub authorization : Bytes
  pub x_request_id : Bytes
  pub x_forwarded_for : Bytes
  pub body : RequestBody
  pub user : Option User
  pub request_id : Bytes

-- A log line of the chain, by its message.
pub data Line : Type 0 where
  http_access : (status : ℕ) (bytes : ℕ) (remote_ip : Bytes) (request_id : Bytes) → Line
  panic_recovered : (request_id : Bytes) → Line
  authorized : Bytes → Line
  unauthorized : Line
  rate_limit_exceeded : Line

abbrev pub Headers : Type 0
Headers = List (Bytes × Bytes)

-- The header map, what WriteHeader sent (the status and the headers at that time), the body, and
-- the log lines.
pub record Output : Type 0 where
  pub headers : Headers
  pub sent : Option (ℕ × Headers)
  pub body : Bytes
  pub log : List Line

-- A value that a handler panics with: http.ErrAbortHandler or another.
pub data Panic : Type 0 where
  abort_handler other : Panic

pub data Outcome (S : Type 0) : Type 0 where
  returned : Output → S → Outcome S
  panicked : Panic → Output → S → Outcome S

-- `S` is the state that requests share.
abbrev pub Handler : Type 0 → Type 0
Handler S = Request → Output → S → Outcome S

abbrev pub Middleware : Type 0 → Type 0
Middleware S = Handler S → Handler S

unfoldable pub remove_header : Bytes → Headers → Headers
remove_header name [] = []
remove_header name (h ∷ hs) =
    let rest = remove_header name hs in if bytes_eq h.0 name then rest else h ∷ rest

-- w.Header().Set
unfoldable pub set_header : Bytes → Bytes → Output → Output
unfolding remove_header
set_header name value out = record out { headers = (name, value) ∷ remove_header name out.headers }

-- w.WriteHeader: only the first call has an effect.
unfoldable pub write_header : ℕ → Output → Output
write_header status out =
    if is_some out.sent then out else record out { sent = some (status, out.headers) }

-- w.Write: a status of 200, if none was written.
unfoldable pub write : Bytes → Output → Output
unfolding write_header
write bytes out = let begun = write_header 200 out in record begun { body = begun.body ++ bytes }

abbrev pub log_line : Line → Output → Output
log_line line out = record out { log = out.log ++ line ∷ [] }

-- The status that the recorder has: 200 if nothing was written.
unfoldable pub recorded_status : Output → ℕ
recorded_status out = elim out.sent [ none ↦ 200 | some s ↦ s.0 ]

-- A new response.
abbrev pub fresh_output : Output
fresh_output = record { headers = []; sent = none; body = []; log = [] }
