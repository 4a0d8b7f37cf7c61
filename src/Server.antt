-- ===== src/Server.antt =====
-- internal/server: the middleware chain around the mux.
pub mod Http
pub mod Gate
use tabby_sync.Common.{
  ℕ, ◌+◌, ◌^◌, ◌*◌, Bytes, lit, bytes_eq, is_empty, Bool, true, false, not, ◌&&◌, ◌||◌, Option,
  none, some, is_some, List, [], ◌∷◌, ◌++◌, length, ltb, leb, ◌==◌, if◌then◌else◌, all, or_else,
}
use tabby_sync.Auth.{User, bearer}
use tabby_sync.Auth.Text.{trim_space}
use Http.{
  RequestBody, absent, readable, broken, Request, Line, http_access, panic_recovered, authorized,
  unauthorized, rate_limit_exceeded, Output, Panic, abort_handler, other, Outcome, returned,
  panicked, Handler, Middleware, set_header, write_header, write, log_line, recorded_status,
  Headers,
}

-- The part of package net that the chain uses: the host of "host:port", whether a text is an IP
-- address, whether an address is in the trusted ranges, and JoinHostPort.
pub record Net : Type 0 where
  pub split_host_port : Bytes → Option Bytes
  pub is_ip : Bytes → Bool
  pub in_trusted_ranges : Bytes → Bool
  pub join_host_port : Bytes → Bytes → Bytes

-- Chain's loop, over the middlewares from the last to the first; a nil one is skipped.
unfoldable pub wrap : {S : Type 0} → Handler S → List (Option (Middleware S)) → Handler S
wrap h [] = h
wrap h (none ∷ mws) = wrap h mws
wrap h (some m ∷ mws) = wrap (m h) mws

unfoldable pub reversed : {A : Type 0} → List A → List A
reversed [] = []
reversed (x ∷ xs) = reversed xs ++ x ∷ []

unfoldable pub chain : {S : Type 0} → Handler S → List (Option (Middleware S)) → Handler S
unfolding wrap
chain h mws = wrap h (reversed mws)

unfoldable pub is_id_byte : ℕ → Bool
is_id_byte c =
    (leb b'A' c && leb c b'Z')
    || (leb b'a' c && leb c b'z')
    || (leb b'0' c && leb c b'9')
    || c == b'.'
    || c == b'_'
    || c == b'-'

-- requestIDPattern
unfoldable pub is_request_id : Bytes → Bool
unfolding is_id_byte
is_request_id s = not (is_empty s) && leb (length s) 64 && all is_id_byte s

-- The text before the first comma.
unfoldable pub leftmost : Bytes → Bytes
leftmost [] = []
leftmost (c ∷ s) = let rest = leftmost s in if c == b',' then [] else c ∷ rest

abbrev pub max_body_bytes : ℕ
max_body_bytes = 2 * 2 ^ 20

-- A response of the chain itself: its content type, its status and its text.
unfoldable pub respond_text : Bytes → ℕ → Bytes → Output → Output
respond_text content_type status text out =
    write text (write_header status (set_header (lit "Content-Type") content_type out))

abbrev pub plain : Bytes
plain = lit "text/plain; charset=utf-8"

abbrev pub json : Bytes
json = lit "application/json; charset=utf-8"

unfoldable pub healthz : {S : Type 0} → Handler S
unfolding respond_text
healthz r out s = returned (respond_text plain 200 (lit "ok\n") out) s

-- The headers that SecurityHeaders sets.
unfoldable pub secured : Output → Output
secured out = set_header (lit "X-Frame-Options") (lit "DENY") (
    set_header (lit "Content-Security-Policy") (lit "frame-ancestors 'none'") (
      set_header (lit "Cache-Control") (lit "no-store") (
        set_header (lit "Referrer-Policy") (lit "no-referrer")
          (set_header (lit "X-Content-Type-Options") (lit "nosniff") out))))

-- The headers that CORS sets.
unfoldable pub cors_headers : Output → Output
cors_headers out = set_header (lit "Access-Control-Max-Age") (lit "600") (
    set_header (lit "Access-Control-Allow-Headers")
      (lit "Authorization, Content-Type, X-Request-Id")
      (set_header (lit "Access-Control-Allow-Methods")
        (lit "GET, HEAD, POST, PATCH, PUT, DELETE, OPTIONS")
        (set_header (lit "Access-Control-Allow-Origin") (lit "*") out)))

-- isTrusted
unfoldable pub is_trusted : Net → Bytes → Bool
is_trusted net addr =
    let host = or_else (net.split_host_port addr) addr in
    net.is_ip host && net.in_trusted_ranges host

-- The address that the rest of the chain sees.
unfoldable pub client_addr : Net → Request → Bytes
unfolding is_trusted leftmost
client_addr net r =
    if is_empty r.x_forwarded_for || not (is_trusted net r.remote_addr)
    then r.remote_addr
    else (let client = trim_space (leftmost r.x_forwarded_for) in
        if net.is_ip client then net.join_host_port client (lit "0") else r.remote_addr)

-- remoteIP of the access log.
unfoldable pub remote_ip : Net → Bytes → Bytes
remote_ip net addr = if is_empty addr then [] else or_else (net.split_host_port addr) addr

unfoldable pub is_probe : Request → Bool
is_probe r =
    bytes_eq r.path (lit "/healthz")
    && (bytes_eq r.method (lit "GET") || bytes_eq r.method (lit "HEAD"))

module _ {S : Type 0} where
  unfoldable pub security_headers : Middleware S
  security_headers next r out s = next r (secured out) s

  unfoldable pub cors : Middleware S
  cors next r out s =
      let answered = next r (cors_headers out) s in
      if bytes_eq r.method (lit "OPTIONS")
      then returned (write_header 204 (cors_headers out)) s
      else answered

  unfoldable pub trusted_proxy : Net → Middleware S
  trusted_proxy net next r out s = next (record r { remote_addr = client_addr net r }) out s

  -- `fresh` is what newRequestID returns.
  unfoldable pub request_id : Bytes → Middleware S
  unfolding is_request_id
  request_id fresh next r out s =
      let id = if is_request_id r.x_request_id then r.x_request_id else fresh in
      next (record r { request_id = id }) (set_header (lit "X-Request-Id") id out) s

  unfoldable pub after_access : Net → Request → Outcome S → Outcome S
  after_access net r (returned out s) =
      returned
        (log_line
          (http_access (recorded_status out) (length out.body) (remote_ip net r.remote_addr)
            r.request_id)
          out)
        s
  after_access net r (panicked v out s) = panicked v out s

  unfoldable pub access_log : Net → Middleware S
  unfolding after_access
  access_log net next r out s = after_access net r (next r out s)

  unfoldable pub after_recover : Request → Outcome S → Outcome S
  after_recover r (returned out s) = returned out s
  after_recover r (panicked abort_handler out s) = panicked abort_handler out s
  after_recover r (panicked other out s) =
      let logged = log_line (panic_recovered r.request_id) out in
      returned
        (if is_some out.sent
          then logged
          else respond_text plain 500 (lit "internal server error\n") logged)
        s

  unfoldable pub recover : Middleware S
  unfolding after_recover
  recover next r out s = after_recover r (next r out s)

  unfoldable pub limit_body : ℕ → Middleware S
  limit_body limit next r out s = elim r.body [
    | absent ↦ next r out s
    | broken ↦ returned (respond_text plain 400 (lit "invalid request body\n") out) s
    | readable bytes ↦
        let answered = next r out s in
        if ltb limit (length bytes)
        then returned (respond_text plain 413 (lit "request body too large\n") out) s
        else answered
  ]

  -- Bearer, with the lookup of a snapshot as `authenticate`.
  unfoldable pub bearer_auth : (Bytes → Option User) → Middleware S
  bearer_auth authenticate next r out s = elim (authenticate r.authorization) [
    | none ↦
        returned
          (write (lit "{\"error\":\"unauthorized\"}\n") (
            write_header 401 (
              set_header (lit "WWW-Authenticate") (lit "Bearer realm=\"tabby-sync\"")
                (set_header (lit "Content-Type") json (log_line unauthorized out)))))
          s
    | some u ↦ next (record r { user = some u }) (log_line (authorized u.name) out) s
  ]

  unfoldable pub route_aware_auth : Middleware S → Middleware S
  unfolding is_probe
  route_aware_auth auth next r out s = if is_probe r then next r out s else auth next r out s

  -- ratelimit.Middleware, with Limiter.Allow as `allow`, extractKey as `key` and the window's
  -- seconds as `retry`.
  unfoldable pub rate_limit : (Bytes → S → Bool × S) → (Request → Bytes) → Bytes → Middleware S
  rate_limit allow key retry next r out s =
      let decided = allow (key r) s in
      let answered = next r out decided.1 in
      if decided.0
      then answered
      else returned
          (write (lit "{\"error\":\"rate limit exceeded\"}\n") (
            write_header 429 (
              set_header (lit "Retry-After") retry
                (set_header (lit "Content-Type") json (log_line rate_limit_exceeded out)))))
          decided.1

  -- buildHandler; a nil limiter is `none`.
  unfoldable pub build_handler :
      Net → Bytes → Middleware S → Option (Middleware S) → Handler S → Handler S
  build_handler net fresh auth limiter mux = chain mux (
      some security_headers
      ∷ some cors
      ∷ some (trusted_proxy net)
      ∷ some (request_id fresh)
      ∷ some (access_log net)
      ∷ some recover
      ∷ some (limit_body max_body_bytes)
      ∷ some (route_aware_auth auth)
      ∷ limiter
      ∷ [])
