-- ===== src/Server/Gate.antt =====
-- What reaches the mux, which panics escape, and what the access log says: buildHandler of
-- internal/server/server.go.
use tabby_sync.Common.{
  Bytes, lit, bytes_eq, true, false, Option, none, some, List, [], ◌∷◌, ◌++◌, ◌≡◌, refl, sym, ap,
  ◌∙◌, arith, length, ltb, if◌then◌else◌, Bool-cases, inl, inr, ◌⊎◌,
}
use tabby_sync.Auth.{User}
use tabby_sync.Server.Http.{
  readable, broken, Request, Line, http_access, Output, abort_handler, other, Outcome, returned,
  panicked, Handler, Middleware, recorded_status, write_header, set_header,
}
use tabby_sync.Server.{
  Net, wrap, reversed, chain, security_headers, cors, cors_headers, trusted_proxy, client_addr,
  request_id, is_request_id, access_log, after_access, recover, after_recover, limit_body,
  max_body_bytes, bearer_auth, is_probe, route_aware_auth, build_handler, remote_ip, secured,
}
use mathlib.Core.Path.{subst}

-- A middleware, or nothing for a nil one.
abbrev pub apply : {S : Type 0} → Option (Middleware S) → Handler S → Handler S
apply none h = h
apply (some m) h = m h

wrap-snoc :
    {S : Type 0} (h : Handler S) (mws : List (Option (Middleware S))) (m : Option (Middleware S))
    → wrap h (mws ++ m ∷ []) ≡ apply m (wrap h mws)
unfolding wrap
wrap-snoc h [] none = refl
wrap-snoc h [] (some m) = refl
wrap-snoc h (none ∷ mws) m = wrap-snoc h mws m
wrap-snoc h (some k ∷ mws) m = wrap-snoc (k h) mws m

-- The first middleware of Chain wraps the chain of the others, and a nil one is skipped.
pub chain-∷ :
    {S : Type 0} (h : Handler S) (m : Option (Middleware S)) (mws : List (Option (Middleware S)))
    → chain h (m ∷ mws) ≡ apply m (chain h mws)
unfolding chain reversed
chain-∷ h m mws = wrap-snoc h (reversed mws) m

-- A request that MaxBodyBytes or the authentication answers: a body that is too large or does not
-- read, or no probe and no accepted token.
abbrev pub IsBlocked : (Bytes → Option User) → Request → Type 0
IsBlocked authenticate r =
    (r.body ≡ broken)
    ⊎ (((bytes : Bytes) × (r.body ≡ readable bytes) × (ltb max_body_bytes (length bytes) ≡ true))
        ⊎ ((is_probe r ≡ false) × (authenticate r.authorization ≡ none)))

-- A panic that the server's own recovery has to handle is http.ErrAbortHandler.
abbrev OnlyAborts : {S : Type 0} → Outcome S → Type 0
OnlyAborts (returned out s) = Unit
OnlyAborts (panicked v out s) = v ≡ abort_handler

-- The last line logged is the access line, with what the recorder has, and the address and the id
-- of the request as the chain sees it.
abbrev pub EndsInAccess : {S : Type 0} → Net → Request → Bytes → Outcome S → Type 0
EndsInAccess net r id (panicked v out s) = v ≡ abort_handler
EndsInAccess net r id (returned out s) =
    (before : List Line) × (out.log
      ≡ before
        ++ http_access (recorded_status out) (length out.body) (remote_ip net (client_addr net r))
            id
          ∷ [])

-- The request as the inner part of the chain sees it.
abbrev pub id_of : Bytes → Request → Bytes
id_of fresh r = if is_request_id r.x_request_id then r.x_request_id else fresh

abbrev seen : Net → Bytes → Request → Request
seen net fresh r = record r { remote_addr = client_addr net r; request_id = id_of fresh r }

abbrev prepared : Bytes → Request → Output → Output
prepared fresh r out = set_header (lit "X-Request-Id") (id_of fresh r) (cors_headers (secured out))

module _ {S : Type 0} (net : Net) (fresh : Bytes) where
  -- The inner part of the chain, from MaxBodyBytes on.
  inner : Middleware S → Option (Middleware S) → Handler S → Handler S
  inner auth limiter mux = limit_body max_body_bytes (route_aware_auth auth (apply limiter mux))

  outer : Handler S → Handler S
  outer h =
      security_headers (cors (trusted_proxy net (request_id fresh (access_log net (recover h)))))

  build_handler-outer :
      (auth : Middleware S) (limiter : Option (Middleware S)) (mux : Handler S)
      → build_handler net fresh auth limiter mux ≡ outer (inner auth limiter mux)
  unfolding build_handler inner outer chain reversed wrap
  build_handler-outer auth none mux = refl
  build_handler-outer auth (some l) mux = refl

  -- A request that is no preflight.
  outer_run :
      (h : Handler S) (r : Request) (out : Output) (s : S)
      → bytes_eq r.method (lit "OPTIONS") ≡ false
      → outer h r out s
        ≡ after_access net
            (seen net fresh r)
            (after_recover (seen net fresh r) (h (seen net fresh r) (prepared fresh r out) s))
  unfolding outer security_headers cors trusted_proxy request_id access_log recover
  outer_run h r out s normal = ground (arith, normal)

  outer_preflight :
      (h : Handler S) (r : Request) (out : Output) (s : S)
      → bytes_eq r.method (lit "OPTIONS") ≡ true
      → outer h r out s ≡ returned (write_header 204 (cors_headers (secured out))) s
  unfolding outer security_headers cors
  outer_preflight h r out s preflight = ground (arith, preflight)

  inner_blocked :
      (authenticate : Bytes → Option User) (l k : Option (Middleware S)) (mux mux' : Handler S)
      (r : Request) (out : Output) (s : S)
      → IsBlocked authenticate r
      → inner (bearer_auth authenticate) l mux r out s
        ≡ inner (bearer_auth authenticate) k mux' r out s
  unfolding inner limit_body route_aware_auth bearer_auth
  inner_blocked a l k mux mux' r out s (inl e) = ground (arith, e)
  inner_blocked a l k mux mux' r out s (inr (inl (bytes, e, big))) = ground (arith, e, big)
  inner_blocked a l k mux mux' r out s (inr (inr (normal, refused))) =
      ground (arith, normal, refused)

  recover-OnlyAborts : (r : Request) (o : Outcome S) → OnlyAborts (after_recover r o)
  unfolding after_recover
  recover-OnlyAborts r (returned out s) = tt
  recover-OnlyAborts r (panicked abort_handler out s) = refl
  recover-OnlyAborts r (panicked other out s) = tt

  access-EndsInAccess :
      (r : Request) (o : Outcome S)
      → OnlyAborts o
      → EndsInAccess net r (id_of fresh r) (after_access net (seen net fresh r) o)
  unfolding after_access recorded_status
  access-EndsInAccess r (returned out s) h = (out.log, refl)
  access-EndsInAccess r (panicked v out s) h = h

-- A preflight, a request whose body is too large or does not read, and a request other than the
-- health probe that does not authenticate, each get the same outcome whatever the mux and the
-- limiter are: neither is reached.
pub build_handler-gate :
    {S : Type 0} (net : Net) (fresh : Bytes) (authenticate : Bytes → Option User)
    (l k : Option (Middleware S)) (mux mux' : Handler S) (r : Request) (out : Output) (s : S)
    → (bytes_eq r.method (lit "OPTIONS") ≡ true) ⊎ IsBlocked authenticate r
    → build_handler net fresh (bearer_auth authenticate) l mux r out s
      ≡ build_handler net fresh (bearer_auth authenticate) k mux' r out s
unfolding is_probe
build_handler-gate net fresh a l k mux mux' r out s h =
    ap (λ g. g r out s) (build_handler-outer net fresh (bearer_auth a) l mux)
    ∙ same h
    ∙ sym (ap (λ g. g r out s) (build_handler-outer net fresh (bearer_auth a) k mux'))
  where
    same :
        (bytes_eq r.method (lit "OPTIONS") ≡ true) ⊎ IsBlocked a r
        → outer net fresh (inner net fresh (bearer_auth a) l mux) r out s
          ≡ outer net fresh (inner net fresh (bearer_auth a) k mux') r out s
    same (inl preflight) =
        outer_preflight net fresh _ r out s preflight
        ∙ sym (outer_preflight net fresh _ r out s preflight)
    same (inr blocked) = elim (Bool-cases (bytes_eq r.method (lit "OPTIONS"))) [
      | inl preflight ↦
          outer_preflight net fresh _ r out s preflight
          ∙ sym (outer_preflight net fresh _ r out s preflight)
      | inr normal ↦
          outer_run net fresh _ r out s normal
          ∙ ap (λ o. after_access net (seen net fresh r) (after_recover (seen net fresh r) o))
              (inner_blocked net fresh a l k mux mux' (seen net fresh r) (prepared fresh r out) s
                blocked)
          ∙ sym (outer_run net fresh _ r out s normal)
    ]

-- For a request that is no preflight, either the chain panics with http.ErrAbortHandler, or it
-- returns and the last line logged is the access line, with the status of the response (200 if none
-- was written), its number of bytes, the client address that TrustedProxy found, and the request
-- id.
pub build_handler-EndsInAccess :
    {S : Type 0} (net : Net) (fresh : Bytes) (auth : Middleware S) (l : Option (Middleware S))
    (mux : Handler S) (r : Request) (out : Output) (s : S)
    → bytes_eq r.method (lit "OPTIONS") ≡ false
    → EndsInAccess net r (id_of fresh r) (build_handler net fresh auth l mux r out s)
build_handler-EndsInAccess net fresh auth l mux r out s normal =
    subst (EndsInAccess net r (id_of fresh r))
      (sym (
        ap (λ g. g r out s) (build_handler-outer net fresh auth l mux)
        ∙ outer_run net fresh (inner net fresh auth l mux) r out s normal))
      (access-EndsInAccess net fresh r _ (recover-OnlyAborts net fresh _ _))
