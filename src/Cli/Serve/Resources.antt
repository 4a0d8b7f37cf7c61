-- ===== src/Cli/Serve/Resources.antt =====
-- What runServe of internal/cli/cli.go takes and releases.
use tabby_sync.Common.{ℕ, ◌+◌, Bool, true, false, ◌&&◌, List, [], ◌∷◌, ◌≡◌, arith, ◌↔◌, is_empty}
use tabby_sync.Cli.Serve.{
  Event, store_opened, store_closed, listener_bound, Course, serve_ends, cancelled, server_closed,
  serve_error, drained, deadline_exceeded, shutdown_error, Steps, server_run, run_serve, Step,
  succeeds, fails, panics, loading, deferred, serve_wrapped,
}
use tabby_sync.Files.{goes_on}

-- How often the store is opened and closed, and whether the listener is bound.
abbrev pub opened : List Event → ℕ
opened [] = 0
opened (store_opened ∷ es) = 1 + opened es
opened (e ∷ es) = opened es

abbrev pub closed : List Event → ℕ
closed [] = 0
closed (store_closed ∷ es) = 1 + closed es
closed (e ∷ es) = closed es

abbrev pub binds : List Event → Bool
binds [] = false
binds (listener_bound ∷ es) = true
binds (e ∷ es) = binds es

abbrev pub has_succeeded : Step → Bool
has_succeeded succeeds = true
has_succeeded fails = false
has_succeeded panics = false

-- All steps of the start succeed.
abbrev pub starts_up : Steps → Bool
starts_up s =
    has_succeeded s.config_loads
    && has_succeeded s.store_opens
    && has_succeeded (loading s.users)
    && has_succeeded s.key_loads
    && has_succeeded s.store_wraps
    && has_succeeded s.listens

-- The first of the steps that does not succeed panics.
abbrev pub first_panics : List Step → Bool
first_panics [] = false
first_panics (succeeds ∷ ss) = first_panics ss
first_panics (fails ∷ ss) = false
first_panics (panics ∷ ss) = true

-- A panic between sqlite.Open and the deferred Close.
abbrev pub leaks : Steps → Bool
leaks s =
    has_succeeded s.config_loads
    && has_succeeded s.store_opens
    && first_panics (loading s.users ∷ s.key_loads ∷ s.store_wraps ∷ [])

-- No event follows the close.
abbrev pub ends_closed : List Event → Bool
ends_closed [] = true
ends_closed (store_closed ∷ es) = is_empty es
ends_closed (e ∷ es) = ends_closed es

-- The server ends without an error.
abbrev pub ends_well : Course → Bool
ends_well (serve_ends server_closed) = true
ends_well (serve_ends serve_error) = false
ends_well (cancelled drained server_closed) = true
ends_well (cancelled drained serve_error) = false
ends_well (cancelled deadline_exceeded e) = false
ends_well (cancelled shutdown_error e) = false

abbrev pub count_if : Bool → ℕ
count_if true = 1
count_if false = 0

-- From the wrapped store on.
wrapped :
    (listens : Step) (c : Course)
    → let (end, events) = deferred store_closed (serve_wrapped listens c) in
      (opened events ≡ 0)
      × (closed events ≡ 1)
      × (ends_closed events ≡ true)
      × (binds events ≡ has_succeeded listens)
      × ((end ≡ goes_on tt) ↔ ((has_succeeded listens ≡ true) × (ends_well c ≡ true)))
unfolding serve_wrapped server_run
wrapped fails c = ground arith
wrapped panics c = ground arith
wrapped succeeds (serve_ends server_closed) = ground arith
wrapped succeeds (serve_ends serve_error) = ground arith
wrapped succeeds (cancelled drained server_closed) = ground arith
wrapped succeeds (cancelled drained serve_error) = ground arith
wrapped succeeds (cancelled deadline_exceeded e) = ground arith
wrapped succeeds (cancelled shutdown_error e) = ground arith

-- However the steps of `serve`'s start end, by success, by an error or by a panic, and however the
-- server's run ends: the database is closed as often as it was opened, but for a panic between its
-- opening and the deferred Close, which leaves it open; nothing follows the close; the listener is
-- bound exactly if every step succeeds; and the exit code is 0 exactly if, besides, the server ends
-- without an error.
pub run_serve-Releases :
    (s : Steps)
    → let (end, events) = run_serve s in
      (opened events ≡ closed events + count_if (leaks s))
      × (ends_closed events ≡ true)
      × (binds events ≡ starts_up s)
      × ((end ≡ goes_on tt) ↔ ((starts_up s ≡ true) × (ends_well s.course ≡ true)))
unfolding run_serve
run_serve-Releases s = ground (arith, wrapped s.listens s.course)
