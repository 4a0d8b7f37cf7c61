-- ===== src/Cli/Serve.antt =====
-- The dispatch of Run and the course of runServe of internal/cli/cli.go, with Run of
-- internal/server/server.go: which resources are taken, in which order, and what becomes of them.
pub mod Resources
use tabby_sync.Common.{
  ℕ, Bytes, lit, bytes_eq, Bool, true, false, ◌||◌, List, [], ◌∷◌, ◌++◌, length, ltb, if◌then◌else◌,
  is_empty,
}
use tabby_sync.Cli.Users.{arg_at}
use tabby_sync.Files.{Ended, goes_on, returns, killed}
use tabby_sync.Auth.{User}
use tabby_sync.Auth.Loading.{LoadError}

-- What the process does to the world, in order.
pub data Event : Type 0 where
  store_opened store_closed listener_bound serve_started shutdown_begun : Event

-- How http.Server.Serve ends: with nil or http.ErrServerClosed, or with another error.
pub data ServeEnd : Type 0 where
  server_closed serve_error : ServeEnd

-- How http.Server.Shutdown ends.
pub data Shutdown : Type 0 where
  drained deadline_exceeded shutdown_error : Shutdown

-- The select of Run: Serve ends by itself, or the context is cancelled first; then Shutdown ends,
-- and Serve.
pub data Course : Type 0 where
  serve_ends : ServeEnd → Course
  cancelled : Shutdown → ServeEnd → Course

-- Run's error.
pub data RunEnd : Type 0 where
  no_error deadline other_error : RunEnd

abbrev pub after_serve : ServeEnd → RunEnd
after_serve server_closed = no_error
after_serve serve_error = other_error

-- server.Run
unfoldable pub server_run : Course → RunEnd × List Event
server_run (serve_ends e) = (after_serve e, serve_started ∷ [])
server_run (cancelled drained e) = (after_serve e, serve_started ∷ shutdown_begun ∷ [])
server_run (cancelled deadline_exceeded e) = (deadline, serve_started ∷ shutdown_begun ∷ [])
server_run (cancelled shutdown_error e) = (other_error, serve_started ∷ shutdown_begun ∷ [])

-- How one step of the start ends.
pub data Step : Type 0 where
  succeeds fails panics : Step

-- How the steps of a start end, the loading of the users file as auth.LoadUsersFile does, and the
-- course of the server behind them.
pub record Steps : Type 0 where
  pub config_loads : Step
  pub store_opens : Step
  pub users : Ended LoadError (List User)
  pub key_loads : Step
  pub store_wraps : Step
  pub listens : Step
  pub course : Course

-- Code of runServe, by its end and the events: it goes on, returns an exit code, or is ended by a
-- panic.
abbrev pub Act : Type 0 → Type 0
Act A = Ended ℕ A × List Event

infixl 5 ◌>>◌
abbrev pub ◌>>◌ : {A : Type 0} → Act (Unit {0}) → Act A → Act A
(goes_on u, es) >> k = (k.0, es ++ k.1)
(returns code, es) >> k = (returns code, es)
(killed, es) >> k = (killed, es)

abbrev pub emit : Event → Act (Unit {0})
emit e = (goes_on tt, e ∷ [])

-- `if err != nil { …; return code }`: the events before that return.
abbrev pub or_exit : List Event → ℕ → Step → Act (Unit {0})
or_exit es code succeeds = (goes_on tt, [])
or_exit es code fails = (returns code, es)
or_exit es code panics = (killed, [])

abbrev pub loading : Ended LoadError (List User) → Step
loading (goes_on us) = succeeds
loading (returns e) = fails
loading killed = panics

-- `defer`: the event comes last, after a panic too.
abbrev pub deferred : {A : Type 0} → Event → Act A → Act A
deferred e m = (m.0, m.1 ++ e ∷ [])

abbrev pub exits : RunEnd → Ended ℕ (Unit {0})
exits no_error = goes_on tt
exits deadline = returns 1
exits other_error = returns 1

-- With the store wrapped: the listener, and the server's run.
unfoldable pub serve_wrapped : Step → Course → Act (Unit {0})
unfolding server_run
serve_wrapped listens c =
    or_exit [] 1 listens >> emit listener_bound >> (exits (server_run c).0, (server_run c).1)

-- runServe. Before the store is wrapped, each early return closes it; from then on a deferred call.
unfoldable pub run_serve : Steps → Act (Unit {0})
unfolding serve_wrapped
run_serve s =
    or_exit [] 2 s.config_loads
    >> or_exit [] 1 s.store_opens
    >> emit store_opened
    >> or_exit (store_closed ∷ []) 1 (loading s.users)
    >> or_exit (store_closed ∷ []) 1 s.key_loads
    >> or_exit (store_closed ∷ []) 1 s.store_wraps
    >> deferred store_closed (serve_wrapped s.listens s.course)

pub data Command : Type 0 where
  print_usage print_version serve bootstrap init user doctor unknown_command : Command

-- The switch of Run.
unfoldable pub dispatch : List Bytes → Command
unfolding lit
dispatch args =
    let cmd = arg_at 1 args in
    if is_empty cmd
      || bytes_eq cmd (lit "help")
      || bytes_eq cmd (lit "-h")
      || bytes_eq cmd (lit "--help")
    then print_usage
    else if bytes_eq cmd (lit "version")
    then print_version
    else if bytes_eq cmd (lit "serve")
    then serve
    else if bytes_eq cmd (lit "bootstrap")
    then bootstrap
    else if bytes_eq cmd (lit "init")
    then init
    else if bytes_eq cmd (lit "user")
    then user
    else if bytes_eq cmd (lit "doctor")
    then doctor
    else unknown_command
