-- ===== src/Lib.antt =====
-- tabby-sync: the configuration sync server for the Tabby terminal. A request runs through the
-- middleware chain (internal/server) and the rate limiter (internal/ratelimit) to one of six handlers
-- (internal/api), which call the encrypting wrapper (internal/store/encrypted), which seals with
-- internal/crypto and stores in SQLite (internal/store/sqlite). internal/auth turns a bearer token into
-- the user whose rows the handlers may touch.
--
-- Which file models what:
--   Store            internal/store/store.go: the data, the errors as a result type, the
--                    EncryptedStore interface as a record of operations.
--   Sqlite           internal/store/sqlite/sqlite.go: each method as a do block over Sqlite.Driver's
--                    monad, one `call` for each driver call that may fail. The table is the list of
--                    rows in rowid order and the AUTOINCREMENT counter.
--     Table          the rows, the statements on the table, the checks of inputs.
--     Frames         relations between the states before and after; the rules for each statement.
--     Operations     the methods as data, and their runs in any order by any users.
--     Isolation, Invariant, Healthy, Atomicity, CompareAndSet, Growth, Contract
--                    the proofs, by what they are about; Contract is about runs without a failing call.
--     Open           Open: the pragmas, and the modes of the files; Open.Modes its proofs.
--   Migrations       internal/store/sqlite/migrations.go: the file names and versions, the runner, the splitter.
--   Crypto           internal/crypto/crypto.go: labels, associated data, Encrypt, Decrypt. HKDF and
--                    AES-GCM are a record of functions, their documented laws a second record.
--   Encrypted        internal/store/encrypted/encrypted.go: the methods of the wrapper and the retry
--                    loop of UpdateConfigPlaintext.
--   Auth             internal/auth: LoadUsersFile, validateAndNormalise, newUserSnapshot,
--                    Reload, Lookup and Bearer.
--     Loading, Users, Complete, Snapshots, Trimming
--                    LoadUsersFile and Reload; validateAndNormalise and the snapshot, by what they are about.
--   Api              internal/api: the handlers over any EncryptedStore; Api.Hiding and Api.Quota take
--                    the SQLite store behind the wrapper.
--   Config           internal/config/config.go: Load.
--   Keys             internal/keys/env_provider.go: the master key of the environment.
--     File, Generation, Starts
--                    internal/keys/file_provider.go and LoadFromConfig: the key in a file, what a start
--                    leaves there, and rows of starts.
--   Files            the part of Go's os and path/filepath packages that Keys.File and Cli use: a disk
--                    by path, system calls with their fates, and the monad of code that makes them.
--   Cli.Atomic       internal/cli/usercmd.go: writeFileAtomic.
--   Cli.Users        internal/cli/usercmd.go: the user commands. A command is loading, a pure edit of
--                    the entries, and saving; Edits, Commands and Completes are about the whole,
--                    Entries, Fresh, Added, Removed and Rotated about the edit and the server's view of it.
--   Cli.Bootstrap    internal/cli/usercmd.go: runBootstrap.
--   Cli.Doctor       internal/cli/usercmd.go: runDoctor.
--   Cli.Init         internal/cli/usercmd.go: runInit.
--   Cli.Serve        internal/cli/cli.go: Run's dispatch and runServe, whose steps succeed, fail
--                    or panic; internal/server/server.go: Run.
--   Cli.Scrub        internal/cli/cli.go: scrubPaths, redactPath and parseLogLevel.
--   Ratelimit        internal/ratelimit/ratelimit.go: Allow, the sweeps, the bucket keys.
--   Server           internal/server: Chain, the middlewares and buildHandler around any mux.
--   Common           the library names and the lemmas that the others share.
--   Tests            sample data, and the theorems at concrete inputs.
--
-- How state and time are modelled. A driver call fails by an oracle on the number of the call, so
-- the theorems that quantify over the environment cover a failure at any call. A transaction that
-- fails is rolled back to its start; Sqlite.transaction is BeginTx, the block and Commit, so what
-- stands behind the block is outside the transaction. An instant is its nanoseconds; a timestamp
-- column is such an instant or a text that does not parse. What other connections commit between
-- the read and the write of a round of UpdateConfigPlaintext is a function on the state, for each
-- round, and so is what other requests commit between the count and the create of a POST. int64
-- values are integers; the AUTOINCREMENT counter stops at 2^63 - 1; uint64 wraps modulo 2^64.
--
-- A system call of Files succeeds, fails, or is the last one of the process, by a list of fates; a
-- write that fails or is cut off has written some of its bytes. So the theorems on the files that
-- quantify over the world cover an error and a crash at every call. Loss of power, which could undo a
-- write that was not synchronised, is not modelled. The path functions are those of clean paths, and
-- the directories of a path are not tracked beyond the last one. The text functions are those of ASCII.
--
-- Fuel. The retry loop is unbounded in the source; here it takes fuel, and Encrypted.Retry is about how
-- much is enough. The decimal printer takes one step per unit of the number plus one, which is enough
-- for its digits.
--
-- Not modelled: YAML and JSON syntax (a body is what the decoder reports of it), the settings of
-- http.Server, logging sinks, the contents of errors, memory zeroing, and what commands print.
-- yaml.v3 is a record of two functions, SHA-256 a parameter of 32-byte sums, and random bytes are
-- arguments. The IP and address parsing of package net and the routing of the mux are parameters.
-- The float64 tokens of the rate limiter are counted exactly, in parts of one token; a call whose
-- time is before the last one of its bucket (two calls that read the clock in the other order than
-- they take the lock) refills nothing here.
pub mod Common
pub mod Store
pub mod Sqlite
pub mod Crypto
pub mod Encrypted
pub mod Auth
pub mod Api
pub mod Server
pub mod Ratelimit
pub mod Tests
pub mod Migrations
pub mod Config
pub mod Keys
pub mod Files
pub mod Cli
