-- ===== src/Cli.antt =====
-- internal/cli: the command line. The commands of usercmd.go that change files are in the children
-- named for what they write; a command is code that goes on to exit code 0 or returns another one.
pub mod Atomic
pub mod Users
pub mod Bootstrap
pub mod Scrub
pub mod Init
pub mod Serve
pub mod Doctor
