-- ===== src/Tests/Server.antt =====
-- Examples of the theorems on the server's chain, the rate limiter and the migrations.
use tabby_sync.Store.{ok}
use tabby_sync.Migrations.{
  Migration, Schema, load_migrations, apply_migrations, apply_pending, apply_migration,
  run_statements, is_applied, split_sql_statements, DirEntry,
}
use tabby_sync.Auth.Text.{trim_space}
use tabby_sync.Migrations.Pending.{pending}
use tabby_sync.Migrations.Runner.{Progress, apply_migrations-Progress, apply_migrations-again}
use tabby_sync.Common.{
  ℕ, ◌+◌, ◌-◌, ◌*◌, ◌≤◌, pos, Bytes, lit, bytes_eq, none, Option, List, [], ◌∷◌, ◌++◌, ◌≡◌, refl,
  arith, true, false, inr, Bool, some, all,
}
use tabby_sync.Auth.{User}
use tabby_sync.Server.Http.{Request, readable, fresh_output, returned, Handler}
use tabby_sync.Server.{Net, build_handler, bearer_auth, healthz, is_probe}
use tabby_sync.Server.Gate.{build_handler-gate}
use tabby_sync.Ratelimit.{Limiter, allow, gc}
use tabby_sync.Ratelimit.Burst.{Event, request, sweep, passed, passed_bound, allow-gc}

abbrev plain_net : Net
plain_net = record {
  split_host_port = λ addr. none;
  is_ip = λ addr. true;
  in_trusted_ranges = λ addr. false;
  join_host_port = λ host port. host ++ port;
}

abbrev sample_request : Request
sample_request = record {
  method = lit "POST";
  path = lit "/api/1/configs";
  remote_addr = lit "10.0.0.1";
  authorization = [];
  x_request_id = lit "id-1";
  x_forwarded_for = [];
  body = readable (lit "{}");
  user = none;
  request_id = [];
}

abbrev nobody : Bytes → Option User
nobody authz = none

abbrev silent : Handler ℕ
silent r out s = returned out s

build_handler-gate_example :
    build_handler plain_net
      (lit "new")
      (bearer_auth nobody)
      none
      silent
      sample_request
      fresh_output
      0
    ≡ build_handler plain_net
        (lit "new")
        (bearer_auth nobody)
        none
        healthz
        sample_request
        fresh_output
        0
build_handler-gate_example =
    build_handler-gate plain_net (lit "new") nobody none none silent healthz sample_request
      fresh_output 0 (inr (inr (inr (unfold is_probe bytes_eq lit in refl, refl))))

abbrev events : List (ℕ × Event)
events =
    (10, request (lit "a")) ∷ (20, request (lit "b")) ∷ (30, sweep) ∷ (40, request (lit "a")) ∷ []

abbrev sample_limiter : Limiter
sample_limiter = record { rate = 1; window = 1000000000; buckets = λ key. none }

passed_bound_example :
    passed (lit "a") events sample_limiter * 1000000000 ≤ 1 * 1000000000 + (50 - 5) * 1
passed_bound_example =
    passed_bound (lit "a") events 5 50 sample_limiter refl
      (omega arith, (omega arith, (omega arith, (omega arith, omega arith))))

allow-gc_example :
    (allow 40 (lit "a") (gc 30 sample_limiter)).0 ≡ (allow 40 (lit "a") sample_limiter).0
allow-gc_example = allow-gc 30 40 (lit "a") sample_limiter (omega arith) tt

abbrev alice : User
alice = record {
  id = pos 1;
  name = lit "alice";
  token_prefix = [];
  token_hash = [];
  disabled = false;
}

abbrev bob : User
bob = record alice { id = pos 2 }

abbrev init : Migration
init = record { version = 1; name = lit "init"; sql = lit "A;B;" }

-- In the other order than the directory's.
abbrev files : Option (List DirEntry)
files = some (
    record { is_dir = false; name = lit "002_c.sql"; body = some (lit "C") }
    ∷ record { is_dir = false; name = lit "001_init.sql"; body = some (lit "A;B;") }
    ∷ [])

abbrev sorted : List Migration
sorted = init ∷ record init { version = 2; name = lit "c"; sql = lit "C" } ∷ []

abbrev empty_schema : Schema
empty_schema = record { applied = []; executed = []; calls = 0 }

loads : load_migrations files ≡ ok sorted
unfolding load_migrations all bytes_eq
loads = refl

abbrev never : ℕ → Bool
never n = false

apply_migrations-Progress_example :
    Progress
      (pending [] sorted)
      (apply_migrations never files empty_schema).0
      empty_schema
      (apply_migrations never files empty_schema).1
apply_migrations-Progress_example = apply_migrations-Progress never files sorted empty_schema loads

succeeds : (apply_migrations never files empty_schema).0 ≡ ok tt
unfolding apply_migrations apply_pending apply_migration run_statements is_applied
    split_sql_statements lit trim_space all bytes_eq
succeeds = refl

apply_migrations-again_example :
    let after = (apply_migrations never files empty_schema).1 in
    ((apply_migrations never files after).1.applied ≡ after.applied)
    × ((apply_migrations never files after).1.executed ≡ after.executed)
apply_migrations-again_example =
    apply_migrations-again never never files sorted empty_schema loads succeeds
