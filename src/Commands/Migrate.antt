-- ===== src/Commands/Migrate.antt =====
-- cmd/migrate/main.go: the migrations in one transaction. Of the schema, the versions in
-- `schema_migrations` are kept, if that table is there; a migration runs where its predecessor has
-- run and it has not. The files, the connection and the replies are parameters.
pub mod Stages
use p3_relay.Prelude.{
  ℕ, Bool, true, false, ◌&&◌, not, Option, none, some, List, [], ◌∷◌, ◌++◌, length, ltb, ◌==◌,
  if◌then◌else◌,
}
use p3_relay.Errors.{
  Error, Result, ok, err, failed, ensure, ◌>>=◌, ◌>>◌, Reply, fine, refused, lost,
}
use p3_relay.Postgres.Tls.{ConnConfig, configure_tls}
use p3_relay.Commands.{pending_paths}
use p3_relay.Commands.Startup.{Process, variable, found_or, trusted}

abbrev pub Schema : Type 0
Schema = Option (List ℕ)

-- `max(version)`, 0 of no row.
unfoldable pub latest : List ℕ → ℕ
latest [] = 0
latest (v ∷ versions) = let rest = latest versions in if ltb rest v then v else rest

unfoldable pub has_version : ℕ → List ℕ → Bool
has_version version [] = false
has_version version (v ∷ versions) =
    let rest = has_version version versions in if v == version then true else rest

abbrev pub table_version : Schema → Option ℕ
table_version none = none
table_version (some versions) = some (latest versions)

-- migrations/001_initial.sql creates the table; 002_sandbox.sql alters what it made.
unfoldable pub run_file : ℕ → Schema → Result Schema
run_file version none =
    if version == 1 then ok (some (1 ∷ [])) else err (failed "relation does not exist")
run_file version (some versions) =
    if version == 2 && has_version 1 versions && not (has_version 2 versions)
    then ok (some (versions ++ 2 ∷ []))
    else err (failed "relation already exists")

-- Whether the calls that may fail succeed: the connection, the transaction's statements, and for
-- each migration the reading of its file and its statement.
pub record Run : Type 0 where
  pub connects : Bool
  pub begins : Bool
  pub locks : Bool
  pub finds_table : Bool
  pub reads_version : Bool
  pub reads_file : ℕ → Bool
  pub runs_file : ℕ → Bool
  pub commit : Reply

-- The loop over the files.
unfoldable pub run_files : Run → List ℕ → Schema → Result Schema
run_files run [] schema = ok schema
run_files run (version ∷ versions) schema = do
  ensure (run.reads_file version) (failed "read file")
  ensure (run.runs_file version) (failed "run migration")
  next ← run_file version schema
  run_files run versions next

-- The version is asked for only where the table is there.
abbrev pub version_read : Run → Schema → Bool
version_read run none = true
version_read run (some versions) = run.reads_version

-- The transaction up to its commit.
unfoldable pub transaction : Run → Schema → Result Schema
transaction run schema = do
  ensure run.begins (failed "begin")
  ensure run.locks (failed "lock")
  ensure run.finds_table (failed "find table")
  ensure (version_read run schema) (failed "read version")
  versions ← pending_paths (table_version schema)
  run_files run versions schema

abbrev pub committed : Reply → Schema → Result Schema → Result (Unit {0}) × Schema
committed reply before (err e) = (err e, before)
committed fine before (ok after) = (ok tt, after)
committed refused before (ok after) = (err (failed "commit"), before)
committed lost before (ok after) = (err (failed "commit"), after)

-- `openMigrationConnection`.
unfoldable pub open_connection : Process → Run → Result ConnConfig
open_connection process run = do
  parsed ←
      found_or (process.parse_connection (variable process "RELAY_DATABASE_URL"))
        (failed "invalid database connection configuration")
  connection ← trusted (
      configure_tls process.decoders process.now parsed (record {
        ca_pem = variable process "RELAY_DATABASE_CA";
        required = variable process "RELAY_DATABASE_CA_REQUIRED";
      }))
  ensure run.connects (failed "connect")
  ok connection

abbrev pub connected : Run → Schema → Result ConnConfig → Result (Unit {0}) × Schema
connected run schema (err e) = (err e, schema)
connected run schema (ok connection) = committed run.commit schema (transaction run schema)

-- `migrate`.
unfoldable pub migrate : Process → Run → Schema → Result (Unit {0}) × Schema
unfolding open_connection transaction
migrate process run schema =
    if length (variable process "RELAY_DATABASE_URL") == 0
    then (err (failed "database URL required"), schema)
    else connected run schema (open_connection process run)

-- `main`'s exit status.
abbrev pub exit_status : Result (Unit {0}) → ℕ
exit_status (ok _) = 0
exit_status (err e) = 1
