-- ===== src/Commands.antt =====
-- The commands' own logic: cmd/migrate/main.go chooses the migrations, cmd/worker/main.go schedules
-- the cleanups, cmd/receiver/main.go answers as a simulated receiver. The processes stand in the
-- children.
pub mod Cycles
pub mod Startup
pub mod Api
pub mod Worker
pub mod Migrate
use p3_relay.Prelude.{
  ℕ, zero, suc, ◌+◌, ◌*◌, Bool, true, false, ◌&&◌, ◌||◌, not, Option, none, some, List, [], ◌∷◌,
  Bytes, bytes_eq, codes, length, leb, ltb, if◌then◌else◌, drop,
}
use p3_relay.Errors.{Error, Result, ok, err, failed}
use p3_relay.Decimal.{parse_uint}
use p3_relay.Delivery.{second, minute}

-- The migrations in their order, by their number.
abbrev pub migration_paths : List ℕ
migration_paths = 1 ∷ 2 ∷ []

-- The version that the table holds, if the table is there.
abbrev pub version_of : Option ℕ → ℕ
version_of none = 0
version_of (some version) = version

-- The loop of `migrate`, which skips the migrations below the version.
unfoldable pub pending_paths : Option ℕ → Result (List ℕ)
pending_paths table =
    if ltb (length migration_paths) (version_of table)
    then err (failed "unsupported migration version")
    else ok (drop (version_of table) migration_paths)

-- `main_cycles`, at the instants at which its rounds start: the instants of the cleanups.
unfoldable pub cleanups : ℕ → List ℕ → List ℕ
cleanups due [] = []
cleanups due (now ∷ rounds) =
    let later = cleanups (now + minute) rounds in
    let same = cleanups due rounds in if leb due now then now ∷ later else same

-- `events_post` of the simulated receiver, with the query's scenario.
abbrev pub simulated : Bytes → Option ℕ → ℕ
simulated scenario none = 400
simulated scenario (some attempt) =
    if bytes_eq scenario (codes "temporary_failure") && ltb attempt 3
    then 503
    else if bytes_eq scenario (codes "permanent_failure")
    then 422
    else 204

unfoldable pub simulated_post : Bytes → Bytes → Bool → Bytes → ℕ
simulated_post scenario content fails attempt =
    if fails || ltb 262144 (length content)
    then 400
    else simulated scenario (parse_uint 256 attempt)

-- The server of the simulated receiver.
pub record ReceiverServer : Type 0 where
  pub address : Bytes
  pub pattern : Bytes
  pub read_header_timeout : ℕ
  pub read_timeout : ℕ
  pub write_timeout : ℕ
  pub idle_timeout : ℕ
  pub max_header_bytes : ℕ

abbrev pub receiver_server : ReceiverServer
receiver_server = record {
  address = codes ":9090";
  pattern = codes "POST /events";
  read_header_timeout = 5 * second;
  read_timeout = 10 * second;
  write_timeout = 10 * second;
  idle_timeout = 60 * second;
  max_header_bytes = 16 * 1024;
}
