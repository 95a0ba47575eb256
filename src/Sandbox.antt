-- ===== src/Sandbox.antt =====
-- internal/sandbox: visitors' sessions, their quotas, and their own HTTP boundary.
pub mod Store
pub mod Session
pub mod Handlers
use p3_relay.Prelude.{ℕ, ◌*◌, Bool, ◌||◌, Option, Bytes, codes, bytes_eq}
use p3_relay.Postgres.{Db}

-- The single row of `sandbox_budget`. Instants are microseconds since the Unix epoch.
pub record Budget : Type 0 where
  pub window_start : ℕ
  pub sessions : ℕ
  pub admissions : ℕ

-- The tables that a sandbox transaction reads and writes; a missing budget row is `none`.
pub record Tables : Type 0 where
  pub db : Db
  pub budget : Option Budget

unfoldable pub valid_scenario : Bytes → Bool
valid_scenario value =
    bytes_eq value (codes "success")
    || (bytes_eq value (codes "temporary_failure") || bytes_eq value (codes "permanent_failure"))
