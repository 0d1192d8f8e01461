-- ===== src/Env.antt =====
-- What the service does not implement: MySQL behind gorm, Redis, the clock and the generator of
-- UUIDs. Their states are abstract; `tables` and `entries` are what they hold. Each call may fail.
pub mod Database
pub mod Columns
pub mod Store
use gigmile_test.Prelude.{ℕ, String, Bool}
use gigmile_test.Domain.Time.{Time}
use gigmile_test.Env.Database.{Sql}
use gigmile_test.Env.Store.{Redis}

pub record Env : Type 1 where
  pub sql : Sql
  pub redis : Redis
  -- the n-th value that `time.Now()` and `uuid.New().String()` return
  pub time_at : ℕ → Time
  pub uuid_at : ℕ → String
  -- whether the service was given an event publisher
  pub has_publisher : Bool
