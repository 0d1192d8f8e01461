-- ===== src/Scripts.antt =====
-- scripts: the two programs that seed customers, into Redis and into MySQL.
pub mod Seed
pub mod SeedMysql
