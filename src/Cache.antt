-- ===== src/Cache.antt =====
-- internal/infrastructure/repository/redis: customers and payments in Redis.
pub mod Keys
pub mod Customers
pub mod Payments
pub mod UpdateBalance
