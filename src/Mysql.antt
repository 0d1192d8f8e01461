-- ===== src/Mysql.antt =====
-- internal/infrastructure/repository/mysql: the repositories over MySQL with Redis in front.
pub mod Duplicate
pub mod Customers
pub mod Payments
pub mod Up
