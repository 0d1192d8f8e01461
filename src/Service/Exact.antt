-- ===== src/Service/Exact.antt =====
-- Where the database is in order and Redis knows no reference that the table does not: nothing is
-- charged that is not recorded.
pub mod Entries
pub mod Whole
pub mod Balance
