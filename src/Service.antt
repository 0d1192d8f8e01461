-- ===== src/Service.antt =====
-- internal/application/service/payment_service.go: processing a payment, its announcement, and the
-- queries.
pub mod Coherence
pub mod Process
pub mod Goroutines
pub mod Queries
pub mod Announce
pub mod Ledger
pub mod Books
pub mod Exact
