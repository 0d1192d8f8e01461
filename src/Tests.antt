-- ===== src/Tests.antt =====
-- Runs of the definitions and instances of the theorems at concrete inputs.
pub mod Fixtures
mod Domain
mod Payments
mod Texts
mod Stdlib
mod Goroutines
mod Http
mod Router
mod Scripts
mod Exact
mod Lua
mod Events
mod Config
mod Ledger
