-- ===== src/Domain.antt =====
-- internal/domain: the customer, the payment, their errors and the event of a processed payment.
pub mod Errors
pub mod Time
pub mod Customer
pub mod Payment
