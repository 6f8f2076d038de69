-- ===== src/Payment.antt =====
-- payment-service: payment orders, their capture by webhook or by verification, and refunds.
pub mod Rows
pub mod Orders
pub mod Capture
pub mod Refunds
pub mod Invariant
pub mod Replay
pub mod Reachable
mod Examples
