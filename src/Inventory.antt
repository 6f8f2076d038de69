-- ===== src/Inventory.antt =====
-- inventory-service: the seats of every schedule, and who holds them for which part of the route.
pub mod Rows
pub mod Transaction
pub mod Aggregates
pub mod Selection
pub mod Lock
pub mod Unlock
pub mod Confirm
pub mod Cancel
pub mod Lifecycle
pub mod Filling
pub mod Query
pub mod Expiry
pub mod Retry
pub mod Invariant
pub mod Reachable
mod Examples
pub mod Activity
pub mod Summary
pub mod Expiring
pub mod Lasting
pub mod Granting
pub mod Delivery
pub mod Retrying
pub mod RoundTrip
