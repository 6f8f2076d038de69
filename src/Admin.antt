-- ===== src/Admin.antt =====
-- The trains, stations, schedules and the search of admin-service: admin-service/src/services.
pub mod Rows
pub mod Trains
pub mod Stations
pub mod Schedules
pub mod Search
pub mod Numbering
pub mod Way
pub mod Direction
mod Examples
