-- ===== src/Booking.antt =====
-- The bookings and their saga: booking-service/src/services/booking.service.js and saga.service.js,
-- and booking-service/src/utils/bookingExpiry.js. The tables are those of
-- booking-service/prisma/schema.prisma.
pub mod Rows
pub mod Clients
pub mod Saga
pub mod Checks
pub mod Create
pub mod Picked
pub mod Frames
pub mod Reads
pub mod Listing
pub mod Payments
pub mod Outcome
pub mod Replay
pub mod Events
pub mod Interleaving
pub mod Compensation
mod Examples
mod CreateExamples
