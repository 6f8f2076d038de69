-- ===== src/Inventory/Rows.antt =====
-- The tables of inventory-service (inventory-service/prisma/schema.prisma). Ids and names are
-- numbers that are only compared; a uuid is the next number that was not given out. Prices are in
-- the currency's smallest unit, times in milliseconds, and createdAt and updatedAt are left out.
use railway_booking_system.Base.{ℕ, ℤ, Bool, true, false, Option, List}

pub data SeatStatus : Type 0 where
  available locked booked cancelled : SeatStatus

unfoldable pub same_status : SeatStatus → SeatStatus → Bool
same_status available available = true
same_status locked locked = true
same_status booked booked = true
same_status cancelled cancelled = true
same_status _ _ = false

-- `status IN ('LOCKED', 'BOOKED')`
unfoldable pub is_active : SeatStatus → Bool
is_active locked = true
is_active booked = true
is_active _ = false

pub data ScheduleStatus : Type 0 where
  schedule_active schedule_cancelled : ScheduleStatus

unfoldable pub is_running : ScheduleStatus → Bool
is_running schedule_active = true
is_running schedule_cancelled = false

pub record Schedule : Type 0 where
  pub schedule_id : ℕ
  pub train_id : ℕ
  pub train_number : ℕ
  pub train_name : ℕ
  pub departure_date : ℕ
  pub total_seats : ℕ
  pub n_available : ℤ
  pub n_locked : ℤ
  pub n_booked : ℤ
  pub status : ScheduleStatus
  pub version : ℕ

pub record Seat : Type 0 where
  pub id : ℕ
  pub schedule_id : ℕ
  pub seat_id : ℕ
  pub seat_number : ℕ
  pub seat_type : ℕ
  pub price : ℕ
  pub status : SeatStatus
  pub locked_by : Option ℕ
  pub locked_at : Option ℕ
  pub lock_expires_at : Option ℕ
  pub booking_id : Option ℕ
  pub version : ℕ

pub record RouteStop : Type 0 where
  pub schedule_id : ℕ
  pub station_id : ℕ
  pub station_name : ℕ
  pub station_code : ℕ
  pub sequence_number : ℕ

-- A seat that is taken from stop `from_seq` to stop `to_seq`.
pub record SegmentLock : Type 0 where
  pub id : ℕ
  pub schedule_id : ℕ
  pub seat_id : ℕ
  pub from_seq : ℕ
  pub to_seq : ℕ
  pub status : SeatStatus
  pub locked_by : Option ℕ
  pub locked_at : Option ℕ
  pub lock_expires_at : Option ℕ
  pub booking_id : Option ℕ
  pub version : ℕ

-- The keys of the idempotency records.
pub data EventKey : Type 0 where
  created_event cancelled_event : ℕ → EventKey

pub record Db : Type 0 where
  pub schedules : List Schedule
  pub seats : List Seat
  pub segment_locks : List SegmentLock
  pub route_stops : List RouteStop
  pub processed : List EventKey
  pub next_id : ℕ
