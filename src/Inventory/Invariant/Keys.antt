-- ===== src/Inventory/Invariant/Keys.antt =====
-- Keys under the writes of the seat operations.
use railway_booking_system.Base.{
  ℕ, ◌≤◌, ◌≡◌, Bool, List, arith, All-mono, All-update_where, All-delete_where,
  AllPairs-update_where, AllPairs-delete_where, update_where, update_row, delete_where, select,
  update_by_key,
}
use railway_booking_system.Inventory.Rows.{Seat, SegmentLock}
use railway_booking_system.Inventory.Selection.{has_pk}
use railway_booking_system.Inventory.Invariant.{IsKeyed, HasKeys}

-- A write that leaves a seat where it is.
abbrev pub KeepsPlace : (Seat → Seat) → Type 0
KeepsPlace f =
    (s : Seat)
    → ((f s).id ≡ s.id) × ((f s).schedule_id ≡ s.schedule_id) × ((f s).seat_id ≡ s.seat_id)

update_row-KeepsPlace :
    (p : Seat → Bool) (f : Seat → Seat) → KeepsPlace f → KeepsPlace (update_row p f)
update_row-KeepsPlace p f k s = ground (arith, k s)

pub update_where-IsKeyed :
    {n : ℕ} (p : Seat → Bool) (f : Seat → Seat) {seats : List Seat}
    → KeepsPlace f
    → IsKeyed n seats
    → IsKeyed n (update_where p f seats)
update_where-IsKeyed {n} p f {seats} k v = record {
  distinct =
      AllPairs-update_where _ p f seats (λ s t d e. d (ground (arith, row s, row t, e))) v.distinct;
  fresh = All-update_where _ _ p f seats (λ s h. ground (arith, row s)) v.fresh;
  places =
      AllPairs-update_where _ p f seats
        (λ s t d e. d (ground (arith, row s, row t, e.0), ground (arith, row s, row t, e.1)))
        v.places;
}
  where
    row : KeepsPlace (update_row p f)
    row = update_row-KeepsPlace p f k

pub IsKeyed-mono : {m n : ℕ} {seats : List Seat} → m ≤ n → IsKeyed m seats → IsKeyed n seats
IsKeyed-mono {m} {n} {seats} h v = record {
  distinct = v.distinct;
  fresh = All-mono _ _ seats (λ s b. omega arith) v.fresh;
  places = v.places;
}

-- The rows that were read are written again by their primary keys.
pub update_selected :
    {n : ℕ} (p : Seat → Bool) (f : Seat → Seat) {seats : List Seat}
    → IsKeyed n seats
    → update_where (has_pk (select p seats)) f seats ≡ update_where p f seats
update_selected p f {seats} v = update_by_key (λ (s : Seat). s.id) p f seats v.distinct

pub HasKeys-mono : {m n : ℕ} {locks : List SegmentLock} → m ≤ n → HasKeys m locks → HasKeys n locks
HasKeys-mono {m} {n} {locks} h v = record {
  distinct = v.distinct;
  fresh = All-mono _ _ locks (λ s b. omega arith) v.fresh;
}

pub delete_where-HasKeys :
    {n : ℕ} (p : SegmentLock → Bool) {locks : List SegmentLock}
    → HasKeys n locks
    → HasKeys n (delete_where p locks)
delete_where-HasKeys p {locks} v = record {
  distinct = AllPairs-delete_where _ p locks v.distinct;
  fresh = All-delete_where _ p locks v.fresh;
}

pub update_where-HasKeys :
    {n : ℕ} (p : SegmentLock → Bool) (f : SegmentLock → SegmentLock) {locks : List SegmentLock}
    → ((l : SegmentLock) → (f l).id ≡ l.id)
    → HasKeys n locks
    → HasKeys n (update_where p f locks)
update_where-HasKeys p f {locks} k v = record {
  distinct =
      AllPairs-update_where _ p f locks (λ s t d e. d (ground (arith, k s, k t, e))) v.distinct;
  fresh = All-update_where _ _ p f locks (λ s h. ground (arith, k s)) v.fresh;
}
