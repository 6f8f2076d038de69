-- ===== src/SeatLocks.antt =====
-- The seat locks in Redis: booking-service/src/utils/distributedLock.js with its two Lua scripts, which
-- run alone. A key that has expired counts as absent. A lock's value is a number.
pub mod Ownership
pub mod Promises
mod Examples
use railway_booking_system.Base.{
  ℕ, ◌+◌, ◌*◌, Bool, true, false, ◌&&◌, ◌||◌, Option, none, some, List, [], ◌∷◌, ◌++◌, map, ltb,
  sort_by, ◌==◌, if◌then◌else◌,
}

-- booking:lock:seat:{scheduleId}:{seatId}, with :{fromSeq}:{toSeq} for a segment
pub data LockKey : Type 0 where
  seat_key : (schedule_id seat_id : ℕ) → LockKey
  segment_key : (schedule_id seat_id from_seq to_seq : ℕ) → LockKey

unfoldable pub same_lock : LockKey → LockKey → Bool
same_lock (seat_key a b) (seat_key c d) = a == c && b == d
same_lock (segment_key a b f t) (segment_key c d g u) = a == c && b == d && f == g && t == u
same_lock _ _ = false

pub record Entry : Type 0 where
  pub value : ℕ
  pub expires_at : ℕ

abbrev pub Store : Type 0
Store = LockKey → Option Entry

-- The entry that Redis sees at a time.
unfoldable pub unexpired : ℕ → Option Entry → Option Entry
unexpired now none = none
unexpired now (some e) = if ltb now e.expires_at then some e else none

unfoldable pub live : ℕ → Store → LockKey → Option Entry
unfolding unexpired
live now store key = unexpired now (store key)

unfoldable pub set : LockKey → Entry → Store → Store
unfolding same_lock
set key e store j = if same_lock key j then some e else store j

unfoldable pub del : LockKey → Store → Store
unfolding same_lock
del key store j = if same_lock key j then none else store j

unfoldable pub del_all : List LockKey → Store → Store
unfolding del
del_all [] store = store
del_all (key ∷ keys) store = del_all keys (del key store)

-- ACQUIRE_SCRIPT, with the keys that were acquired so far.
unfoldable pub acquire_keys :
    ℕ → Entry → List LockKey → (acquired : List LockKey) → Store → Bool × Store
unfolding live set del_all
acquire_keys now e [] acquired store = (true, store)
acquire_keys now e (key ∷ keys) acquired store = elim (live now store key) [
  | some _ ↦ (false, del_all acquired store)
  | none ↦ acquire_keys now e keys (acquired ++ key ∷ []) (set key e store)
]

-- RELEASE_SCRIPT, for its effect.
unfoldable pub release_keys : ℕ → (value : ℕ) → List LockKey → Store → Store
unfolding live del
release_keys now value [] store = store
release_keys now value (key ∷ keys) store = elim (live now store key) [
  | none ↦ release_keys now value keys store
  | some e ↦ release_keys now value keys (if e.value == value then del key store else store)
]

unfoldable pub lock_key : (schedule_id : ℕ) (from_seq to_seq : Option ℕ) (seat_id : ℕ) → LockKey
lock_key schedule_id (some f) (some t) seat_id =
    if f == 0 || t == 0 then seat_key schedule_id seat_id else segment_key schedule_id seat_id f t
lock_key schedule_id _ _ seat_id = seat_key schedule_id seat_id

unfoldable pub build_lock_keys :
    (schedule_id : ℕ) → List ℕ → (from_seq to_seq : Option ℕ) → List LockKey
unfolding lock_key sort_by
build_lock_keys schedule_id seat_ids from_seq to_seq =
    map (lock_key schedule_id from_seq to_seq) (sort_by (λ (n : ℕ). n) seat_ids)

-- The three functions; `up` says whether Redis answers. The value of a lock that was acquired is
-- returned, and none where it was not.
unfoldable pub acquire_seat_locks :
    (up : Bool) (now value ttl_seconds schedule_id : ℕ)
    → List ℕ
    → (from_seq to_seq : Option ℕ) → Store
    → Option ℕ × Store
unfolding build_lock_keys acquire_keys
acquire_seat_locks up now value ttl_seconds schedule_id seat_ids from_seq to_seq store =
    let e : Entry = record { value = value; expires_at = now + ttl_seconds * 1000 } in
    let r = acquire_keys now e (build_lock_keys schedule_id seat_ids from_seq to_seq) [] store in
    if up then (if r.0 then some value else none, r.1) else (none, store)

unfoldable pub release_seat_locks :
    (up : Bool) (now schedule_id : ℕ)
    → List ℕ
    → (value : Option ℕ) (from_seq to_seq : Option ℕ) → Store
    → Store
unfolding build_lock_keys release_keys
release_seat_locks up now schedule_id seat_ids none from_seq to_seq store = store
release_seat_locks up now schedule_id seat_ids (some value) from_seq to_seq store =
    if up
    then release_keys now value (build_lock_keys schedule_id seat_ids from_seq to_seq) store
    else store

unfoldable pub force_release_seat_locks :
    (up : Bool) (schedule_id : ℕ) → List ℕ → (from_seq to_seq : Option ℕ) → Store → Store
unfolding build_lock_keys del_all
force_release_seat_locks up schedule_id seat_ids from_seq to_seq store =
    if up then del_all (build_lock_keys schedule_id seat_ids from_seq to_seq) store else store
