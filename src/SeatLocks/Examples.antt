-- ===== src/SeatLocks/Examples.antt =====
-- Two seats, one of them held by somebody else.
use railway_booking_system.Base.{◌≡◌, refl, true, none, some, [], ◌∷◌, arith, if◌then◌else◌}
use railway_booking_system.SeatLocks.{
  LockKey, seat_key, Entry, Store, live, set, acquire_seat_locks, release_seat_locks,
}
use railway_booking_system.SeatLocks.Ownership.{among}
use railway_booking_system.SeatLocks.Promises.{
  keys, acquire_seat_locks-all_or_nothing, acquire-release, release_seat_locks-foreign,
}

abbrev theirs : Entry
theirs = record { value = 99; expires_at = 70000 }

abbrev empty : Store
empty _ = none

abbrev contended : Store
contended = set (seat_key 7 2) theirs empty

acquire_seat_locks-all_or_nothing_example :
    (let r = acquire_seat_locks true 1000 5 300 7 (2 ∷ 1 ∷ []) none none contended in
      (r.0 ≡ none → (j : LockKey) → live 1000 r.1 j ≡ live 1000 contended j)
      × (r.0 ≡ some 5
          → (j : LockKey)
          → r.1 j ≡ (
              if among j (keys true 1000 5 300 7 (2 ∷ 1 ∷ []) none none contended)
              then some (record { value = 5; expires_at = 301000 })
              else contended j)))
acquire_seat_locks-all_or_nothing_example =
    acquire_seat_locks-all_or_nothing true 1000 5 300 7 (2 ∷ 1 ∷ []) none none contended

acquire-release_example :
    live 1000
      (release_seat_locks true 1000 7
        (2 ∷ 1 ∷ [])
        (some 5)
        none
        none
        (acquire_seat_locks true 1000 5 300 7 (2 ∷ 1 ∷ []) none none empty).1)
      (seat_key 7 2)
    ≡ live 1000 empty (seat_key 7 2)
unfolding acquire_seat_locks
acquire-release_example =
    acquire-release true 1000 5 300 7 (2 ∷ 1 ∷ []) none none empty (omega arith) refl (seat_key 7 2)

release_seat_locks-foreign_example :
    release_seat_locks true 1000 7 (2 ∷ 1 ∷ []) (some 5) none none contended (seat_key 7 2)
    ≡ some theirs
unfolding set
release_seat_locks-foreign_example =
    release_seat_locks-foreign true 1000 7 (2 ∷ 1 ∷ []) 5 none none contended (seat_key 7 2) theirs
      refl (λ e. omega arith)
