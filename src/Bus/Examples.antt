-- ===== src/Bus/Examples.antt =====
-- An entry and its deliveries.
use railway_booking_system.Base.{
  ℕ, ◌+◌, ◌≡◌, refl, ◌⊎◌, Option, some, [], ◌∷◌, ◌++◌, ◌==◌, if◌then◌else◌,
}
use railway_booking_system.Errors.{ok, err, Failure, type_error, database, unique_violation}
use railway_booking_system.Effects.{Act}
use railway_booking_system.Bus.{
  Entry, Cause, handler_failed, Group, letter, is_pending, turn, fields_to_object,
}
use railway_booking_system.Bus.Delivery.{delivery, reclaim, content_of, three_deliveries-settle}
use railway_booking_system.Bus.Poison.{poison-buried}

-- A handler that succeeds at the second call, and one that never does.
abbrev second_time : ℕ → Act ℕ (Unit {0})
second_time m calls = if calls == 0 then (err type_error, 1) else (ok tt, calls + 1)

abbrev never : ℕ → Act ℕ (Unit {0})
never m calls = (err type_error, calls + 1)

abbrev reads_all : ℕ → Option ℕ
reads_all text = some text

abbrev entry : Entry
entry = record { id = 5; fields = some (0 ∷ 77 ∷ []) }

abbrev quiet : Group ℕ
quiet = record { pending = record { id = 4; deliveries = 1 } ∷ []; dead_letters = []; state = 0 }

turns : turn reads_all second_time 9 [] (entry ∷ []) quiet ≡ record quiet {
  pending = record { id = 4; deliveries = 1 } ∷ record { id = 5; deliveries = 1 } ∷ [];
  state = 1;
}
unfolding turn
turns = refl

three_deliveries-settle_example :
    (let h =
        reclaim reads_all second_time 9 entry
          (reclaim reads_all second_time 9 entry (delivery reads_all second_time 9 entry quiet)) in
      (h.pending ≡ quiet.pending)
      × ((h.dead_letters ≡ quiet.dead_letters)
          ⊎ ((c : Cause) × (h.dead_letters
                ≡ quiet.dead_letters
                  ++ letter reads_all second_time 9 (content_of entry.fields) c ∷ []))))
unfolding is_pending
three_deliveries-settle_example =
    three_deliveries-settle reads_all second_time 9 entry quiet (refl, tt)

-- A handler that fails in every state, with another error at its third call.
abbrev error_at : ℕ → Failure
error_at calls = if calls == 2 then type_error else database unique_violation

abbrev refuses : ℕ → Act ℕ (Unit {0})
refuses m calls = (err (error_at calls), calls + 1)

poison-buried_example :
    (let h = reclaim reads_all refuses 9 entry (delivery reads_all refuses 9 entry quiet) in
      (h.pending ≡ quiet.pending ++ record { id = 5; deliveries = 2 } ∷ [])
      × (h.dead_letters ≡ quiet.dead_letters)
      × ((reclaim reads_all refuses 9 entry h).pending ≡ quiet.pending)
      × ((reclaim reads_all refuses 9 entry h).dead_letters
          ≡ quiet.dead_letters
            ++ letter reads_all refuses 9
                (fields_to_object (0 ∷ 77 ∷ []) 0)
                (handler_failed type_error)
              ∷ []))
unfolding is_pending fields_to_object
poison-buried_example =
    poison-buried reads_all refuses 9 entry 77 (0 ∷ 77 ∷ []) refl refl error_at (λ calls. refl)
      quiet (refl, tt)
