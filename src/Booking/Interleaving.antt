-- ===== src/Booking/Interleaving.antt =====
-- Several processes work on one booking: each reads the row at some time and writes it later, when
-- others may have written it. The writes are those of booking-service/src/services/booking.service.js
-- after the booking was created, and of booking-service/src/utils/bookingExpiry.js.
use railway_booking_system.Base.{
  ℕ, suc, ◌≤◌, ◌≡◌, refl, sym, ◌∙◌, subst, ◌⊎◌, Bool, true, false, ◌&&◌, Option, List, [], ◌∷◌, All,
  All-mono, update_row, arith, ◌==◌, ==_iff, Bool-cases, inl, inr,
}
use railway_booking_system.Errors.{Failure}
use railway_booking_system.Booking.Rows.{
  BookingStatus, pending, seats_held, cancelling, payment_pending, confirming, confirmed, failed,
  cancelled, expired, is_one_of, same_status, Reason, Booking, booking_timeout, schedule_cancelled,
  confirm_failed, has_id, at_version, moved_to, closed_as,
}
use railway_booking_system.Booking.Events.{
  in_status, unchanged_in, or_payment_failed, unpaid, active,
}

pub data Among (b : Booking) : List Booking → Type 0 where
  newest : {past : List Booking} → Among b (b ∷ past)
  older : {c : Booking} {past : List Booking} → Among b past → Among b (c ∷ past)

-- One write of the row `r`, by a process that read the row `b` at some time in the past.
pub data Write (past : List Booking) (r : Booking) : Booking → Type 0 where
  claim_confirming :
      (b : Booking)
      → Among b past
      → same_status b.status payment_pending ≡ true
      → Write past r (update_row (at_version b.id b.version) (moved_to confirming) r)
  finish :
      (id : ℕ) → Write past r (update_row (in_status id (confirming ∷ [])) (moved_to confirmed) r)
  give_up :
      (id : ℕ) (e : Failure)
      → Write past r (
          update_row
            (in_status id (payment_pending ∷ confirming ∷ []))
            (closed_as failed (confirm_failed e))
            r)
  claim_failed :
      (b : Booking) (reason : Option ℕ)
      → Among b past
      → same_status b.status payment_pending ≡ true
      → Write past r
          (update_row (at_version b.id b.version) (closed_as failed (or_payment_failed reason)) r)
  claim_cancelled :
      (b : Booking)
      → Among b past
      → Write past r (update_row (unchanged_in b active) (closed_as cancelled schedule_cancelled) r)
  claim_expired :
      (b : Booking)
      → Among b past
      → Write past r (update_row (unchanged_in b unpaid) (closed_as expired booking_timeout) r)

-- The rows that the booking had since `createBooking` returned, the newest first.
pub data Trace : List Booking → Booking → Type 0 where
  created : (b : Booking) → Trace (b ∷ []) b
  next : {past : List Booking} {r s : Booking} → Trace past r → Write past r s → Trace (s ∷ past) s

-- A row that was read either has an older version or is the row.
abbrev pub IsCurrent : Booking → Booking → Type 0
IsCurrent r b = (b.version ≤ r.version) × (b.version ≡ r.version → b ≡ r)

abbrev pub Bumps : Booking → Booking → Type 0
Bumps r s = (s ≡ r) ⊎ (s.version ≡ suc r.version)

update_row-Bumps :
    (p : Booking → Bool) (f : Booking → Booking) (r : Booking)
    → (f r).version ≡ suc r.version
    → Bumps r (update_row p f r)
update_row-Bumps p f r h = elim (Bool-cases (p r)) [
  | inl e ↦ rw e (inr h)
  | inr e ↦ rw e (inl refl)
]

moved-Bumps :
    (p : Booking → Bool) (st : BookingStatus) (r : Booking) → Bumps r (update_row p (moved_to st) r)
unfolding moved_to
moved-Bumps p st r = update_row-Bumps p (moved_to st) r refl

closed-Bumps :
    (p : Booking → Bool) (st : BookingStatus) (reason : Reason) (r : Booking)
    → Bumps r (update_row p (closed_as st reason) r)
unfolding closed_as
closed-Bumps p st reason r = update_row-Bumps p (closed_as st reason) r refl

Write-Bumps : {past : List Booking} {r s : Booking} → Write past r s → Bumps r s
Write-Bumps {past} {r} (claim_confirming b _ _) =
    moved-Bumps (at_version b.id b.version) confirming r
Write-Bumps {past} {r} (finish id) = moved-Bumps (in_status id (confirming ∷ [])) confirmed r
Write-Bumps {past} {r} (give_up id e) =
    closed-Bumps (in_status id (payment_pending ∷ confirming ∷ [])) failed (confirm_failed e) r
Write-Bumps {past} {r} (claim_failed b reason _ _) =
    closed-Bumps (at_version b.id b.version) failed (or_payment_failed reason) r
Write-Bumps {past} {r} (claim_cancelled b _) =
    closed-Bumps (unchanged_in b active) cancelled schedule_cancelled r
Write-Bumps {past} {r} (claim_expired b _) =
    closed-Bumps (unchanged_in b unpaid) expired booking_timeout r

Bumps-IsCurrent : {r s : Booking} (b : Booking) → Bumps r s → IsCurrent r b → IsCurrent s b
Bumps-IsCurrent b (inl e) h = subst (λ t. IsCurrent t b) (sym e) h
Bumps-IsCurrent b (inr e) h = (omega arith, λ q. absurd (omega arith))

Trace-IsCurrent : {past : List Booking} {r : Booking} → Trace past r → All (IsCurrent r) past
Trace-IsCurrent (created b) = ((omega arith, λ _. refl), tt)
Trace-IsCurrent (next {past} {r} {s} t w) = (
  (omega arith, λ _. refl),
  All-mono (IsCurrent r) (IsCurrent s) past (λ b. Bumps-IsCurrent b (Write-Bumps w))
      (Trace-IsCurrent t),
)

All-Among :
    (P : Booking → Type 0) {b : Booking} {past : List Booking} → Among b past → All P past → P b
All-Among P newest h = h.0
All-Among P (older a) h = All-Among P a h.1

abbrev pub over : List BookingStatus
over = failed ∷ cancelled ∷ expired ∷ []

-- What an ended booking's status is not.
over-open :
    (st : BookingStatus)
    → is_one_of over st ≡ true
    → (same_status st payment_pending ≡ false)
      × (is_one_of (confirming ∷ []) st ≡ false)
      × (is_one_of (payment_pending ∷ confirming ∷ []) st ≡ false)
      × (is_one_of active st ≡ false)
      × (is_one_of unpaid st ≡ false)
unfolding is_one_of same_status
over-open failed h = (refl, refl, refl, refl, refl)
over-open cancelled h = (refl, refl, refl, refl, refl)
over-open expired h = (refl, refl, refl, refl, refl)
over-open pending h = ground (arith, h)
over-open seats_held h = ground (arith, h)
over-open payment_pending h = ground (arith, h)
over-open confirming h = ground (arith, h)
over-open confirmed h = ground (arith, h)
over-open cancelling h = ground (arith, h)

&&-off : (a b : Bool) → b ≡ false → (a && b) ≡ false
&&-off true b e = e
&&-off false b e = refl

update_row-out :
    (p : Booking → Bool) (f : Booking → Booking) (r : Booking) → p r ≡ false → update_row p f r ≡ r
update_row-out p f r e = rw e

no_claim :
    (b r : Booking)
    → IsCurrent r b
    → same_status b.status payment_pending ≡ true
    → same_status r.status payment_pending ≡ false
    → at_version b.id b.version r ≡ false
unfolding at_version has_id
no_claim b r c h k = elim (Bool-cases (r.version == b.version)) [
  | inl e ↦
      let q : b ≡ r = c.1 (sym ((==_iff r.version b.version).0 e)) in
      absurd (ground (arith, subst (λ t. same_status t.status payment_pending ≡ true) q h, k))
  | inr e ↦ &&-off (has_id b.id r) (r.version == b.version) e
]

Write-over :
    {past : List Booking} {r s : Booking}
    → All (IsCurrent r) past
    → is_one_of over r.status ≡ true
    → Write past r s
    → s ≡ r
unfolding in_status unchanged_in is_one_of has_id at_version
Write-over {past} {r} c h (claim_confirming b a k) =
    update_row-out (at_version b.id b.version) (moved_to confirming) r
      (no_claim b r (All-Among (IsCurrent r) a c) k (over-open r.status h).0)
Write-over {past} {r} c h (finish id) =
    update_row-out (in_status id (confirming ∷ [])) (moved_to confirmed) r
      (&&-off (r.id == id) (is_one_of (confirming ∷ []) r.status) (over-open r.status h).1)
Write-over {past} {r} c h (give_up id e) =
    update_row-out (in_status id (payment_pending ∷ confirming ∷ []))
      (closed_as failed (confirm_failed e)) r
      (&&-off (r.id == id) (is_one_of (payment_pending ∷ confirming ∷ []) r.status)
        (over-open r.status h).2)
Write-over {past} {r} c h (claim_failed b reason a k) =
    update_row-out (at_version b.id b.version) (closed_as failed (or_payment_failed reason)) r
      (no_claim b r (All-Among (IsCurrent r) a c) k (over-open r.status h).0)
Write-over {past} {r} c h (claim_cancelled b a) =
    update_row-out (unchanged_in b active) (closed_as cancelled schedule_cancelled) r
      (&&-off (at_version b.id b.version r) (is_one_of active r.status) (over-open r.status h).3)
Write-over {past} {r} c h (claim_expired b a) =
    update_row-out (unchanged_in b unpaid) (closed_as expired booking_timeout) r
      (&&-off (at_version b.id b.version r) (is_one_of unpaid r.status) (over-open r.status h).4)

abbrev IsFinal : Booking → Booking → Type 0
IsFinal r b = is_one_of over b.status ≡ true → r ≡ b

Trace-IsFinal : {past : List Booking} {r : Booking} → Trace past r → All (IsFinal r) past
Trace-IsFinal (created b) = (λ _. refl, tt)
Trace-IsFinal (next {past} {r} {s} t w) = (
  λ _. refl,
  All-mono (IsFinal r) (IsFinal s) past
      (λ b h o.
        let q = h o in
        Write-over (Trace-IsCurrent t) (subst (λ c. is_one_of over c.status ≡ true) (sym q) o) w
        ∙ q)
      (Trace-IsFinal t),
)

-- Whatever order the payment's events, the cancellation of the schedule and the expiry job write in,
-- each after it read the row at any time since createBooking returned: a row that the booking had
-- when it was FAILED, CANCELLED or EXPIRED is its row for ever.
pub Trace-ended_stays :
    (past : List Booking) (r b : Booking)
    → Trace past r
    → Among b past
    → is_one_of over b.status ≡ true
    → r ≡ b
Trace-ended_stays past r b t a = All-Among (IsFinal r) a (Trace-IsFinal t)

-- In every such order, a row that was read with the version that the booking has now is its row now, so
-- that a write that compares the version only writes what the process has decided on.
pub Trace-version_current :
    (past : List Booking) (r b : Booking)
    → Trace past r
    → Among b past
    → b.version ≡ r.version
    → b ≡ r
Trace-version_current past r b t a = (All-Among (IsCurrent r) a (Trace-IsCurrent t)).1
