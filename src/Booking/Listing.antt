-- ===== src/Booking/Listing.antt =====
-- What the pages of `getUserBookings` list: booking-service/src/services/booking.service.js.
use railway_booking_system.Base.{
  newest_first, ℕ, zero, suc, ◌+◌, ◌-◌, ◌*◌, ◌/◌, ◌≤◌, ◌<◌, ◌≡◌, ◌≢◌, refl, Bool-cases, inl, inr,
  sym, ap, ◌∙◌, subst, take-add, take-all, arith, true, false, Option, none, some, List, [], ◌∷◌,
  ◌++◌, map, length, select, take, drop, &&-split, ==_iff, ◌==◌,
}
use mathlib.Core.List.{map-append, append_assoc, append-nil}
use native.Mathlib.Nat.{zero-mul}
use railway_booking_system.Errors.{ok, err}
use railway_booking_system.Booking.Rows.{BookingStatus, same_status, Booking, World}
use railway_booking_system.Booking.Reads.{
  BookingItem, list_item, is_listed, listed, page_count, Page, get_user_bookings,
}

-- The booking is in the status that is asked for, if one is.
pub data HasStatus (b : Booking) : Option BookingStatus → Type 0 where
  any_status : HasStatus b none
  that_status : HasStatus b (some b.status)

-- Another user's booking, or one in another status.
pub data IsPassedOver (user_id : ℕ) (b : Booking) : Option BookingStatus → Type 0 where
  foreign : {status : Option BookingStatus} → b.user_id ≢ user_id → IsPassedOver user_id b status
  elsewhere : (st : BookingStatus) → b.status ≢ st → IsPassedOver user_id b (some st)

-- What a user is shown of the table as it grows: a booking that is added later comes first.
pub data Shows (user_id : ℕ) (status : Option BookingStatus)
    : List Booking → List BookingItem → Type 0 where
  nothing : Shows user_id status [] []
  shown :
      {older : List Booking} {items : List BookingItem} (b : Booking)
      → b.user_id ≡ user_id
      → HasStatus b status
      → Shows user_id status older items
      → Shows user_id status (older ++ b ∷ []) (list_item b ∷ items)
  passed :
      {older : List Booking} {items : List BookingItem} (b : Booking)
      → IsPassedOver user_id b status
      → Shows user_id status older items
      → Shows user_id status (older ++ b ∷ []) items

same_status→eq : (a b : BookingStatus) → same_status a b ≡ true → a ≡ b
unfolding same_status
same_status→eq a b h = grind arith

same_status_refl : (a : BookingStatus) → same_status a a ≡ true
unfolding same_status
same_status_refl a = grind arith

-- The pages from the first on, one behind the other.
abbrev pub pages : ℕ → Option BookingStatus → ℕ → ℕ → World → List BookingItem
pages user_id status limit zero w = []
pages user_id status limit (suc n) w =
    pages user_id status limit n w
    ++ elim (get_user_bookings user_id status (suc n) limit w).0 [ ok p ↦ p.bookings | err _ ↦ [] ]

le_ceil : (t l : ℕ) → 0 < l → t ≤ (t + l - 1) / l * l
le_ceil t l h = grind arith

length-map_item : (rows : List Booking) → length (map list_item rows) ≡ length rows
length-map_item [] = refl
length-map_item (b ∷ rows) = ap suc (length-map_item rows)

one_more :
    (rows : List Booking) (b : Booking) (items : List BookingItem)
    → map list_item (rows ++ b ∷ []) ++ items ≡ map list_item rows ++ (list_item b ∷ items)
one_more rows b items =
    ap (λ l. l ++ items) (map-append list_item rows (b ∷ []))
    ∙ append_assoc (map list_item rows) (list_item b ∷ []) items

module _ (user_id : ℕ) where
  listed-HasStatus :
      (status : Option BookingStatus) (b : Booking)
      → is_listed user_id status b ≡ true
      → (b.user_id ≡ user_id) × HasStatus b status
  unfolding is_listed
  listed-HasStatus none b h = ((==_iff _ _).0 (ground (arith, h)), any_status)
  listed-HasStatus (some st) b h =
      let p = &&-split (b.user_id == user_id) (same_status b.status st) h in
      (
        (==_iff _ _).0 p.0,
        subst (λ x. HasStatus b (some x)) (same_status→eq b.status st p.1) that_status,
      )

  unlisted-IsPassedOver :
      (status : Option BookingStatus) (b : Booking)
      → is_listed user_id status b ≡ false
      → IsPassedOver user_id b status
  unfolding is_listed
  unlisted-IsPassedOver none b h = foreign λ e. ground (arith, h, e)
  unlisted-IsPassedOver (some st) b h = elim (Bool-cases (b.user_id == user_id)) [
    | inl e ↦ elsewhere st λ same.
        let h' : same_status b.status st ≡ false = (rw e at h) in
        let g : same_status b.status st ≡ true = rw same (same_status_refl st) in cc
    | inr e ↦ foreign λ same. ground (arith, e, same)
  ]

  module _ (status : Option BookingStatus) where
    abbrev chosen : List Booking → List Booking
    chosen = select (is_listed user_id status)

    abbrev seen : List Booking → List BookingItem → List BookingItem
    seen rows items = map list_item rows ++ items

    listed-Shows :
        (older xs : List Booking) (items : List BookingItem)
        → Shows user_id status older items
        → Shows user_id status
            (older ++ xs)
            (map list_item (newest_first (select (is_listed user_id status) xs)) ++ items)
    unfolding newest_first
    listed-Shows older [] items h =
        subst (λ rows. Shows user_id status rows items) (sym (append-nil older)) h
    listed-Shows older (b ∷ xs) items h = elim (Bool-cases (is_listed user_id status b)) [
      | inl e ↦
          let p = listed-HasStatus status b e in
          rw e (
            subst
              (λ rows. Shows user_id status rows (seen (newest_first (chosen xs) ++ b ∷ []) items))
              (append_assoc older (b ∷ []) xs)
              (subst (Shows user_id status (older ++ b ∷ [] ++ xs))
                (sym (one_more (newest_first (chosen xs)) b items))
                (listed-Shows (older ++ b ∷ []) xs (list_item b ∷ items) (shown b p.0 p.1 h))))
      | inr e ↦ rw e (
          subst (λ rows. Shows user_id status rows (seen (newest_first (chosen xs)) items))
            (append_assoc older (b ∷ []) xs)
            (listed-Shows (older ++ b ∷ []) xs items
              (passed b (unlisted-IsPassedOver status b e) h)))
    ]

    module _ (limit : ℕ) (w : World) where
      abbrev rows : List Booking
      rows = listed user_id status w

      rows-Shows : Shows user_id status w.bookings (map list_item rows)
      unfolding listed
      rows-Shows =
          subst (Shows user_id status w.bookings) (append-nil (map list_item rows))
            (listed-Shows [] w.bookings [] nothing)

      page_shown :
          (n : ℕ)
          → elim (get_user_bookings user_id status (suc n) limit w).0 as (λ _. List BookingItem) [
            | ok p ↦ p.bookings
            | err _ ↦ []
          ]
            ≡ map list_item (take limit (drop (n * limit) rows))
      unfolding get_user_bookings
      page_shown n =
          let no_first : (suc n == 0) ≡ false = ground arith in
          let before : suc n - 1 ≡ n = omega arith in rw (no_first, before) refl

      pages-take : (n : ℕ) → pages user_id status limit n w ≡ map list_item (take (n * limit) rows)
      pages-take zero = rw zero-mul refl
      pages-take (suc n) =
          let step : suc n * limit ≡ n * limit + limit = grind arith in
          rw (step, pages-take n, page_shown n, take-add (n * limit) limit rows)
            (sym
              (map-append list_item (take (n * limit) rows) (take limit (drop (n * limit) rows))))

      -- The first page says how many bookings and pages there are.
      pub record Tells (n : ℕ) (items : List BookingItem) (p : Page) : Type 0 where
        pub answered : get_user_bookings user_id status 1 limit w ≡ (ok p, w)
        pub total : p.total ≡ length items
        pub total_pages : p.total_pages ≡ some n

      first_page :
          0 < limit → (p : Page) × Tells ((length rows + limit - 1) / limit) (map list_item rows) p
      unfolding get_user_bookings page_count
      first_page positive =
          let some_limit : (limit == 0) ≡ false = ground arith in
          (
            record {
              bookings = map list_item (take limit (drop ((1 - 1) * limit) rows));
              page = 1;
              limit = limit;
              total = length rows;
              total_pages = page_count (length rows) limit;
            },
            record {
              answered = refl;
              total = sym (length-map_item rows);
              total_pages = rw some_limit refl;
            },
          )

      -- With a limit that is not 0: the first page says how many bookings and how many pages there are, and
      -- so many pages, one behind the other, show the user every booking of theirs, in the status that is
      -- asked for if one is, once, the one that was created last first, and no other booking.
      pub get_user_bookings_complete :
          0 < limit
          → (items : List BookingItem) × Shows user_id status w.bookings items
            × ((n : ℕ) × ((p : Page) × Tells n items p) × (pages user_id status limit n w ≡ items))
      get_user_bookings_complete positive =
          let n = (length rows + limit - 1) / limit in
          (
            map list_item rows,
            rows-Shows,
            (
              n,
              first_page positive,
              pages-take n
                  ∙ ap (map list_item)
                      (take-all (n * limit) rows (le_ceil (length rows) limit positive)),
            ),
          )
