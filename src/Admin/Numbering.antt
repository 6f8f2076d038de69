-- ===== src/Admin/Numbering.antt =====
-- The numbers of a route's stops: `createRoute` of admin-service/src/services/train.service.js.
use railway_booking_system.Base.{
  ℕ, zero, suc, ◌+◌, ◌≡◌, refl, subst, ap, ◌∙◌, inl, inr, true, false, not, &&-split, ==_iff,
  Bool-cases, none, some, List, [], ◌∷◌, map, length, find_first, update_where, sort_by,
  sort_by-map, length-sort_by, ◌==◌, arith,
}
use railway_booking_system.Errors.{
  ok, database, unique_violation, conflict, bad_request, not_found_error, conflict_error,
  bad_request_error,
}
use railway_booking_system.Effects.{past_fail_if, past_or_fail}
use railway_booking_system.Admin.Rows.{RouteStation, Route, Train, World, has_train_id}
use railway_booking_system.Admin.Trains.{
  StopInput, new_stop, is_continuous, sequence_of, station_id_of, has_route, has_duplicates,
  set_route, new_route, store_route, store_distinct, store_numbered, unknown_stations,
  check_stations, find_stations, route_for, ordered_route, ordered_train, create_route,
  get_train_by_id,
}

-- The numbers from one on.
unfoldable pub numbers_from : (first count : ℕ) → List ℕ
numbers_from n zero = []
numbers_from n (suc k) = n ∷ numbers_from (n + 1) k

unfoldable pub sequence_number_of : RouteStation → ℕ
sequence_number_of s = s.sequence_number

continuous-numbers :
    (n : ℕ) (stops : List StopInput)
    → is_continuous n stops ≡ true
    → map sequence_of stops ≡ numbers_from n (length stops)
unfolding is_continuous numbers_from sequence_of
continuous-numbers n [] h = refl
continuous-numbers n (s ∷ stops) h =
    let p = &&-split (s.sequence_number == n) (is_continuous (n + 1) stops) h in
    ap (λ k. k ∷ map sequence_of stops) ((==_iff s.sequence_number n).0 p.0)
    ∙ ap (λ r. n ∷ r) (continuous-numbers (n + 1) stops p.1)

map-new_stop :
    (stops : List StopInput) → map sequence_number_of (map new_stop stops) ≡ map sequence_of stops
unfolding new_stop sequence_number_of sequence_of
map-new_stop [] = refl
map-new_stop (s ∷ stops) = ap (λ r. s.sequence_number ∷ r) (map-new_stop stops)

-- The numbers of the stops in their order, where the loop has accepted them.
ordered-numbers :
    (id : ℕ) (stops : List StopInput)
    → is_continuous 1 (sort_by sequence_of stops) ≡ true
    → map sequence_number_of
        (ordered_route (record { id = id; route_stations = map new_stop stops })).route_stations
      ≡ numbers_from 1 (length stops)
unfolding ordered_route sequence_of new_stop
ordered-numbers id stops h =
    ap (map sequence_number_of)
      (sort_by-map (λ (s : RouteStation). s.sequence_number) new_stop stops)
    ∙ map-new_stop (sort_by sequence_of stops)
    ∙ continuous-numbers 1 (sort_by sequence_of stops) h
    ∙ ap (numbers_from 1) (length-sort_by sequence_of stops)

route-updated :
    (id : ℕ) (r : Route) (trains : List Train) (t : Train)
    → find_first (has_train_id id) trains ≡ some t
    → find_first
        (has_train_id id)
        (update_where (has_train_id id) (λ t. record t { route = some r }) trains)
      ≡ some (record t { route = some r })
unfolding has_train_id
route-updated id r [] t h = absurd (let q : none ≡ some t = h in cc)
route-updated id r (u ∷ trains) t h = elim (Bool-cases (u.id == id)) [
  | inl e ↦
      let q : some u ≡ some t = (rw e at h) in
      rw (e, e) (ap (λ o. elim o [ none ↦ none | some v ↦ some (record v { route = some r }) ]) q)
  | inr e ↦ rw (e, e) (route-updated id r trains t (rw e at h))
]

continuous :
    (stops : List StopInput)
    → not (is_continuous 1 (sort_by sequence_of stops)) ≡ false
    → is_continuous 1 (sort_by sequence_of stops) ≡ true
continuous stops h = ground arith

created :
    (train_id : ℕ) (stops : List StopInput) (w w' : World) (r : Route) (t : Train)
    → find_first (has_train_id train_id) w.trains ≡ some t
    → is_continuous 1 (sort_by sequence_of stops) ≡ true
    → store_route train_id stops w ≡ (ok r, w')
    → (map sequence_number_of r.route_stations ≡ numbers_from 1 (length stops))
      × ((t' : Train) × ((get_train_by_id train_id w').0 ≡ ok t') × (t'.route ≡ some r))
unfolding get_train_by_id store_route set_route new_route ordered_train
created train_id stops w w' r t found c h =
    let stored = new_route w.next_id stops in
    let w1 = set_route train_id stored w in
    let q : ordered_route stored ≡ r =
      (let k : ok (ordered_route stored) ≡ ok r = ap (λ x. x.0) h in cc) in
    let e : w1 ≡ w' = ap (λ x. x.1) h in
    let u = record t { route = some stored } in
    let now = route-updated train_id stored w.trains t found in
    subst
      (λ v.
        (map sequence_number_of r.route_stations ≡ numbers_from 1 (length stops))
        × ((t' : Train) × ((get_train_by_id train_id v).0 ≡ ok t') × (t'.route ≡ some r)))
      e
      (subst
        (λ x.
          (map sequence_number_of x.route_stations ≡ numbers_from 1 (length stops))
          × ((t' : Train) × ((get_train_by_id train_id w1).0 ≡ ok t') × (t'.route ≡ some x)))
        q (ordered-numbers w.next_id stops c, (ordered_train u, rw now refl, refl)))

-- Where a route is created, its stops in their order are numbered 1, 2, 3 and so on to their count, and
-- the train that is read afterwards has that route.
pub create_route-numbered :
    (train_id : ℕ) (stops : List StopInput) (w w' : World) (r : Route)
    → create_route train_id stops w ≡ (ok r, w')
    → (map sequence_number_of r.route_stations ≡ numbers_from 1 (length stops))
      × ((t : Train) × ((get_train_by_id train_id w').0 ≡ ok t) × (t.route ≡ some r))
unfolding create_route route_for find_stations check_stations store_numbered store_distinct
    store_route new_route
create_route-numbered train_id stops w w' r h =
    let found =
      past_or_fail (find_first (has_train_id train_id) w.trains) not_found_error
        (route_for train_id stops) w h in
    let t = found.0 in
    let unrouted =
      past_fail_if (has_route t) (conflict_error conflict) (find_stations train_id stops) w
        found.2 in
    let known =
      past_fail_if (unknown_stations stops w) (bad_request_error bad_request)
        (store_numbered train_id stops) w unrouted.1 in
    let numbered =
      past_fail_if (not (is_continuous 1 (sort_by sequence_of stops)))
        (bad_request_error bad_request) (store_distinct train_id stops) w known.1 in
    let distinct =
      past_fail_if (has_duplicates (map station_id_of stops)) (database unique_violation)
        (store_route train_id stops) w numbered.1 in
    created train_id stops w w' r t found.1 (continuous stops numbered.0) distinct.1
