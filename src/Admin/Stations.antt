-- ===== src/Admin/Stations.antt =====
-- Stations: admin-service/src/services/station.service.js. Whether a text contains another, whatever the
-- case, is an argument.
use railway_booking_system.Base.{
  ℕ, ◌+◌, ◌-◌, ◌*◌, Bool, not, ◌&&◌, ◌||◌, Option, List, [], ◌∷◌, ◌++◌, length, select, find_first,
  any, take, drop, sort_by, ◌==◌,
}
use railway_booking_system.Errors.{
  database, unique_violation, invalid_argument, conflict, not_found_error, conflict_error,
}
use railway_booking_system.Effects.{Act, pure, gets, modify, fail_if, or_fail, ◌>>=◌, ◌>>◌}
use railway_booking_system.Admin.Rows.{Station, World, has_station_id}

pub record StationInput : Type 0 where
  pub name : ℕ
  pub code : ℕ
  pub city : ℕ
  pub state : Option ℕ

unfoldable pub has_code : ℕ → Station → Bool
has_code code s = s.code == code

unfoldable pub has_name : ℕ → Station → Bool
has_name name s = s.name == name

unfoldable pub new_station : (id : ℕ) → StationInput → Station
new_station id d = record { id = id; name = d.name; code = d.code; city = d.city; state = d.state }

unfoldable pub create_station : StationInput → Act World Station
unfolding has_code has_name new_station
create_station d = do
  existing ← gets (λ w. any (has_code d.code) w.stations)
  fail_if existing (conflict_error conflict)
  named ← gets (λ w. any (has_name d.name) w.stations)
  fail_if named (database unique_violation)
  id ← gets (λ w. w.next_id)
  let s = new_station id d
  modify (λ w. record w { stations = w.stations ++ s ∷ []; next_id = id + 1 })
  pure s

module _ (contains : (text part : ℕ) → Bool) where
  unfoldable pub matches_all : (search : ℕ) → Station → Bool
  matches_all search s =
      search == 0 || contains s.code search || contains s.name search || contains s.city search

  pub record StationPage : Type 0 where
    pub stations : List Station
    pub total : ℕ

  -- Prisma refuses to skip a negative number of rows.
  unfoldable pub get_all_stations : (page limit search : ℕ) → Act World StationPage
  unfolding matches_all sort_by
  get_all_stations page limit search = do
    fail_if (page == 0 && not (limit == 0)) (database invalid_argument)
    rows ← gets (λ w. select (matches_all search) w.stations)
    let sorted = sort_by (λ (s : Station). s.name) rows
    pure (record { stations = take limit (drop ((page - 1) * limit) sorted); total = length rows })

unfoldable pub get_station_by_id : (id : ℕ) → Act World Station
unfolding has_station_id
get_station_by_id id = do
  found ← gets (λ w. find_first (has_station_id id) w.stations)
  or_fail found not_found_error
