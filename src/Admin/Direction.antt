-- ===== src/Admin/Direction.antt =====
-- Which trains the search finds: `searchTrains` of admin-service/src/services/search.service.js.
use railway_booking_system.Base.{
  ℕ, ◌≡◌, refl, sym, ap, ◌∙◌, inl, inr, Bool, true, false, Bool-cases, Option, Option-cases, none,
  some, List, [], ◌∷◌, ◌++◌, map, length, select, find_first, All, ltb, sort_by, sort_by-select,
  any-sort_by, All-sort_by, All-select, ◌==◌, if◌then◌else◌,
}
use mathlib.Core.List.{map-append}
use railway_booking_system.Errors.{ok}
use railway_booking_system.Admin.Rows.{Station, RouteStation, Train, Schedule, World}
use railway_booking_system.Admin.Trains.{ordered_route, ordered_train}
use railway_booking_system.Admin.Search.{
  Texts, stops_at, stops_of, has_both, FoundTrain, found, train_view, view_stops, view_train,
  view_trains, candidates, search_between, resolve_station, search_on, search_resolved,
  search_trains,
}
use railway_booking_system.Admin.Way.{goes_from_to, InSequence, precedes, precedes-goes, goes-any}

-- What the search has to find: trains whose route goes from the one station to the other.
unfoldable pub goes : (from_id to_id : ℕ) → Train → Bool
unfolding goes_from_to stops_of ordered_train
goes f g t = goes_from_to f g (stops_of (ordered_train t))

unfoldable pub HasSequence : Train → Type 0
unfolding InSequence stops_of ordered_train
HasSequence t = InSequence (stops_of (ordered_train t))

goes-has_both : (f g : ℕ) (t : Train) → goes f g t ≡ true → has_both f g t ≡ true
unfolding goes has_both stops_of ordered_train ordered_route
goes-has_both f g t h = elim (Option-cases t.route) [
  | inl e ↦ absurd (let q : false ≡ true = (rw e at h) in cc)
  | inr (r, e) ↦
      let q : goes_from_to f g (sort_by (λ (s : RouteStation). s.sequence_number) r.route_stations)
          ≡ true =
        (rw e at h) in
      let p = goes-any f g (sort_by (λ (s : RouteStation). s.sequence_number) r.route_stations) q in
      rw
        (
          e,
          sym (any-sort_by (λ (s : RouteStation). s.sequence_number) (stops_at f) r.route_stations)
              ∙ p.0,
          sym (any-sort_by (λ (s : RouteStation). s.sequence_number) (stops_at g) r.route_stations)
              ∙ p.1,
        )
        refl
]

unfoldable pub id_of : Train → ℕ
id_of t = t.id

unfoldable pub found_id : FoundTrain → ℕ
found_id t = t.train_id

goes-select :
    (f g : ℕ) (ts : List Train)
    → select (goes f g) (select (has_both f g) ts) ≡ select (goes f g) ts
goes-select f g [] = refl
goes-select f g (t ∷ ts) = elim (Bool-cases (goes f g t)) [
  | inl e ↦ rw (goes-has_both f g t e, e) (ap (λ r. t ∷ r) (goes-select f g ts))
  | inr e ↦ elim (Bool-cases (has_both f g t)) [
    | inl b ↦ rw (b, e) (goes-select f g ts)
    | inr b ↦ rw (b, e) (goes-select f g ts)
  ]
]

module _ (f g : Station) (date : Option ℕ) (schedules : List Schedule) where
  view_stops-ids :
      (t : Train) (a b : Option RouteStation)
      → map found_id (view_stops f g date schedules t a b)
        ≡ (if precedes a b then t.id ∷ [] else [])
  unfolding view_stops precedes train_view found_id
  view_stops-ids t none b = refl
  view_stops-ids t (some a) none = refl
  view_stops-ids t (some a) (some b) = elim (Bool-cases (ltb a.sequence_number b.sequence_number)) [
    | inl e ↦ rw e refl
    | inr e ↦ rw e refl
  ]

  view_train-ids :
      (t : Train)
      → HasSequence t
      → map found_id (view_train f g date schedules (ordered_train t))
        ≡ (if goes f.id g.id t then t.id ∷ [] else [])
  unfolding view_train HasSequence goes ordered_train
  view_train-ids t d =
      view_stops-ids (ordered_train t) (find_first (stops_at f.id) (stops_of (ordered_train t)))
        (find_first (stops_at g.id) (stops_of (ordered_train t)))
      ∙ ap (λ c. if c then t.id ∷ [] else [])
          (precedes-goes f.id g.id (stops_of (ordered_train t)) d)

  view_trains-ids :
      (ts : List Train)
      → All HasSequence ts
      → map found_id (view_trains f g date schedules (map ordered_train ts))
        ≡ map id_of (select (goes f.id g.id) ts)
  unfolding view_trains id_of
  view_trains-ids [] a = refl
  view_trains-ids (t ∷ ts) (d, a) =
      let ih = view_trains-ids ts a in
      map-append found_id (view_train f g date schedules (ordered_train t))
        (view_trains f g date schedules (map ordered_train ts))
      ∙ ap (λ r. r ++ map found_id (view_trains f g date schedules (map ordered_train ts)))
          (view_train-ids t d)
      ∙ (elim (Bool-cases (goes f.id g.id t)) [ inl e ↦ rw (e, ih) refl | inr e ↦ rw (e, ih) refl ])

search_between-ids :
    (texts : Texts) (f g : Station) (date : Option ℕ) (w : World)
    → All HasSequence w.trains
    → map found_id (view_trains f g date w.schedules (candidates texts f.id g.id w.trains))
      ≡ map id_of (sort_by (λ (t : Train). t.train_number) (select (goes f.id g.id) w.trains))
unfolding candidates
search_between-ids texts f g date w a =
    let number = λ (t : Train). t.train_number in
    let both = select (has_both f.id g.id) w.trains in
    let c =
      All-sort_by number HasSequence both
        (All-select HasSequence (has_both f.id g.id) w.trains a) in
    view_trains-ids f g date w.schedules (sort_by number both) c
    ∙ ap (map id_of) (
        sort_by-select number (goes f.id g.id) both
        ∙ ap (sort_by number) (goes-select f.id g.id w.trains))

-- Where every train's numbers rise along its route and no station is on it twice: a search whose two
-- texts name stations, for a date, finds, in the order of the train numbers, exactly the trains of the
-- table on whose route the one station comes before the other, and reports how many they are.
pub search_trains-exact :
    (texts : Texts) (from to date day : ℕ) (f g : Station) (w : World)
    → resolve_station texts from w.stations ≡ some f
    → resolve_station texts to w.stations ≡ some g
    → (date == 0) ≡ false
    → texts.parse_date date ≡ some day
    → All HasSequence w.trains
    → (trains : List FoundTrain) × (search_trains texts from to date w
        ≡ (ok (found f g (length trains) trains), w))
      × (map found_id trains
          ≡ map id_of (sort_by (λ (t : Train). t.train_number) (select (goes f.id g.id) w.trains)))
unfolding search_trains search_resolved search_on search_between
search_trains-exact texts from to date day f g w r s given d a = (
  view_trains f g (some day) w.schedules (candidates texts f.id g.id w.trains),
  rw (r, s, given, d) refl,
  search_between-ids texts f g (some day) w a,
)
