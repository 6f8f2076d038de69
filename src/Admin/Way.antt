-- ===== src/Admin/Way.antt =====
-- The way that a route goes: the comparison in `searchTrains` of
-- admin-service/src/services/search.service.js.
use railway_booking_system.Base.{
  ℕ, ◌<◌, ◌≡◌, ◌≢◌, refl, subst, sym, ◌∙◌, inl, inr, Bool, true, false, ◌&&◌, ◌||◌, Bool-cases,
  Option, Option-cases, none, some, List, [], ◌∷◌, find_first, any, All, AllPairs, ltb, lt→ltb,
  arith,
}
use railway_booking_system.Admin.Rows.{RouteStation}
use railway_booking_system.Admin.Search.{stops_at}

-- A stop at the one station comes before a stop at the other.
unfoldable pub goes_from_to : (from_id to_id : ℕ) → List RouteStation → Bool
unfolding stops_at
goes_from_to f g [] = false
goes_from_to f g (s ∷ ss) =
    let rest = goes_from_to f g ss in (stops_at f s && any (stops_at g) ss) || rest

-- The numbers rise along the route, and no station is on it twice.
unfoldable pub InSequence : List RouteStation → Type 0
InSequence =
    AllPairs (λ a b. (a.sequence_number < b.sequence_number) × (a.station_id ≢ b.station_id))

unfoldable pub precedes : Option RouteStation → Option RouteStation → Bool
precedes (some a) (some b) = ltb a.sequence_number b.sequence_number
precedes _ _ = false

All-find_first :
    (P : RouteStation → Type 0) (p : RouteStation → Bool) (ss : List RouteStation)
    (b : RouteStation)
    → All P ss
    → find_first p ss ≡ some b
    → (P b) × (any p ss ≡ true)
All-find_first P p [] b a h = absurd (let q : none ≡ some b = h in cc)
All-find_first P p (s ∷ ss) b a h = elim (Bool-cases (p s)) [
  | inl e ↦
      let q : some s ≡ some b = (rw e at h) in let r : s ≡ b = cc in (subst P r a.0, rw e refl)
  | inr e ↦ let ih = All-find_first P p ss b a.1 (rw e at h) in (ih.0, rw (e, ih.1) refl)
]

none-any :
    (p : RouteStation → Bool) (ss : List RouteStation) → find_first p ss ≡ none → any p ss ≡ false
none-any p [] h = refl
none-any p (s ∷ ss) h = elim (Bool-cases (p s)) [
  | inl e ↦ absurd (let q : some s ≡ none = (rw e at h) in cc)
  | inr e ↦ rw (e, none-any p ss (rw e at h)) refl
]

-- A station that stands at the head is nowhere else.
elsewhere :
    (id : ℕ) (s : RouteStation) (ss : List RouteStation)
    → All (λ b. (s.sequence_number < b.sequence_number) × (s.station_id ≢ b.station_id)) ss
    → stops_at id s ≡ true
    → any (stops_at id) ss ≡ false
unfolding stops_at
elsewhere id s [] a h = refl
elsewhere id s (b ∷ ss) a h =
    let ih = elsewhere id s ss a.1 h in
    let d = a.0.1 in let e : stops_at id b ≡ false = ground (arith, d, h) in rw (e, ih) refl

goes-without_start :
    (f g : ℕ) (ss : List RouteStation) → any (stops_at f) ss ≡ false → goes_from_to f g ss ≡ false
unfolding goes_from_to
goes-without_start f g [] h = refl
goes-without_start f g (s ∷ ss) h =
    let p : (stops_at f s ≡ false) × (any (stops_at f) ss ≡ false) =
      (ground (arith, h), ground (arith, h)) in
    let ih = goes-without_start f g ss p.1 in rw (p.0, ih) refl

goes-without_end :
    (f g : ℕ) (ss : List RouteStation) → any (stops_at g) ss ≡ false → goes_from_to f g ss ≡ false
unfolding goes_from_to
goes-without_end f g [] h = refl
goes-without_end f g (s ∷ ss) h =
    let p : any (stops_at g) ss ≡ false = ground (arith, h) in
    let ih = goes-without_end f g ss p in rw (p, ih) ground arith

not_below : (n : ℕ) → ltb n n ≡ false
not_below n = ground arith

not_above : (m n : ℕ) → m < n → ltb n m ≡ false
not_above m n h = ground arith

present : (b : Bool) → (b ≡ false → true ≡ false) → b ≡ true
present true h = refl
present false h = sym (h refl)

-- The comparison of the first stops at the two stations says whether the route goes that way.
pub precedes-goes :
    (f g : ℕ) (ss : List RouteStation)
    → InSequence ss
    → precedes (find_first (stops_at f) ss) (find_first (stops_at g) ss) ≡ goes_from_to f g ss
unfolding precedes goes_from_to InSequence
precedes-goes f g [] d = refl
precedes-goes f g (s ∷ ss) (a, d) = elim (Bool-cases (stops_at f s)) [
  | inl e ↦
      let gone = goes-without_start f g ss (elsewhere f s ss a e) in
      elim (Bool-cases (stops_at g s)) [
        | inl i ↦ rw (e, i, elsewhere g s ss a i, gone) (not_below s.sequence_number)
        | inr i ↦ elim (Option-cases (find_first (stops_at g) ss)) [
          | inl o ↦ rw (e, i, o, none-any (stops_at g) ss o, gone) refl
          | inr (b, o) ↦
              let r = All-find_first _ (stops_at g) ss b a o in
              rw (e, i, o, r.1) (lt→ltb s.sequence_number b.sequence_number r.0.0)
        ]
      ]
  | inr e ↦ elim (Bool-cases (stops_at g s)) [
    | inl i ↦
        let gone = goes-without_end f g ss (elsewhere g s ss a i) in
        elim (Option-cases (find_first (stops_at f) ss)) [
          | inl o ↦ rw (e, i, o, gone) refl
          | inr (b, o) ↦
              let r = All-find_first _ (stops_at f) ss b a o in
              rw (e, i, o, gone) (not_above s.sequence_number b.sequence_number r.0.0)
        ]
    | inr i ↦ rw (e, i) (precedes-goes f g ss d)
  ]
]

pub goes-any :
    (f g : ℕ) (ss : List RouteStation)
    → goes_from_to f g ss ≡ true
    → (any (stops_at f) ss ≡ true) × (any (stops_at g) ss ≡ true)
goes-any f g ss h = (
  present (any (stops_at f) ss) (λ e. sym h ∙ goes-without_start f g ss e),
  present (any (stops_at g) ss) (λ e. sym h ∙ goes-without_end f g ss e),
)
