-- ===== src/SeatLocks/Promises.antt =====
-- What the functions that booking-service calls promise.
use railway_booking_system.Base.{
  ℕ, ◌+◌, ◌*◌, ◌<◌, ◌≡◌, ◌≢◌, refl, sym, ap, ◌∙◌, Bool, true, false, Option, none, some, List, [],
  ◌∷◌, ◌++◌, arith, Bool-cases, Option-cases, inl, inr, if◌then◌else◌,
}
use railway_booking_system.SeatLocks.{
  LockKey, same_lock, Entry, Store, unexpired, live, set, acquire_keys, release_keys,
  build_lock_keys, acquire_seat_locks, release_seat_locks,
}
use railway_booking_system.SeatLocks.Ownership.{
  among, same_lock→eq, Underway, refused_from, granted_from, release_keys-foreign, release_keys-Own,
  Own,
}

granted_free :
    (now : ℕ) (e : Entry) (s : Store) (keys acquired : List LockKey)
    → (acquire_keys now e keys acquired s).0 ≡ true
    → (j : LockKey) → among j keys ≡ true
    → live now s j ≡ none
unfolding acquire_keys among
granted_free now e s [] acquired h j m = absurd cc
granted_free now e s (k ∷ ks) acquired h j m = elim (Option-cases (live now s k)) [
  | inr (x, c) ↦ absurd (let h' : false ≡ true = (rw (c, acquire_keys) at h) in cc)
  | inl c ↦
      let h' : (acquire_keys now e ks (acquired ++ k ∷ []) (set k e s)).0 ≡ true =
        (rw (c, acquire_keys) at h) in
      elim (Bool-cases (same_lock k j)) [
        | inl d ↦ ap (λ i. live now s i) (sym (same_lock→eq k j d)) ∙ c
        | inr d ↦
            let later =
              granted_free now e (set k e s) ks (acquired ++ k ∷ []) h' j
                (unfold among in ground (arith, m, d)) in
            let same : set k e s j ≡ s j = (unfold set in rw d refl) in
            (unfold live in ap (unexpired now) (sym same)) ∙ later
      ]
]

module _ (now value ttl_seconds : ℕ) (locks : List LockKey) (store : Store) where
  abbrev pub entry : Entry
  entry = record { value = value; expires_at = now + ttl_seconds * 1000 }

  begun : Underway now entry store [] store
  begun = record { was_free = λ j h. absurd (unfold among in cc); untouched = λ j h. refl }

  -- The two outcomes of the script, as `acquire_seat_locks` reports them.
  abbrev outcome : Bool → Option ℕ × Store
  outcome up =
      let r = acquire_keys now entry locks [] store in
      if up then (if r.0 then some value else none, r.1) else (none, store)

  outcome-refused :
      (up : Bool)
      → (outcome up).0 ≡ none
      → (j : LockKey) → live now (outcome up).1 j ≡ live now store j
  outcome-refused false h j = refl
  outcome-refused true h j = elim (Bool-cases (acquire_keys now entry locks [] store).0) [
    | inl c ↦ absurd (let h' : some value ≡ none = (rw c at h) in cc)
    | inr c ↦ refused_from now entry store store locks [] begun c j
  ]

  script-granted :
      (up : Bool) → (outcome up).0 ≡ some value → (acquire_keys now entry locks [] store).0 ≡ true
  script-granted false h = absurd cc
  script-granted true h = elim (Bool-cases (acquire_keys now entry locks [] store).0) [
    | inl c ↦ c
    | inr c ↦ absurd (let h' : none ≡ some value = (rw c at h) in cc)
  ]

  outcome-granted :
      (up : Bool)
      → (outcome up).0 ≡ some value
      → (j : LockKey) → (outcome up).1 j ≡ (if among j locks then some entry else store j)
  outcome-granted false h j = absurd cc
  outcome-granted true h j = granted_from now entry store locks [] (script-granted true h) j

  outcome-returned :
      (up : Bool)
      → 0 < ttl_seconds
      → (outcome up).0 ≡ some value
      → (j : LockKey) → live now (release_keys now value locks (outcome up).1) j ≡ live now store j
  unfolding live
  outcome-returned up positive h j =
      let released : release_keys now value locks (outcome up).1 j
          ≡ (if among j locks then none else (outcome up).1 j) =
        release_keys-Own now value entry refl (omega (arith, positive)) locks (outcome up).1
          (λ i c. unfold Own in inl (outcome-granted up h i ∙ (rw c refl))) j in
      elim (Bool-cases (among j locks)) [
        | inl c ↦
            let gone : release_keys now value locks (outcome up).1 j ≡ none =
              released ∙ (rw c refl) in
            ap (unexpired now) gone
            ∙ sym (granted_free now entry store locks [] (script-granted up h) j c)
        | inr c ↦
            let kept : release_keys now value locks (outcome up).1 j ≡ (outcome up).1 j =
              released ∙ (rw c refl) in
            let old : (outcome up).1 j ≡ store j = outcome-granted up h j ∙ (rw c refl) in
            ap (unexpired now) (kept ∙ old)
      ]

module _ (up : Bool) (now value ttl_seconds schedule_id : ℕ) (seat_ids : List ℕ)
    (from_seq to_seq : Option ℕ) (store : Store) where
  abbrev pub keys : List LockKey
  keys = build_lock_keys schedule_id seat_ids from_seq to_seq

  abbrev pub after : Option ℕ × Store
  after = acquire_seat_locks up now value ttl_seconds schedule_id seat_ids from_seq to_seq store

  -- All or nothing: where the locks are refused, Redis holds what it held; where they are acquired, every
  -- key of the seats carries the new entry and every other key what it carried.
  pub acquire_seat_locks-all_or_nothing :
      (after.0 ≡ none → (j : LockKey) → live now after.1 j ≡ live now store j)
      × (after.0 ≡ some value
          → (j : LockKey)
          → after.1 j
            ≡ (if among j keys then some (entry now value ttl_seconds keys store) else store j))
  unfolding acquire_seat_locks
  acquire_seat_locks-all_or_nothing = (
    outcome-refused now value ttl_seconds keys store up,
    outcome-granted now value ttl_seconds keys store up,
  )

  -- Locks that were acquired for some time and are released with their value leave Redis as it was.
  pub acquire-release :
      0 < ttl_seconds
      → after.0 ≡ some value
      → (j : LockKey)
      → live now
          (release_seat_locks true now schedule_id seat_ids (some value) from_seq to_seq after.1)
          j
        ≡ live now store j
  unfolding acquire_seat_locks release_seat_locks
  acquire-release = outcome-returned now value ttl_seconds keys store up

-- A release takes away no lock of another owner, whatever seats it names.
pub release_seat_locks-foreign :
    (up : Bool) (now schedule_id : ℕ) (seat_ids : List ℕ) (value : ℕ) (from_seq to_seq : Option ℕ)
    (store : Store) (j : LockKey) (x : Entry)
    → store j ≡ some x
    → x.value ≢ value
    → release_seat_locks up now schedule_id seat_ids (some value) from_seq to_seq store j ≡ some x
unfolding release_seat_locks
release_seat_locks-foreign true now schedule_id seat_ids value from_seq to_seq store j x h foreign =
    release_keys-foreign now value j x (build_lock_keys schedule_id seat_ids from_seq to_seq) store
      h foreign
release_seat_locks-foreign false now schedule_id seat_ids value from_seq to_seq store j x h
      foreign =
    h
