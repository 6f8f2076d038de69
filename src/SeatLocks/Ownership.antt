-- ===== src/SeatLocks/Ownership.antt =====
-- The two scripts take all the keys or none, and give back only their own.
use railway_booking_system.Base.{
  ℕ, ◌<◌, ◌≡◌, ◌≢◌, refl, sym, ap, ◌∙◌, Bool, true, false, ◌||◌, none, some, List, [], ◌∷◌, ◌++◌,
  arith, any, ltb, ◌==◌, ==_iff, Bool-cases, Option-cases, ◌⊎◌, inl, inr, if◌then◌else◌,
}
use railway_booking_system.SeatLocks.{
  LockKey, seat_key, segment_key, same_lock, Entry, Store, unexpired, live, set, del, del_all,
  acquire_keys, release_keys,
}

unfoldable pub among : LockKey → List LockKey → Bool
among j keys = any (λ k. same_lock k j) keys

any-append :
    (j : LockKey) (xs : List LockKey) (k : LockKey)
    → among j (xs ++ k ∷ []) ≡ (among j xs || same_lock k j)
unfolding among
any-append j [] k = ground arith
any-append j (x ∷ xs) k = ground (arith, any-append j xs k)

pub same_lock→eq : (k j : LockKey) → same_lock k j ≡ true → k ≡ j
unfolding same_lock
same_lock→eq (seat_key a b) (seat_key c d) h =
    let e : a ≡ c = ground (arith, h) in let f : b ≡ d = ground (arith, h) in cc
same_lock→eq (segment_key a b p q) (segment_key c d r s) h =
    let e : a ≡ c = ground (arith, h) in
    let f : b ≡ d = ground (arith, h) in
    let g : p ≡ r = ground (arith, h) in let i : q ≡ s = ground (arith, h) in cc
same_lock→eq (seat_key a b) (segment_key c d r s) h = absurd cc
same_lock→eq (segment_key a b p q) (seat_key c d) h = absurd cc

del_all-at :
    (j : LockKey) (keys : List LockKey) (s : Store)
    → del_all keys s j ≡ (if among j keys then none else s j)
unfolding among del_all del
del_all-at j [] s = refl
del_all-at j (k ∷ ks) s = del_all-at j ks (del k s) ∙ (elim (Bool-cases (same_lock k j)) [
  | inl e ↦ elim (Bool-cases (among j ks)) [
    | inl c ↦ unfold among del in rw (e, c) refl
    | inr c ↦ unfold among del in rw (e, c) refl
  ]
  | inr e ↦ unfold among del in rw e refl
])

last_set :
    (e : Entry) (s : Store) (k : LockKey) (ks : List LockKey) (j : LockKey)
    → (if among j ks then some e else set k e s j) ≡ (if among j (k ∷ ks) then some e else s j)
unfolding among set
last_set e s k ks j = elim (Bool-cases (same_lock k j)) [
  | inl c ↦ elim (Bool-cases (among j ks)) [
    | inl d ↦ unfold among in rw (c, d) refl
    | inr d ↦ unfold among in rw (c, d) refl
  ]
  | inr c ↦ unfold among in rw c refl
]

module _ (now : ℕ) (e : Entry) where
  -- While the script runs, its own keys were free and the rest is as it was.
  pub record Underway (before : Store) (acquired : List LockKey) (s : Store) : Type 0 where
    pub was_free : (j : LockKey) → among j acquired ≡ true → live now before j ≡ none
    pub untouched : (j : LockKey) → among j acquired ≡ false → s j ≡ before j

  undone :
      (before s : Store) (acquired : List LockKey) (j : LockKey)
      → Underway before acquired s
      → live now (del_all acquired s) j ≡ live now before j
  unfolding live
  undone before s acquired j u = elim (Bool-cases (among j acquired)) [
    | inl c ↦
        let gone : del_all acquired s j ≡ none = del_all-at j acquired s ∙ (rw c refl) in
        ap (unexpired now) gone ∙ sym (u.was_free j c)
    | inr c ↦
        let kept : del_all acquired s j ≡ s j = del_all-at j acquired s ∙ (rw c refl) in
        ap (unexpired now) (kept ∙ u.untouched j c)
  ]

  underway :
      (before s : Store) (acquired : List LockKey) (k : LockKey)
      → live now s k ≡ none
      → Underway before acquired s
      → Underway before (acquired ++ k ∷ []) (set k e s)
  unfolding live set
  underway before s acquired k free u = record {
    was_free = λ j h. elim (Bool-cases (among j acquired)) [
      | inl c ↦ u.was_free j c
      | inr c ↦
          let same : k ≡ j = same_lock→eq k j (ground (arith, h, c, any-append j acquired k)) in
          let old : s k ≡ before k = ap s same ∙ u.untouched j c ∙ ap before (sym same) in
          ap (λ i. unexpired now (before i)) (sym same) ∙ ap (unexpired now) (sym old) ∙ free
    ];
    untouched = λ j h.
        let not_k : same_lock k j ≡ false = ground (arith, h, any-append j acquired k) in
        rw not_k (u.untouched j (ground (arith, h, any-append j acquired k)));
  }

  pub refused_from :
      (before s : Store) (keys acquired : List LockKey)
      → Underway before acquired s
      → (acquire_keys now e keys acquired s).0 ≡ false
      → (j : LockKey) → live now (acquire_keys now e keys acquired s).1 j ≡ live now before j
  unfolding acquire_keys
  refused_from before s [] acquired u h = absurd cc
  refused_from before s (k ∷ ks) acquired u h = elim (Option-cases (live now s k)) [
    | inr (x, c) ↦ λ j. rw (c, acquire_keys) (undone before s acquired j u)
    | inl c ↦
        let h' : (acquire_keys now e ks (acquired ++ k ∷ []) (set k e s)).0 ≡ false =
          (rw (c, acquire_keys) at h) in
        λ j.
          rw (c, acquire_keys)
            (refused_from before (set k e s) ks (acquired ++ k ∷ [])
              (underway before s acquired k c u) h' j)
  ]

  pub granted_from :
      (s : Store) (keys acquired : List LockKey)
      → (acquire_keys now e keys acquired s).0 ≡ true
      → (j : LockKey)
      → (acquire_keys now e keys acquired s).1 j ≡ (if among j keys then some e else s j)
  unfolding acquire_keys among
  granted_from s [] acquired h j = refl
  granted_from s (k ∷ ks) acquired h j = elim (Option-cases (live now s k)) [
    | inr (x, c) ↦ absurd (let h' : false ≡ true = (rw (c, acquire_keys) at h) in cc)
    | inl c ↦
        let h' : (acquire_keys now e ks (acquired ++ k ∷ []) (set k e s)).0 ≡ true =
          (rw (c, acquire_keys) at h) in
        rw (c, acquire_keys)
          (granted_from (set k e s) ks (acquired ++ k ∷ []) h' j ∙ last_set e s k ks j)
  ]

unexpired-same : (now : ℕ) (x e : Entry) → unexpired now (some x) ≡ some e → x ≡ e
unfolding unexpired
unexpired-same now x e h = elim (Bool-cases (ltb now x.expires_at)) [
  | inl c ↦ let h' : some x ≡ some e = (rw c at h) in cc
  | inr c ↦ absurd (let h' : none ≡ some e = (rw c at h) in cc)
]

same_lock_refl : (k : LockKey) → same_lock k k ≡ true
unfolding same_lock
same_lock_refl (seat_key a b) = ground arith
same_lock_refl (segment_key a b p q) = ground arith

live-some :
    (now : ℕ) (s : Store) (k : LockKey) (e : Entry)
    → s k ≡ some e
    → now < e.expires_at
    → live now s k ≡ some e
unfolding live unexpired
live-some now s k e h alive =
    ap (unexpired now) h
    ∙ (let c : ltb now e.expires_at ≡ true = ground (arith, alive) in rw c refl)

live-none : (now : ℕ) (s : Store) (k : LockKey) → s k ≡ none → live now s k ≡ none
unfolding live unexpired
live-none now s k h = ap (unexpired now) h

last_del :
    (s : Store) (k : LockKey) (ks : List LockKey) (j : LockKey)
    → (if among j ks then none else del k s j) ≡ (if among j (k ∷ ks) then none else s j)
unfolding among del
last_del s k ks j = elim (Bool-cases (same_lock k j)) [
  | inl c ↦ elim (Bool-cases (among j ks)) [
    | inl d ↦ unfold among in rw (c, d) refl
    | inr d ↦ unfold among in rw (c, d) refl
  ]
  | inr c ↦ unfold among in rw c refl
]

still_gone :
    (s : Store) (k : LockKey) (ks : List LockKey) (j : LockKey)
    → s k ≡ none
    → (if among j ks then none else s j) ≡ (if among j (k ∷ ks) then none else s j)
unfolding among
still_gone s k ks j gone = elim (Bool-cases (same_lock k j)) [
  | inl c ↦
      let here : s j ≡ none = ap s (sym (same_lock→eq k j c)) ∙ gone in
      elim (Bool-cases (among j ks)) [
        | inl d ↦ unfold among in rw (c, d) refl
        | inr d ↦ unfold among in rw (c, d) here
      ]
  | inr c ↦ unfold among in rw c refl
]

-- A key whose entry is this lock's, or that has none.
unfoldable pub Own : Entry → Store → LockKey → Type 0
Own e s j = (s j ≡ some e) ⊎ (s j ≡ none)

pub Own-after : (e : Entry) (s : Store) (k j : LockKey) → Own e s j → Own e (del k s) j
unfolding Own del
Own-after e s k j h = elim (Bool-cases (same_lock k j)) [ inl c ↦ inr (rw c refl) | inr c ↦ rw c h ]

module _ (now value : ℕ) where
  pub release_keys-foreign :
      (j : LockKey) (x : Entry) (keys : List LockKey) (s : Store)
      → s j ≡ some x
      → x.value ≢ value
      → release_keys now value keys s j ≡ some x
  unfolding release_keys del
  release_keys-foreign j x [] s h foreign = h
  release_keys-foreign j x (k ∷ ks) s h foreign = elim (Option-cases (live now s k)) [
    | inl c ↦ rw (c, release_keys) (release_keys-foreign j x ks s h foreign)
    | inr (e, c) ↦ elim (Bool-cases (e.value == value)) [
      | inr d ↦ rw (c, d, release_keys) (release_keys-foreign j x ks s h foreign)
      | inl d ↦
          rw (c, d, release_keys) (release_keys-foreign j x ks (del k s) (kept k s e c d h) foreign)
    ]
  ]
    where
      kept :
          (k : LockKey) (s : Store) (e : Entry)
          → live now s k ≡ some e
          → (e.value == value) ≡ true
          → s j ≡ some x
          → del k s j ≡ some x
      kept k s e c d h = elim (Bool-cases (same_lock k j)) [
        | inl q ↦ absurd (
            let here : unexpired now (some x) ≡ some e =
              ap (unexpired now) (sym h)
              ∙ ap (λ i. unexpired now (s i)) (sym (same_lock→eq k j q))
              ∙ (unfold live in c) in
            let same : x ≡ e = unexpired-same now x e here in
            foreign (ap (λ (y : Entry). y.value) same ∙ (==_iff _ _).0 d))
        | inr q ↦ unfold del in rw q h
      ]

  pub release_keys-Own :
      (e : Entry)
      → e.value ≡ value
      → now < e.expires_at
      → (keys : List LockKey) (s : Store) → ((j : LockKey) → among j keys ≡ true → Own e s j)
      → (j : LockKey) → release_keys now value keys s j ≡ (if among j keys then none else s j)
  unfolding release_keys among Own
  release_keys-Own e same alive [] s own j = refl
  release_keys-Own e same alive (k ∷ ks) s own j =
      elim (own k (unfold among in rw (same_lock_refl k) refl)) [
        | inl here ↦
            let now_live : live now s k ≡ some e = live-some now s k e here alive in
            let mine : (e.value == value) ≡ true = (==_iff _ _).1 same in
            rw (now_live, mine, release_keys)
              (release_keys-Own e same alive ks (del k s)
                  (λ i c. Own-after e s k i (own i (unfold among in ground (arith, c)))) j
                ∙ last_del s k ks j)
        | inr gone ↦
            let now_gone : live now s k ≡ none = live-none now s k gone in
            rw (now_gone, release_keys)
              (release_keys-Own e same alive ks s (λ i c. own i (unfold among in ground (arith, c)))
                  j
                ∙ still_gone s k ks j gone)
      ]
