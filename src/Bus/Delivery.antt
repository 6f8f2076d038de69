-- ===== src/Bus/Delivery.antt =====
-- What the bus of shared/utils/streamBus.js promises on an entry that is handed out again and again.
use railway_booking_system.Base.{
  ℕ, ◌+◌, ◌≡◌, refl, ap, ◌∙◌, subst, ◌⊎◌, inl, inr, true, false, Option, none, some, List, [], ◌∷◌,
  ◌++◌, find_first, any, update_where, delete_where, leb, ==_refl, Bool-cases, NonePass,
  update_where-last, find_first-last, delete_where-last, if◌then◌else◌, arith,
}
use railway_booking_system.Errors.{Result, ok, err, Failure}
use railway_booking_system.Effects.{Act}
use railway_booking_system.Bus.{
  stream_max_retries, data_name, fields_to_object, Entry, Pending, Cause, parse_error,
  handler_failed, DeadLetter, Group, is_pending, acknowledge, deliveries_of, deliver, letter, bury,
  handle_failure, after_handler, handle_message, parsed, handle_fields, handle_entry,
}

-- The row of an entry that was delivered so often.
abbrev pub row : ℕ → ℕ → Pending
row id n = record { id = id; deliveries = n }

-- The text of an entry's data field.
abbrev pub content_of : Option (List ℕ) → Option ℕ
content_of none = none
content_of (some fields) = fields_to_object fields data_name

module _ {S Message : Type 0} (parse : ℕ → Option Message) (handler : Message → Act S (Unit {0}))
    (source : ℕ) (id : ℕ) (old : List Pending) (free : NonePass (is_pending id) old) where
  pub itself : (n : ℕ) → is_pending id (row id n) ≡ true
  unfolding is_pending
  itself n = ==_refl id

  -- The entry is settled: no longer pending, and buried once or not at all.
  record IsSettled (content : Option ℕ) (dead : List DeadLetter) (h : Group S) : Type 0 where
    gone : h.pending ≡ old
    buried :
        (h.dead_letters ≡ dead)
        ⊎ ((c : Cause) × (h.dead_letters ≡ dead ++ letter parse handler source content c ∷ []))

  record IsWaiting (n : ℕ) (dead : List DeadLetter) (h : Group S) : Type 0 where
    waiting : h.pending ≡ old ++ row id n ∷ []
    kept : h.dead_letters ≡ dead
    few : leb stream_max_retries n ≡ false

  module _ (n : ℕ) (g : Group S) (h : g.pending ≡ old ++ row id n ∷ []) where
    pub acknowledged : (acknowledge id g).pending ≡ old
    unfolding acknowledge
    acknowledged =
        ap (delete_where (is_pending id)) h
        ∙ delete_where-last (is_pending id) old (row id n) free (itself n)

    pub counted : deliveries_of id g ≡ n
    unfolding deliveries_of
    counted =
        let found : find_first (is_pending id) g.pending ≡ some (row id n) =
          ap (find_first (is_pending id)) h
          ∙ find_first-last (is_pending id) old (row id n) free (itself n) in
        rw (deliveries_of, found) refl

  failed :
      (n : ℕ) (content : Option ℕ) (e : Failure) (g : Group S)
      → g.pending ≡ old ++ row id n ∷ []
      → IsSettled content g.dead_letters (handle_failure parse handler source id content e g)
        ⊎ IsWaiting n g.dead_letters (handle_failure parse handler source id content e g)
  unfolding handle_failure bury acknowledge
  failed n content e g h = elim (Bool-cases (leb stream_max_retries n)) [
    | inl c ↦
        rw (counted n g h, c)
          (inl (record { gone = acknowledged n g h; buried = inr (handler_failed e, refl) }))
    | inr c ↦ rw (counted n g h, c) (inr (record { waiting = h; kept = refl; few = c }))
  ]

  abbrev Ends : ℕ → Option ℕ → List DeadLetter → Group S → Type 0
  Ends n content dead h = IsSettled content dead h ⊎ IsWaiting n dead h

  after :
      (n : ℕ) (content : Option ℕ) (x : Result (Unit {0}) × S) (g : Group S)
      → g.pending ≡ old ++ row id n ∷ []
      → Ends n content g.dead_letters (after_handler parse handler source id content x g)
  unfolding after_handler acknowledge
  after n content (ok _, s) g h = inl (record { gone = acknowledged n g h; buried = inl refl })
  after n content (err e, s) g h = failed n content e (record g { state = s }) h

  messaged :
      (n : ℕ) (content : Option ℕ) (o : Option Message) (g : Group S)
      → g.pending ≡ old ++ row id n ∷ []
      → Ends n content g.dead_letters (handle_message parse handler source id content o g)
  unfolding handle_message acknowledge bury
  messaged n content none g h =
      inl (record { gone = acknowledged n g h; buried = inr (parse_error, refl) })
  messaged n content (some m) g h = after n content (handler m g.state) g h

  handled :
      (n : ℕ) (fields : Option (List ℕ)) (g : Group S)
      → g.pending ≡ old ++ row id n ∷ []
      → Ends n (content_of fields) g.dead_letters (handle_fields parse handler source id fields g)
  unfolding handle_fields acknowledge
  handled n none g h = inl (record { gone = acknowledged n g h; buried = inl refl })
  handled n (some fields) g h =
      messaged n (fields_to_object fields data_name)
        (parsed parse handler source (fields_to_object fields data_name)) g h

  none_pending : (xs : List Pending) → NonePass (is_pending id) xs → any (is_pending id) xs ≡ false
  none_pending [] h = refl
  none_pending (x ∷ xs) h = ground (arith, h.0, none_pending xs h.1)

  last_pending : (n : ℕ) (xs : List Pending) → any (is_pending id) (xs ++ row id n ∷ []) ≡ true
  last_pending n [] = rw (itself n) refl
  last_pending n (x ∷ xs) = ground (arith, last_pending n xs)

  pub still_pending :
      (n : ℕ) (g : Group S)
      → g.pending ≡ old ++ row id n ∷ []
      → any (is_pending id) g.pending ≡ true
  still_pending n g h = ap (any (is_pending id)) h ∙ last_pending n old

  pub delivered_first :
      (g : Group S) → g.pending ≡ old → (deliver id g).pending ≡ old ++ row id 1 ∷ []
  unfolding deliver
  delivered_first g h =
      let none_yet : any (is_pending id) g.pending ≡ false =
        ap (any (is_pending id)) h ∙ none_pending old free in
      rw none_yet (ap (λ l. l ++ row id 1 ∷ []) h)

  pub delivered_again :
      (n : ℕ) (g : Group S)
      → g.pending ≡ old ++ row id n ∷ []
      → (deliver id g).pending ≡ old ++ row id (n + 1) ∷ []
  unfolding deliver
  delivered_again n g h = rw (still_pending n g h) (
      ap (update_where (is_pending id) bump) h
      ∙ update_where-last (is_pending id) bump old (row id n) free (itself n))
    where
      bump : Pending → Pending
      bump p = record p { deliveries = p.deliveries + 1 }

pub same_letters :
    {S : Type 0} (id : ℕ) (g : Group S) → (deliver id g).dead_letters ≡ g.dead_letters
unfolding deliver
same_letters id g = elim (Bool-cases (any (is_pending id) g.pending)) [
  | inl e ↦ rw e refl
  | inr e ↦ rw e refl
]

pub same_state : {S : Type 0} (id : ℕ) (g : Group S) → (deliver id g).state ≡ g.state
unfolding deliver
same_state id g = elim (Bool-cases (any (is_pending id) g.pending)) [
  | inl e ↦ rw e refl
  | inr e ↦ rw e refl
]

-- An entry that is handed out for the first time, and again: XAUTOCLAIM hands out only what is pending.
module _ {S Message : Type 0} (parse : ℕ → Option Message) (handler : Message → Act S (Unit {0}))
    (source : ℕ) (e : Entry) where
  abbrev pub delivery : Group S → Group S
  delivery g = handle_entry parse handler source e (deliver e.id g)

  abbrev pub reclaim : Group S → Group S
  reclaim g = if any (is_pending e.id) g.pending then delivery g else g

  module _ (old : List Pending) (free : NonePass (is_pending e.id) old) where
    abbrev Ended : ℕ → List DeadLetter → Group S → Type 0
    Ended n = Ends parse handler source e.id old free n (content_of e.fields)

    handed_out :
        (n : ℕ) (g : Group S)
        → (deliver e.id g).pending ≡ old ++ row e.id n ∷ []
        → Ended n g.dead_letters (delivery g)
    unfolding handle_entry
    handed_out n g h =
        subst (λ d. Ended n d (delivery g)) (same_letters e.id g)
          (handled parse handler source e.id old free n e.fields (deliver e.id g) h)

    reclaimed :
        (n : ℕ) (g : Group S)
        → g.pending ≡ old ++ row e.id n ∷ []
        → Ended (n + 1) g.dead_letters (reclaim g)
    reclaimed n g h =
        rw (still_pending parse handler source e.id old free n g h)
          (handed_out (n + 1) g (delivered_again parse handler source e.id old free n g h))

    not_reclaimed : (g : Group S) → g.pending ≡ old → reclaim g ≡ g
    not_reclaimed g h =
        let gone : any (is_pending e.id) g.pending ≡ false =
          ap (any (is_pending e.id)) h ∙ none_pending parse handler source e.id old free old free in
        rw gone refl

    abbrev Buried : List DeadLetter → Group S → Type 0
    Buried dead h =
        (h.dead_letters ≡ dead)
        ⊎ ((c : Cause) × (h.dead_letters
              ≡ dead ++ letter parse handler source (content_of e.fields) c ∷ []))

    abbrev Done : List DeadLetter → Group S → Type 0
    Done dead h = (h.pending ≡ old) × Buried dead h

    third : (dead : List DeadLetter) (g : Group S) → Ended 3 dead g → Done dead g
    third dead g (inl s) = (s.gone, s.buried)
    third dead g (inr w) = absurd (let no : true ≡ false = w.few in cc)

    second : (dead : List DeadLetter) (g : Group S) → Ended 2 dead g → Done dead (reclaim g)
    second dead g (inl s) = rw (not_reclaimed g s.gone) (s.gone, s.buried)
    second dead g (inr w) =
        third dead (reclaim g) (subst (λ d. Ended 3 d (reclaim g)) w.kept (reclaimed 2 g w.waiting))

    first :
        (dead : List DeadLetter) (g : Group S) → Ended 1 dead g → Done dead (reclaim (reclaim g))
    first dead g (inl s) = rw (not_reclaimed g s.gone, not_reclaimed g s.gone) (s.gone, s.buried)
    first dead g (inr w) =
        second dead (reclaim g)
          (subst (λ d. Ended 2 d (reclaim g)) w.kept (reclaimed 1 g w.waiting))

  -- Whatever the handler does, an entry that is new to the group is settled by its third delivery: the
  -- pending entries are those from before, and the dead-letter stream is as it was or has one letter
  -- more, with the entry's text.
  pub three_deliveries-settle :
      (g : Group S)
      → NonePass (is_pending e.id) g.pending
      → (let h = reclaim (reclaim (delivery g)) in
          (h.pending ≡ g.pending)
          × ((h.dead_letters ≡ g.dead_letters)
              ⊎ ((c : Cause) × (h.dead_letters
                    ≡ g.dead_letters ++ letter parse handler source (content_of e.fields) c ∷ []))))
  three_deliveries-settle g free = first g.pending free g.dead_letters (delivery g) (
      handed_out g.pending free 1 g
        (delivered_first parse handler source e.id g.pending free g refl))
