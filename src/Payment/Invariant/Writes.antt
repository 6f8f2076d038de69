-- ===== src/Payment/Invariant/Writes.antt =====
-- The writes of payment-service, one by one, and what they do to the invariant.
use railway_booking_system.Base.{
  ℕ, ◌≡◌, ◌≢◌, Bool, true, some, List, [], ◌∷◌, ◌++◌, arith, find_first, ◌==◌, update_where,
  update_row, count_where, count_where-append, All, All-mono, All-append, All-update_where, All-zip,
  AllPairs-update_where, DistinctKeys, Bool-cases, inl, inr, sym, subst,
}
use railway_booking_system.Payment.Rows.{
  PaymentOrder, AuditAction, Reason, Published, payment_failure, PayDb,
}
use railway_booking_system.Payment.Orders.{is_order, publish, log_audit}
use railway_booking_system.Payment.Invariant.{is_paid, is_success, IsSound, PayValid}

-- The row that was read is the only one with its key.
abbrev pub Current : PaymentOrder → PayDb → Type 0
Current o db = All (λ (p : PaymentOrder). p.id ≡ o.id → p ≡ o) db.orders

pub All-found :
    {A : Type 0} (P : A → Type 0) (q : A → Bool) (xs : List A) (x : A)
    → find_first q xs ≡ some x
    → All P xs
    → P x
All-found P q [] x h a = absurd cc
All-found P q (y ∷ ys) x h a = elim (Bool-cases (q y)) [
  | inl e ↦ let same : some y ≡ some x = (rw e at h) in let eq : y ≡ x = cc in subst P eq a.0
  | inr e ↦ All-found P q ys x (rw e at h) a.1
]

found_rows :
    (q : PaymentOrder → Bool) (os : List PaymentOrder) (o : PaymentOrder)
    → find_first q os ≡ some o
    → DistinctKeys (λ (o : PaymentOrder). o.id) os
    → All (λ (p : PaymentOrder). p.id ≡ o.id → p ≡ o) os
found_rows q [] o h d = tt
found_rows q (p ∷ ps) o h d = elim (Bool-cases (q p)) [
  | inl e ↦
      let same : some p ≡ some o = (rw e at h) in
      let eq : p ≡ o = cc in
      ((λ _. eq), All-mono _ _ ps (λ r ne i. absurd (ne (rw eq (sym i)))) d.0)
  | inr e ↦
      let h' : find_first q ps ≡ some o = (rw e at h) in
      (
        (λ i. absurd (All-found (λ (r : PaymentOrder). p.id ≢ r.id) q ps o h' d.0 i)),
        found_rows q ps o h' d.1,
      )
]

pub found-Current :
    (q : PaymentOrder → Bool) (db : PayDb) (o : PaymentOrder)
    → find_first q db.orders ≡ some o
    → PayValid db
    → Current o db
found-Current q db o h v = found_rows q db.orders o h v.keys

-- A write that leaves an order its key and its amount, and does not take its payment back.
pub record Advances (f : PaymentOrder → PaymentOrder) : Type 0 where
  pub same_id : (o : PaymentOrder) → (f o).id ≡ o.id
  pub same_amount : (o : PaymentOrder) → (f o).amount ≡ o.amount

abbrev pub StaysPaid : ℕ → (PaymentOrder → PaymentOrder) → PaymentOrder → Type 0
StaysPaid id f o = (o.id == id) ≡ true → is_paid o.status ≡ true → is_paid (f o).status ≡ true

pub write-PayValid :
    (id : ℕ) (f : PaymentOrder → PaymentOrder) (db : PayDb)
    → Advances f
    → All (StaysPaid id f) db.orders
    → PayValid db
    → PayValid (record db { orders = update_where (is_order id) f db.orders })
unfolding is_order
write-PayValid id f db a paid v = record {
  keys =
      AllPairs-update_where _ (is_order id) f db.orders
        (λ o p d e. d (ground (arith, a.same_id o, a.same_id p, e))) v.keys;
  fresh =
      All-update_where _ _ (is_order id) f db.orders (λ o h. ground (arith, a.same_id o, h))
        v.fresh;
  known = v.known;
  live = v.live;
  published = v.published;
  sound =
      All-update_where (λ (o : PaymentOrder). StaysPaid id f o × IsSound db.refunds db.events o) _
        (is_order id) f db.orders (λ o h. row o h.0 h.1)
        (All-zip _ _ _ db.orders (λ o p s. (p, s)) paid v.sound);
}
  where
    row :
        (o : PaymentOrder)
        → StaysPaid id f o
        → IsSound db.refunds db.events o
        → IsSound db.refunds db.events (update_row (is_order id) f o)
    row o h s = elim (Bool-cases (o.id == id)) [
      | inl e ↦
          unfold is_order in
          rw e (record {
            within = rw (a.same_id o, a.same_amount o) s.within;
            once = rw (a.same_id o) (ground (arith, s.once, h e));
          })
      | inr e ↦ unfold is_order in rw e s
    ]

pub audit-PayValid :
    (id : ℕ) (a : AuditAction) (db : PayDb) → PayValid db → PayValid (log_audit id a db).1
audit-PayValid id a db v = record {
  keys = v.keys;
  fresh = v.fresh;
  known = v.known;
  live = v.live;
  published = v.published;
  sound = v.sound;
}

-- Publishing a failure adds no success.
pub failure-PayValid :
    (accepts : Published → Bool) (id booking_id : ℕ) (r : Reason) (db : PayDb)
    → PayValid db
    → PayValid (publish accepts (payment_failure id booking_id r) db).1
unfolding publish
failure-PayValid accepts id booking_id r db v =
    elim (Bool-cases (accepts (payment_failure id booking_id r))) [
      | inr e ↦ rw (e, publish) v
      | inl e ↦
          rw (e, publish)
            (record {
              keys = v.keys;
              fresh = v.fresh;
              known = v.known;
              live = v.live;
              published =
                  All-append _ db.events (payment_failure id booking_id r ∷ []) v.published
                    ((λ i h. unfold is_success in absurd cc), tt);
              sound =
                  All-mono (IsSound db.refunds db.events) _ db.orders
                    (λ o s. record { within = s.within; once = rw (same_successes o.id) s.once })
                    v.sound;
            })
    ]
  where
    same_successes :
        (k : ℕ)
        → count_where (is_success k) (db.events ++ payment_failure id booking_id r ∷ [])
          ≡ count_where (is_success k) db.events
    same_successes k =
        unfold is_success in
        omega (
          arith,
          count_where-append (is_success k) db.events (payment_failure id booking_id r ∷ []),
        )
