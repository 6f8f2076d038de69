-- ===== src/Inventory/Transaction.antt =====
-- `prisma.$transaction`: an action that returns a value and the new tables, or fails and is rolled
-- back, so that a failure carries no tables.
use railway_booking_system.Base.{refl, subst, ap, ◌≡◌, Bool, true, false, Option, none, some}
use railway_booking_system.Errors.{Result, ok, err, Failure}
use railway_booking_system.Inventory.Rows.{Db}

abbrev pub Tx {ℓ} : Type ℓ → Type ℓ
Tx A = Db → Result (A × Db)

module _ {ℓ} {A : Type ℓ} where
  abbrev pub pure : A → Tx A
  pure a db = ok (a, db)

  abbrev pub gets : (Db → A) → Tx A
  gets f db = ok (f db, db)

  abbrev pub or_throw : Option A → Failure → Tx A
  or_throw none e db = err e
  or_throw (some a) e db = ok (a, db)

abbrev pub modify : (Db → Db) → Tx (Unit {0})
modify f db = ok (tt, f db)

abbrev pub throw_if : Bool → Failure → Tx (Unit {0})
throw_if true e db = err e
throw_if false e db = ok (tt, db)

infixl 5 ◌>>=◌ ◌>>◌
abbrev pub ◌>>=◌ {ℓ κ} : {A : Type ℓ} {B : Type κ} → Tx A → (A → Tx B) → Tx B
◌>>=◌ m f db = elim (m db) [ ok (a, db') ↦ f a db' | err e ↦ err e ]

abbrev pub ◌>>◌ {κ} : {B : Type κ} → Tx (Unit {0}) → Tx B → Tx B
m >> k = m >>= λ _. k

-- What holds of the value and the tables that a transaction commits, if it commits.
pub record Commits {ℓ} {A : Type ℓ} (Q : A → Db → Type 0) (r : Result (A × Db)) : Type ℓ where
  pub at : (a : A) (db : Db) → r ≡ ok (a, db) → Q a db

module _ {ℓ} {A : Type ℓ} (Q : A → Db → Type 0) where
  abbrev Holds : Result (A × Db) → Type 0
  Holds (ok (a, db)) = Q a db
  Holds (err e) = Unit

  pub Commits-ok : (a : A) (db : Db) → Q a db → Commits Q (ok (a, db))
  Commits-ok a db h = record { at = λ a' db' e. subst Holds e h }

  pub Commits-err : (e : Failure) → Commits Q (err e)
  Commits-err e = record { at = λ a' db' p. cc }

  -- Past a guard, a look-up that must succeed, or any first step.
  pub Commits-guard :
      (b : Bool) (e : Failure) (k : Tx A) (db : Db)
      → (b ≡ false → Commits Q (k db))
      → Commits Q ((throw_if b e >> k) db)
  Commits-guard true e k db h = Commits-err e
  Commits-guard false e k db h = h refl

  pub Commits-or_throw {κ} :
      {B : Type κ} (o : Option B) (e : Failure) (k : B → Tx A) (db : Db)
      → ((b : B) → o ≡ some b → Commits Q (k b db))
      → Commits Q ((or_throw o e >>= k) db)
  Commits-or_throw none e k db h = Commits-err e
  Commits-or_throw (some b) e k db h = h b refl

module _ {ℓ κ} {A : Type ℓ} {B : Type κ} (P : A → Db → Type 0) (Q : B → Db → Type 0) where
  after_result :
      (r : Result (A × Db)) (f : A → Tx B)
      → Commits P r
      → ((a : A) (db' : Db) → P a db' → Commits Q (f a db'))
      → Commits Q (elim r [ ok (a, db') ↦ f a db' | err e ↦ err e ])
  after_result (ok (a, db')) f c h = h a db' (c.at a db' refl)
  after_result (err e) f c h = Commits-err Q e

  pub Commits-bind :
      (m : Tx A) (f : A → Tx B) (db : Db)
      → Commits P (m db)
      → ((a : A) (db' : Db) → P a db' → Commits Q (f a db'))
      → Commits Q ((m >>= f) db)
  Commits-bind m f db c h = after_result (m db) f c h

pub Commits-mono {ℓ} :
    {A : Type ℓ} (P Q : A → Db → Type 0) (r : Result (A × Db))
    → ((a : A) (db : Db) → P a db → Q a db)
    → Commits P r
    → Commits Q r
Commits-mono P Q r h c = record { at = λ a db e. h a db (c.at a db e) }

-- Past a step that succeeds.
pub bind_ok :
    {A B : Type 0} (m : Tx A) (db : Db) {db' : Db} {a : A} (k : A → Tx B)
    → m db ≡ ok (a, db')
    → (m >>= k) db ≡ k a db'
bind_ok m db k h = ap (λ r. elim r [ ok (a, db') ↦ k a db' | err e ↦ err e ]) h
