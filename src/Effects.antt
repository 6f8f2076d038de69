-- ===== src/Effects.antt =====
-- Handlers that write as they go: a failure keeps what was written before it, since the services
-- outside inventory-service open no transaction.
use railway_booking_system.Base.{Bool, true, false, Option, none, some, ◌≡◌, refl, ap, ◌∙◌}
use railway_booking_system.Errors.{Result, ok, err, Failure}

abbrev pub Act {ℓ κ} : Type ℓ → Type κ → Type (ℓ ⊔ κ)
Act S A = S → Result A × S

module _ {ℓ} {S : Type ℓ} where
  abbrev pub pure {κ} : {A : Type κ} → A → Act S A
  pure a s = (ok a, s)

  abbrev pub gets {κ} : {A : Type κ} → (S → A) → Act S A
  gets f s = (ok (f s), s)

  abbrev pub fail {κ} : {A : Type κ} → Failure → Act S A
  fail e s = (err e, s)

  abbrev pub modify : (S → S) → Act S (Unit {0})
  modify f s = (ok tt, f s)

  abbrev pub fail_if : Bool → Failure → Act S (Unit {0})
  fail_if true e s = (err e, s)
  fail_if false e s = (ok tt, s)

  abbrev pub or_fail {κ} : {A : Type κ} → Option A → Failure → Act S A
  or_fail none e s = (err e, s)
  or_fail (some a) e s = (ok a, s)

  -- What another service answered.
  abbrev pub answer {κ} : {A : Type κ} → Result A → Act S A
  answer r s = (r, s)

  -- `try { … } catch`, with what was written before the throw.
  abbrev pub catching {κ} : {A : Type κ} → Act S A → (Failure → Act S A) → Act S A
  catching m handler s = let r = m s in elim r.0 [ ok a ↦ (ok a, r.1) | err e ↦ handler e r.1 ]

  infixl 5 ◌>>=◌ ◌>>◌
  abbrev pub ◌>>=◌ {κ ι} : {A : Type κ} {B : Type ι} → Act S A → (A → Act S B) → Act S B
  ◌>>=◌ m f s = let r = m s in elim r.0 [ ok a ↦ f a r.1 | err e ↦ (err e, r.1) ]

  abbrev pub ◌>>◌ {ι} : {B : Type ι} → Act S (Unit {0}) → Act S B → Act S B
  m >> k = m >>= λ _. k

-- An invariant of the state that the action keeps, whether it returns or fails.
abbrev pub Keeps {ℓ κ} : {S : Type ℓ} {A : Type κ} → (S → Type 0) → Act S A → Type ℓ
Keeps {S} P m = (s : S) → P s → P (m s).1

module _ {ℓ κ ι} {S : Type ℓ} {A : Type κ} {B : Type ι} (P : S → Type 0) where
  after_step :
      (r : Result A) (f : A → Act S B) (s : S)
      → P s
      → ((a : A) → Keeps P (f a))
      → P (elim r as (λ _. Result B × S) [ ok a ↦ f a s | err e ↦ (err e, s) ]).1
  after_step (ok a) f s p k = k a s p
  after_step (err e) f s p k = p

  pub Keeps-bind :
      (m : Act S A) (f : A → Act S B) → Keeps P m → ((a : A) → Keeps P (f a)) → Keeps P (m >>= f)
  Keeps-bind m f h k s p = after_step (m s).0 f (m s).1 (h s p) k

module _ {ℓ κ} {S : Type ℓ} {B : Type κ} (P : S → Type 0) where
  -- What holds before and after a guard, a look-up that must succeed, and another service's answer.
  pub past_guard :
      (b : Bool) (e : Failure) (k : Act S B) (s : S)
      → P s
      → (b ≡ false → P (k s).1)
      → P ((fail_if b e >> k) s).1
  past_guard true e k s before after = before
  past_guard false e k s before after = after refl

  pub past_lookup {ι} :
      {A : Type ι} (o : Option A) (e : Failure) (k : A → Act S B) (s : S)
      → P s
      → ((a : A) → o ≡ some a → P (k a s).1)
      → P ((or_fail o e >>= k) s).1
  past_lookup none e k s before after = before
  past_lookup (some a) e k s before after = after a refl

  pub past_answer {ι} :
      {A : Type ι} (r : Result A) (k : A → Act S B) (s : S)
      → P s
      → ((a : A) → P (k a s).1)
      → P ((answer r >>= k) s).1
  past_answer (ok a) k s before after = after a
  past_answer (err e) k s before after = before

-- The two ways in which a step ends, each with what the rest makes of it.
module _ {ℓ κ ι τ} {S : Type ℓ} {A : Type κ} {B : Type ι} (Q : Result B × S → Type τ) where
  pub bind_cases :
      (m : Act S A) (f : A → Act S B) (s : S)
      → ((a : A) (t : S) → m s ≡ (ok a, t) → Q (f a t))
      → ((e : Failure) (t : S) → m s ≡ (err e, t) → Q (err e, t))
      → Q ((m >>= f) s)
  bind_cases m f s done failed = go (m s) refl
    where
      go :
          (x : Result A × S)
          → m s ≡ x
          → Q (elim x.0 as (λ _. Result B × S) [ ok a ↦ f a x.1 | err e ↦ (err e, x.1) ])
      go (ok a, t) h = done a t h
      go (err e, t) h = failed e t h

module _ {ℓ κ τ} {S : Type ℓ} {A : Type κ} (Q : Result A × S → Type τ) where
  pub catch_cases :
      (m : Act S A) (handler : Failure → Act S A) (s : S)
      → ((a : A) (t : S) → m s ≡ (ok a, t) → Q (ok a, t))
      → ((e : Failure) (t : S) → m s ≡ (err e, t) → Q (handler e t))
      → Q (catching m handler s)
  catch_cases m handler s done failed = go (m s) refl
    where
      go :
          (x : Result A × S)
          → m s ≡ x
          → Q (elim x.0 as (λ _. Result A × S) [ ok a ↦ (ok a, x.1) | err e ↦ handler e x.1 ])
      go (ok a, t) h = done a t h
      go (err e, t) h = failed e t h

module _ {ℓ κ ι} {S : Type ℓ} {A : Type κ} {B : Type ι} where
  rest_of : (A → Act S B) → Result A × S → Result B × S
  rest_of f (ok a, t) = f a t
  rest_of f (err e, t) = (err e, t)

  bind-rest_of : (m : Act S A) (f : A → Act S B) (s : S) → (m >>= f) s ≡ rest_of f (m s)
  unfolding rest_of
  bind-rest_of m f s = go (m s)
    where
      go :
          (x : Result A × S)
          → elim x.0 as (λ _. Result B × S) [ ok a ↦ f a x.1 | err e ↦ (err e, x.1) ] ≡ rest_of f x
      go (ok a, t) = refl
      go (err e, t) = refl

  pub bind-ok :
      (m : Act S A) (f : A → Act S B) (s : S) {a : A} {t : S}
      → m s ≡ (ok a, t)
      → (m >>= f) s ≡ f a t
  unfolding rest_of
  bind-ok m f s h = bind-rest_of m f s ∙ ap (rest_of f) h

  pub bind-err :
      (m : Act S A) (f : A → Act S B) (s : S) {e : Failure} {t : S}
      → m s ≡ (err e, t)
      → (m >>= f) s ≡ (err e, t)
  unfolding rest_of
  bind-err m f s h = bind-rest_of m f s ∙ ap (rest_of f) h

module _ {ℓ κ} {S : Type ℓ} {A : Type κ} where
  caught : (Failure → Act S A) → Result A × S → Result A × S
  caught handler (ok a, t) = (ok a, t)
  caught handler (err e, t) = handler e t

  catching-caught :
      (m : Act S A) (handler : Failure → Act S A) (s : S)
      → catching m handler s ≡ caught handler (m s)
  unfolding caught
  catching-caught m handler s = go (m s)
    where
      go :
          (x : Result A × S)
          → elim x.0 as (λ _. Result A × S) [ ok a ↦ (ok a, x.1) | err e ↦ handler e x.1 ]
            ≡ caught handler x
      go (ok a, t) = refl
      go (err e, t) = refl

  pub catching-ok :
      (m : Act S A) (handler : Failure → Act S A) (s : S) {a : A} {t : S}
      → m s ≡ (ok a, t)
      → catching m handler s ≡ (ok a, t)
  unfolding caught
  catching-ok m handler s h = catching-caught m handler s ∙ ap (caught handler) h

  pub catching-err :
      (m : Act S A) (handler : Failure → Act S A) (s : S) {e : Failure} {t : S}
      → m s ≡ (err e, t)
      → catching m handler s ≡ handler e t
  unfolding caught
  catching-err m handler s h = catching-caught m handler s ∙ ap (caught handler) h

-- What an action that has returned says of its first step.
module _ {ℓ κ} {S : Type ℓ} {B : Type κ} where
  pub past_fail_if :
      (b : Bool) (e : Failure) (k : Act S B) (s : S) {r : B} {t : S}
      → (fail_if b e >> k) s ≡ (ok r, t)
      → (b ≡ false) × (k s ≡ (ok r, t))
  past_fail_if true e k s {r} h = absurd (let q : err e ≡ ok r = ap (λ x. x.0) h in cc)
  past_fail_if false e k s h = (refl, h)

  pub past_or_fail {ι} :
      {A : Type ι} (o : Option A) (e : Failure) (k : A → Act S B) (s : S) {r : B} {t : S}
      → (or_fail o e >>= k) s ≡ (ok r, t)
      → (a : A) × (o ≡ some a) × (k a s ≡ (ok r, t))
  past_or_fail none e k s {r} h = absurd (let q : err e ≡ ok r = ap (λ x. x.0) h in cc)
  past_or_fail (some a) e k s h = (a, refl, h)

-- A step that is known to succeed.
module _ {ℓ κ} {S : Type ℓ} {B : Type κ} where
  pub through_fail_if :
      (b : Bool) (e : Failure) (k : Act S B) (s : S) → b ≡ false → (fail_if b e >> k) s ≡ k s
  through_fail_if true e k s h = absurd cc
  through_fail_if false e k s h = refl

  pub through_or_fail {ι} :
      {A : Type ι} (o : Option A) (e : Failure) (k : A → Act S B) (s : S) {a : A}
      → o ≡ some a
      → (or_fail o e >>= k) s ≡ k a s
  through_or_fail none e k s {a} h = absurd (let q : none ≡ some a = h in cc)
  through_or_fail (some b) e k s {a} h =
      let q : some b ≡ some a = h in let r : b ≡ a = cc in ap (λ x. k x s) r
