-- ===== src/Base/Sorted.antt =====
-- What the insertion sort keeps of a list.
use Prim.Native.Nat.{ℕ, suc, ◌≤◌}
use mathlib.Core.Path.{◌≡◌, refl, sym, ap, ◌∙◌}
use mathlib.Core.Logic.{inl, inr}
use mathlib.Core.Bool.{Bool, true, false, ◌||◌}
use mathlib.Core.List.{List, [], ◌∷◌, map}
use native.Mathlib.Omega.{arith}
use railway_booking_system.Base.Tests.{leb, Bool-cases}
use railway_booking_system.Base.Lists.{length, select, any, All, AllPairs, All-mono, All-select}
use railway_booking_system.Base.Sort.{insert_by, sort_by}

module _ {ℓ κ} {A : Type ℓ} {B : Type κ} (key : B → ℕ) (f : A → B) where
  insert_by-map :
      (x : A) (ys : List A)
      → insert_by key (f x) (map f ys) ≡ map f (insert_by (λ a. key (f a)) x ys)
  unfolding insert_by
  insert_by-map x [] = refl
  insert_by-map x (y ∷ ys) = elim (Bool-cases (leb (key (f x)) (key (f y)))) [
    | inl e ↦ rw e refl
    | inr e ↦ rw e (ap (λ r. f y ∷ r) (insert_by-map x ys))
  ]

  pub sort_by-map : (xs : List A) → sort_by key (map f xs) ≡ map f (sort_by (λ a. key (f a)) xs)
  unfolding sort_by
  sort_by-map [] = refl
  sort_by-map (x ∷ xs) =
      ap (insert_by key (f x)) (sort_by-map xs) ∙ insert_by-map x (sort_by (λ a. key (f a)) xs)

module _ {ℓ κ} {A : Type ℓ} (key : A → ℕ) (P : A → Type κ) where
  All-insert_by : (x : A) (ys : List A) → P x → All P ys → All P (insert_by key x ys)
  unfolding insert_by
  All-insert_by x [] h a = (h, tt)
  All-insert_by x (y ∷ ys) h (b, a) = elim (Bool-cases (leb (key x) (key y))) [
    | inl e ↦ rw e (h, (b, a))
    | inr e ↦ rw e (b, All-insert_by x ys h a)
  ]

  pub All-sort_by : (xs : List A) → All P xs → All P (sort_by key xs)
  unfolding sort_by
  All-sort_by [] a = tt
  All-sort_by (x ∷ xs) (h, a) = All-insert_by x (sort_by key xs) h (All-sort_by xs a)

module _ {ℓ} {A : Type ℓ} (key : A → ℕ) where
  length-insert_by : (x : A) (ys : List A) → length (insert_by key x ys) ≡ suc (length ys)
  unfolding insert_by
  length-insert_by x [] = refl
  length-insert_by x (y ∷ ys) = elim (Bool-cases (leb (key x) (key y))) [
    | inl e ↦ rw e refl
    | inr e ↦ rw e (ap suc (length-insert_by x ys))
  ]

  pub length-sort_by : (xs : List A) → length (sort_by key xs) ≡ length xs
  unfolding sort_by
  length-sort_by [] = refl
  length-sort_by (x ∷ xs) = length-insert_by x (sort_by key xs) ∙ ap suc (length-sort_by xs)

  any-insert_by :
      (p : A → Bool) (x : A) (ys : List A) → any p (insert_by key x ys) ≡ (p x || any p ys)
  unfolding insert_by
  any-insert_by p x [] = refl
  any-insert_by p x (y ∷ ys) = elim (Bool-cases (leb (key x) (key y))) [
    | inl e ↦ rw e refl
    | inr e ↦ rw (e, any-insert_by p x ys) (ground arith)
  ]

  pub any-sort_by : (p : A → Bool) (xs : List A) → any p (sort_by key xs) ≡ any p xs
  unfolding sort_by
  any-sort_by p [] = refl
  any-sort_by p (x ∷ xs) =
      any-insert_by p x (sort_by key xs) ∙ ap (λ b. p x || b) (any-sort_by p xs)

  AtLeast : ℕ → List A → Type 0
  AtLeast n = All (λ a. n ≤ key a)

  IsSorted : List A → Type 0
  IsSorted [] = Unit {0}
  IsSorted (x ∷ xs) = AtLeast (key x) xs × IsSorted xs

  insert_by-IsSorted : (x : A) (ys : List A) → IsSorted ys → IsSorted (insert_by key x ys)
  unfolding insert_by IsSorted AtLeast
  insert_by-IsSorted x [] s = (tt, tt)
  insert_by-IsSorted x (y ∷ ys) (a, s) = elim (Bool-cases (leb (key x) (key y))) [
    | inl e ↦ rw e (
      (
        (ground arith),
        All-mono (λ b. key y ≤ key b) (λ b. key x ≤ key b) ys (λ b h. ground arith) a,
      ),
      (a, s),
    )
    | inr e ↦
        rw e
          (All-insert_by key (λ b. key y ≤ key b) x ys (ground arith) a, insert_by-IsSorted x ys s)
  ]

  sort_by-IsSorted : (xs : List A) → IsSorted (sort_by key xs)
  unfolding sort_by IsSorted
  sort_by-IsSorted [] = tt
  sort_by-IsSorted (x ∷ xs) = insert_by-IsSorted x (sort_by key xs) (sort_by-IsSorted xs)

  ordered : (xs : List A) → IsSorted xs → AllPairs (λ a b. key a ≤ key b) xs
  unfolding IsSorted AtLeast
  ordered [] h = tt
  ordered (x ∷ xs) (a, h) = (a, ordered xs h)

  pub sort_by-AllPairs : (xs : List A) → AllPairs (λ a b. key a ≤ key b) (sort_by key xs)
  sort_by-AllPairs xs = ordered (sort_by key xs) (sort_by-IsSorted xs)

  insert_by-front : (x : A) (ys : List A) → AtLeast (key x) ys → insert_by key x ys ≡ x ∷ ys
  unfolding insert_by AtLeast
  insert_by-front x [] a = refl
  insert_by-front x (y ∷ ys) (h, a) = let e : leb (key x) (key y) ≡ true = ground arith in rw e refl

  module _ (p : A → Bool) where
    select-insert_by_out :
        (x : A) (ys : List A) → p x ≡ false → select p (insert_by key x ys) ≡ select p ys
    unfolding insert_by
    select-insert_by_out x [] h = rw h refl
    select-insert_by_out x (y ∷ ys) h = elim (Bool-cases (leb (key x) (key y))) [
      | inl e ↦ rw (e, h) refl
      | inr e ↦ rw (e, select-insert_by_out x ys h) refl
    ]

    select-insert_by_in :
        (x : A) (ys : List A)
        → p x ≡ true
        → IsSorted ys
        → select p (insert_by key x ys) ≡ insert_by key x (select p ys)
    unfolding insert_by IsSorted AtLeast
    select-insert_by_in x [] h s = rw h refl
    select-insert_by_in x (y ∷ ys) h (a, s) = elim (Bool-cases (leb (key x) (key y))) [
      | inl e ↦
          let b : AtLeast (key x) (y ∷ ys) = (
            (ground arith),
            All-mono (λ b. key y ≤ key b) (λ b. key x ≤ key b) ys (λ b g. ground arith) a,
          ) in
          rw (e, h)
            (sym (
              insert_by-front x (select p (y ∷ ys)) (All-select (λ b. key x ≤ key b) p (y ∷ ys) b)))
      | inr e ↦ elim (Bool-cases (p y)) [
        | inl q ↦ rw (e, q, e, select-insert_by_in x ys h s) refl
        | inr q ↦ rw (e, q) (select-insert_by_in x ys h s)
      ]
    ]

    pub sort_by-select : (xs : List A) → select p (sort_by key xs) ≡ sort_by key (select p xs)
    unfolding sort_by
    sort_by-select [] = refl
    sort_by-select (x ∷ xs) = elim (Bool-cases (p x)) [
      | inl h ↦ rw h (
          select-insert_by_in x (sort_by key xs) h (sort_by-IsSorted xs)
          ∙ ap (insert_by key x) (sort_by-select xs))
      | inr h ↦ rw h (select-insert_by_out x (sort_by key xs) h ∙ sort_by-select xs)
    ]
