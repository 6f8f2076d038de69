-- ===== src/Base/Lists.antt =====
-- Tables as lists of rows: SQL's WHERE, UPDATE, DELETE and COUNT by a Boolean test on a row.
use Prim.Native.Nat.{ℕ, suc, ◌+◌}
use mathlib.Core.Path.{◌≡◌, refl, ap}
use mathlib.Core.Logic.{inl, inr}
use mathlib.Core.Bool.{Bool, true, false, ◌||◌}
use mathlib.Core.Option.{Option, none, some}
use mathlib.Core.List.{List, [], ◌∷◌, ◌++◌, map}
use native.Mathlib.Omega.{arith}
use railway_booking_system.Base.Tests.{◌==◌, if◌then◌else◌, Bool-cases}

-- `xs.includes(n)` and SQL's `n = ANY(xs)`
abbrev pub elem : ℕ → List ℕ → Bool
elem n [] = false
elem n (x ∷ xs) = n == x || elem n xs

module _ {ℓ} {A : Type ℓ} where
  abbrev pub length : List A → ℕ
  length [] = 0
  length (x ∷ xs) = suc (length xs)

  -- SELECT … WHERE, and JavaScript's `filter`
  abbrev pub select : (A → Bool) → List A → List A
  select p [] = []
  select p (x ∷ xs) = let rest = select p xs in if p x then x ∷ rest else rest

  -- `find` and `findUnique`
  abbrev pub find_first : (A → Bool) → List A → Option A
  find_first p [] = none
  find_first p (x ∷ xs) = if p x then some x else find_first p xs

  -- JavaScript's `some`
  abbrev pub any : (A → Bool) → List A → Bool
  any p [] = false
  any p (x ∷ xs) = p x || any p xs

  -- UPDATE … WHERE, on one row and on a table
  abbrev pub update_row : (A → Bool) → (A → A) → A → A
  update_row p f x = if p x then f x else x

  abbrev pub update_where : (A → Bool) → (A → A) → List A → List A
  update_where p f [] = []
  update_where p f (x ∷ xs) = update_row p f x ∷ update_where p f xs

  -- DELETE … WHERE
  abbrev pub delete_where : (A → Bool) → List A → List A
  delete_where p [] = []
  delete_where p (x ∷ xs) = let rest = delete_where p xs in if p x then rest else x ∷ rest

  -- COUNT(*) FILTER (WHERE …)
  abbrev pub count_where : (A → Bool) → List A → ℕ
  count_where p [] = 0
  count_where p (x ∷ xs) = (if p x then 1 else 0) + count_where p xs

  pub length-select : (p : A → Bool) (xs : List A) → length (select p xs) ≡ count_where p xs
  length-select p [] = refl
  length-select p (x ∷ xs) = ground (arith, length-select p xs)

  pub count_where-append :
      (p : A → Bool) (xs ys : List A)
      → count_where p (xs ++ ys) ≡ count_where p xs + count_where p ys
  count_where-append p [] ys = omega arith
  count_where-append p (x ∷ xs) ys = omega (arith, count_where-append p xs ys)

  -- Rows that the update moves out of the count, into it, or within it.
  abbrev pub All {κ} : (A → Type κ) → List A → Type κ
  All P [] = Unit
  All P (x ∷ xs) = P x × All P xs

  -- Rows that the update moves out of the count, into it, or within it.
  pub count_where-update_out :
      (p q : A → Bool) (f : A → A) (xs : List A)
      → All (λ x. q x ≡ true → (p x ≡ true) × (p (f x) ≡ false)) xs
      → count_where p (update_where q f xs) + count_where q xs ≡ count_where p xs
  count_where-update_out p q f [] h = omega arith
  count_where-update_out p q f (x ∷ xs) h = ground (arith, h.0, count_where-update_out p q f xs h.1)

  pub count_where-update_in :
      (p q : A → Bool) (f : A → A) (xs : List A)
      → All (λ x. q x ≡ true → (p x ≡ false) × (p (f x) ≡ true)) xs
      → count_where p (update_where q f xs) ≡ count_where p xs + count_where q xs
  count_where-update_in p q f [] h = omega arith
  count_where-update_in p q f (x ∷ xs) h = ground (arith, h.0, count_where-update_in p q f xs h.1)

  pub count_where-update_same :
      (p q : A → Bool) (f : A → A) (xs : List A)
      → All (λ x. q x ≡ true → p (f x) ≡ p x) xs
      → count_where p (update_where q f xs) ≡ count_where p xs
  count_where-update_same p q f [] h = refl
  count_where-update_same p q f (x ∷ xs) h =
      ground (arith, h.0, count_where-update_same p q f xs h.1)

  -- Every row stands in the relation to every later row.
  abbrev pub AllPairs {κ} : (A → A → Type κ) → List A → Type κ
  AllPairs R [] = Unit
  AllPairs R (x ∷ xs) = All (R x) xs × AllPairs R xs

module _ {ℓ κ} {A : Type ℓ} (P : A → Type κ) where
  pub All-append : (xs ys : List A) → All P xs → All P ys → All P (xs ++ ys)
  All-append [] ys hx hy = hy
  All-append (x ∷ xs) ys hx hy = (hx.0, All-append xs ys hx.1 hy)

  pub All-mono {ι} : (Q : A → Type ι) (xs : List A) → ((x : A) → P x → Q x) → All P xs → All Q xs
  All-mono Q [] h a = tt
  All-mono Q (x ∷ xs) h a = (h x a.0, All-mono Q xs h a.1)

  pub All-all : (xs : List A) → ((x : A) → P x) → All P xs
  All-all [] h = tt
  All-all (x ∷ xs) h = (h x, All-all xs h)

  pub All-update_where {ι} :
      (Q : A → Type ι) (p : A → Bool) (f : A → A) (xs : List A)
      → ((x : A) → P x → Q (update_row p f x))
      → All P xs
      → All Q (update_where p f xs)
  All-update_where Q p f [] h a = tt
  All-update_where Q p f (x ∷ xs) h a = (h x a.0, All-update_where Q p f xs h a.1)

  pub All-zip {ι τ} :
      (Q : A → Type ι) (R : A → Type τ) (xs : List A)
      → ((x : A) → P x → Q x → R x)
      → All P xs
      → All Q xs
      → All R xs
  All-zip Q R [] h a b = tt
  All-zip Q R (x ∷ xs) h a b = (h x a.0 b.0, All-zip Q R xs h a.1 b.1)

  pub All-delete_where : (p : A → Bool) (xs : List A) → All P xs → All P (delete_where p xs)
  All-delete_where p [] a = tt
  All-delete_where p (x ∷ xs) a = elim (Bool-cases (p x)) [
    | inl e ↦ rw e (All-delete_where p xs a.1)
    | inr e ↦ rw e (a.0, All-delete_where p xs a.1)
  ]

  pub All-select : (p : A → Bool) (xs : List A) → All P xs → All P (select p xs)
  All-select p [] a = tt
  All-select p (x ∷ xs) a = elim (Bool-cases (p x)) [
    | inl e ↦ rw e (a.0, All-select p xs a.1)
    | inr e ↦ rw e (All-select p xs a.1)
  ]

-- What a selection is known to satisfy.
pub All-select_holds {ℓ} :
    {A : Type ℓ} (p : A → Bool) (xs : List A) → All (λ x. p x ≡ true) (select p xs)
All-select_holds p [] = tt
All-select_holds p (x ∷ xs) = elim (Bool-cases (p x)) [
  | inl e ↦ rw e (e, All-select_holds p xs)
  | inr e ↦ rw e (All-select_holds p xs)
]

-- An empty selection means that no row passes the test.
pub select-empty {ℓ} :
    {A : Type ℓ} (p : A → Bool) (xs : List A) → length (select p xs) ≡ 0 → All (λ x. p x ≡ false) xs
select-empty p [] h = tt
select-empty p (x ∷ xs) h = elim (Bool-cases (p x)) [
  | inl e ↦ absurd (ground (arith, e))
  | inr e ↦ (e, select-empty p xs (ground (arith, e)))
]

-- The same of a selection among selected rows.
pub select-select-empty {ℓ} :
    {A : Type ℓ} (p q : A → Bool) (xs : List A)
    → length (select p (select q xs)) ≡ 0
    → All (λ x. q x ≡ true → p x ≡ false) xs
select-select-empty p q [] h = tt
select-select-empty p q (x ∷ xs) h = elim (Bool-cases (q x)) [
  | inl e ↦
      let h' : length (select p (x ∷ select q xs)) ≡ 0 = (rw e at h) in
      elim (Bool-cases (p x)) [
        | inl d ↦ absurd (ground (arith, d))
        | inr d ↦ ((λ _. d), select-select-empty p q xs (rw d at h'))
      ]
  | inr e ↦ ((λ c. cc), select-select-empty p q xs (rw e at h))
]

module _ {ℓ κ} {A : Type ℓ} (R : A → A → Type κ) where
  pub AllPairs-append :
      (xs ys : List A)
      → AllPairs R xs
      → AllPairs R ys
      → All (λ x. All (R x) ys) xs
      → AllPairs R (xs ++ ys)
  AllPairs-append [] ys hx hy c = hy
  AllPairs-append (x ∷ xs) ys hx hy c =
      (All-append (R x) xs ys hx.0 c.0, AllPairs-append xs ys hx.1 hy c.1)

  pub AllPairs-select : (p : A → Bool) (xs : List A) → AllPairs R xs → AllPairs R (select p xs)
  AllPairs-select p [] a = tt
  AllPairs-select p (x ∷ xs) a = elim (Bool-cases (p x)) [
    | inl e ↦ rw e (All-select (R x) p xs a.0, AllPairs-select p xs a.1)
    | inr e ↦ rw e (AllPairs-select p xs a.1)
  ]

  pub AllPairs-delete_where :
      (p : A → Bool) (xs : List A) → AllPairs R xs → AllPairs R (delete_where p xs)
  AllPairs-delete_where p [] a = tt
  AllPairs-delete_where p (x ∷ xs) a = elim (Bool-cases (p x)) [
    | inl e ↦ rw e (AllPairs-delete_where p xs a.1)
    | inr e ↦ rw e (All-delete_where (R x) p xs a.0, AllPairs-delete_where p xs a.1)
  ]

  -- An update that keeps the relation between any two rows keeps it in the table.
  pub AllPairs-update_where :
      (p : A → Bool) (f : A → A) (xs : List A)
      → ((x y : A) → R x y → R (update_row p f x) (update_row p f y))
      → AllPairs R xs
      → AllPairs R (update_where p f xs)
  AllPairs-update_where p f [] h a = tt
  AllPairs-update_where p f (x ∷ xs) h a = (spread xs a.0, AllPairs-update_where p f xs h a.1)
    where
      spread : (ys : List A) → All (R x) ys → All (R (update_row p f x)) (update_where p f ys)
      spread [] b = tt
      spread (y ∷ ys) b = (h x y b.0, spread ys b.1)

-- Two tests that agree on the rows of a table update it alike.
pub update_where-congr {ℓ} :
    {A : Type ℓ} (p q : A → Bool) (f : A → A) (xs : List A)
    → All (λ x. p x ≡ q x) xs
    → update_where p f xs ≡ update_where q f xs
update_where-congr p q f [] h = refl
update_where-congr p q f (x ∷ xs) h =
    rw h.0 (ap (λ r. update_row q f x ∷ r) (update_where-congr p q f xs h.1))

pub delete_where-congr {ℓ} :
    {A : Type ℓ} (p q : A → Bool) (xs : List A)
    → All (λ x. p x ≡ q x) xs
    → delete_where p xs ≡ delete_where q xs
delete_where-congr p q [] h = refl
delete_where-congr p q (x ∷ xs) h = rw (h.0, delete_where-congr p q xs h.1)

-- An update that keeps a key keeps the column.
pub map-update_where {ℓ κ} :
    {A : Type ℓ} {B : Type κ} (key : A → B) (p : A → Bool) (f : A → A) (xs : List A)
    → ((x : A) → key (f x) ≡ key x)
    → map key (update_where p f xs) ≡ map key xs
map-update_where key p f [] h = refl
map-update_where key p f (x ∷ xs) h = elim (Bool-cases (p x)) [
  | inl e ↦ rw (e, h x, map-update_where key p f xs h)
  | inr e ↦ rw (e, map-update_where key p f xs h)
]

module _ {ℓ} {A : Type ℓ} (p : A → Bool) where
  pub any-false : (xs : List A) → any p xs ≡ false → All (λ x. p x ≡ false) xs
  any-false [] h = tt
  any-false (x ∷ xs) h = (ground (arith, h), any-false xs (ground (arith, h)))

  pub count_where-none : (xs : List A) → All (λ x. p x ≡ false) xs → count_where p xs ≡ 0
  count_where-none [] h = refl
  count_where-none (x ∷ xs) h = ground (arith, h.0, count_where-none xs h.1)

  pub count_where-update_none :
      (q : A → Bool) (f : A → A) (xs : List A)
      → ((x : A) → p (update_row q f x) ≡ false)
      → count_where p (update_where q f xs) ≡ 0
  count_where-update_none q f [] h = refl
  count_where-update_none q f (x ∷ xs) h = ground (arith, h x, count_where-update_none q f xs h)

pub All-map {ℓ κ ι} :
    {A : Type ℓ} {B : Type κ} (P : B → Type ι) (f : A → B) (xs : List A)
    → All P (map f xs)
    → All (λ x. P (f x)) xs
All-map P f [] h = tt
All-map P f (x ∷ xs) h = (h.0, All-map P f xs h.1)

module _ {ℓ} {A : Type ℓ} (p : A → Bool) where
  pub delete_where-append :
      (xs ys : List A) → delete_where p (xs ++ ys) ≡ delete_where p xs ++ delete_where p ys
  delete_where-append [] ys = refl
  delete_where-append (x ∷ xs) ys = elim (Bool-cases (p x)) [
    | inl e ↦ rw e (delete_where-append xs ys)
    | inr e ↦ rw e (ap (λ r. x ∷ r) (delete_where-append xs ys))
  ]

  pub delete_where-none : (xs : List A) → All (λ x. p x ≡ false) xs → delete_where p xs ≡ xs
  delete_where-none [] h = refl
  delete_where-none (x ∷ xs) h = rw h.0 (ap (λ r. x ∷ r) (delete_where-none xs h.1))

  pub delete_where-all : (xs : List A) → All (λ x. p x ≡ true) xs → delete_where p xs ≡ []
  delete_where-all [] h = refl
  delete_where-all (x ∷ xs) h = rw h.0 (delete_where-all xs h.1)

-- An element that is appended where none was found is the one that is found.
pub find_first-append {ℓ} :
    {A : Type ℓ} (p : A → Bool) (xs : List A) (x : A)
    → find_first p xs ≡ none
    → p x ≡ true
    → find_first p (xs ++ x ∷ []) ≡ some x
find_first-append p [] x h e = rw e refl
find_first-append p (y ∷ ys) x h e = elim (Bool-cases (p y)) [
  | inl c ↦ absurd (let h' : some y ≡ none = (rw c at h) in cc)
  | inr c ↦ rw c (find_first-append p ys x (rw c at h) e)
]

pub find_first-none {ℓ} :
    {A : Type ℓ} (p : A → Bool) (xs : List A) → any p xs ≡ false → find_first p xs ≡ none
find_first-none p [] h = refl
find_first-none p (x ∷ xs) h = elim (Bool-cases (p x)) [
  | inl c ↦ absurd (let h' : true ≡ false = (rw c at h) in cc)
  | inr c ↦ rw c (find_first-none p xs (rw c at h))
]
