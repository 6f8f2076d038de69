-- ===== src/Base/Keys.antt =====
-- Tables with a primary key: selecting rows and updating them again by their keys.
use Prim.Native.Nat.{ℕ}
use mathlib.Core.Path.{◌≡◌, refl}
use mathlib.Core.Logic.{◌≢◌}
use mathlib.Core.Bool.{Bool, false}
use mathlib.Core.List.{List, [], ◌∷◌, map}
use native.Mathlib.Omega.{arith}
use railway_booking_system.Base.Lists.{
  elem, select, update_where, delete_where, All, AllPairs, update_where-congr, delete_where-congr,
}

module _ {ℓ} {A : Type ℓ} (key : A → ℕ) where
  abbrev pub DistinctKeys : List A → Type 0
  DistinctKeys = AllPairs (λ x y. key x ≢ key y)

  elem_absent :
      (p : A → Bool) (n : ℕ) (xs : List A)
      → All (λ y. n ≢ key y) xs
      → elem n (map key (select p xs)) ≡ false
  elem_absent p n [] h = refl
  elem_absent p n (x ∷ xs) h = ground (arith, elem_absent p n xs h.1)

  later_rows :
      (p : A → Bool) (x : A) (xs ys : List A)
      → All (λ y. key x ≢ key y) ys
      → All (λ y. elem (key y) (map key (select p xs)) ≡ p y) ys
      → All (λ y. elem (key y) (map key (select p (x ∷ xs))) ≡ p y) ys
  later_rows p x xs [] d h = tt
  later_rows p x xs (y ∷ ys) d h = (ground (arith, d.0, h.0), later_rows p x xs ys d.1 h.1)

  -- Where keys are distinct, a row's key is among the selected ones exactly if it was selected.
  pub elem-select :
      (p : A → Bool) (xs : List A)
      → DistinctKeys xs
      → All (λ y. elem (key y) (map key (select p xs)) ≡ p y) xs
  elem-select p [] d = tt
  elem-select p (x ∷ xs) d = (
    ground (arith, elem_absent p (key x) xs d.0),
    later_rows p x xs xs d.0 (elem-select p xs d.1),
  )

  -- UPDATE … WHERE key = ANY(the selected keys) updates the selected rows.
  pub update_by_key :
      (p : A → Bool) (f : A → A) (xs : List A)
      → DistinctKeys xs
      → update_where (λ y. elem (key y) (map key (select p xs))) f xs ≡ update_where p f xs
  update_by_key p f xs d = update_where-congr _ p f xs (elem-select p xs d)

  pub delete_by_key :
      (p : A → Bool) (xs : List A)
      → DistinctKeys xs
      → delete_where (λ y. elem (key y) (map key (select p xs))) xs ≡ delete_where p xs
  delete_by_key p xs d = delete_where-congr _ p xs (elem-select p xs d)
