-- ===== src/Base/Last.antt =====
-- Tables in which no row but the last passes a test.
use mathlib.Core.Path.{◌≡◌, refl, ap}
use mathlib.Core.Bool.{Bool, true, false}
use mathlib.Core.Option.{some}
use mathlib.Core.List.{List, [], ◌∷◌, ◌++◌}
use railway_booking_system.Base.Lists.{All, find_first, update_where, delete_where}

module _ {ℓ} {A : Type ℓ} (p : A → Bool) where
  abbrev pub NonePass : List A → Type 0
  NonePass = All (λ x. p x ≡ false)

  pub update_where-last :
      (f : A → A) (xs : List A) (x : A)
      → NonePass xs
      → p x ≡ true
      → update_where p f (xs ++ x ∷ []) ≡ xs ++ f x ∷ []
  update_where-last f [] x h e = rw e refl
  update_where-last f (y ∷ xs) x h e = rw h.0 (ap (λ l. y ∷ l) (update_where-last f xs x h.1 e))

  pub find_first-last :
      (xs : List A) (x : A) → NonePass xs → p x ≡ true → find_first p (xs ++ x ∷ []) ≡ some x
  find_first-last [] x h e = rw e refl
  find_first-last (y ∷ xs) x h e = rw h.0 (find_first-last xs x h.1 e)

  pub delete_where-last :
      (xs : List A) (x : A) → NonePass xs → p x ≡ true → delete_where p (xs ++ x ∷ []) ≡ xs
  delete_where-last [] x h e = rw e refl
  delete_where-last (y ∷ xs) x h e = rw h.0 (ap (λ l. y ∷ l) (delete_where-last xs x h.1 e))
