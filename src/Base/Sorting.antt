-- ===== src/Base/Sorting.antt =====
-- `sorted(xs, key=...)`: a stable insertion sort by a test of order.
use mathlib.Core.Bool.{Bool, true, false}
use mathlib.Core.Path.{◌≡◌, refl}
use mathlib.Core.List.{List, [], ◌∷◌, Perm}
use mathlib.Core.List.Perm
use modelguard.Base.Equality.{if◌then◌else◌}
use modelguard.Base.Numbers.{Bool-cases}
use mathlib.Core.Logic.{inl, inr}

module _ {ℓ} {A : Type ℓ} (le : A → A → Bool) where
  unfoldable pub insert_sorted : A → List A → List A
  insert_sorted x [] = x ∷ []
  insert_sorted x (y ∷ ys) = if le x y then x ∷ y ∷ ys else y ∷ insert_sorted x ys

  unfoldable pub sorted : List A → List A
  unfolding insert_sorted
  sorted [] = []
  sorted (x ∷ xs) = insert_sorted x (sorted xs)

  insert_sorted-perm : (x : A) (xs : List A) → Perm (insert_sorted x xs) (x ∷ xs)
  unfolding insert_sorted
  insert_sorted-perm x [] = Perm.refl (x ∷ [])
  insert_sorted-perm x (y ∷ ys) = elim (Bool-cases (le x y)) [
    | inl e ↦ rw e (Perm.refl (x ∷ y ∷ ys))
    | inr e ↦ rw e (Perm.trans (Perm.cons y (insert_sorted-perm x ys)) (Perm.swap x y ys))
  ]

  -- Sorting loses and invents nothing.
  pub sorted-perm : (xs : List A) → Perm (sorted xs) xs
  unfolding sorted
  sorted-perm [] = Perm.refl []
  sorted-perm (x ∷ xs) =
      Perm.trans (insert_sorted-perm x (sorted xs)) (Perm.cons x (sorted-perm xs))

  -- Each element is in order with the next.
  HeadFits : A → List A → Type 0
  HeadFits x [] = Unit
  HeadFits x (y ∷ ys) = le x y ≡ true

  Ordered : List A → Type 0
  Ordered [] = Unit
  Ordered (x ∷ xs) = HeadFits x xs × Ordered xs

  insert_sorted-HeadFits :
      (x y : A) (ys : List A) → le y x ≡ true → HeadFits y ys → HeadFits y (insert_sorted x ys)
  unfolding insert_sorted HeadFits
  insert_sorted-HeadFits x y [] yx fits = yx
  insert_sorted-HeadFits x y (z ∷ ys) yx fits = elim (Bool-cases (le x z)) [
    | inl e ↦ rw e yx
    | inr e ↦ rw e fits
  ]

  module _ (total : (x y : A) → le x y ≡ false → le y x ≡ true) where
    insert_sorted-Ordered : (x : A) (ys : List A) → Ordered ys → Ordered (insert_sorted x ys)
    unfolding insert_sorted HeadFits Ordered
    insert_sorted-Ordered x [] o = (tt, tt)
    insert_sorted-Ordered x (y ∷ ys) (fits, o) = elim (Bool-cases (le x y)) [
      | inl e ↦ rw (e, insert_sorted) (e, (fits, o))
      | inr e ↦
          rw (e, insert_sorted)
            (insert_sorted-HeadFits x y ys (total x y e) fits, insert_sorted-Ordered x ys o)
    ]

    sorted-Ordered : (xs : List A) → Ordered (sorted xs)
    unfolding sorted Ordered
    sorted-Ordered [] = tt
    sorted-Ordered (x ∷ xs) = insert_sorted-Ordered x (sorted xs) (sorted-Ordered xs)

    sorted_of_Ordered : (xs : List A) → Ordered xs → sorted xs ≡ xs
    unfolding sorted insert_sorted Ordered HeadFits
    sorted_of_Ordered [] o = refl
    sorted_of_Ordered (x ∷ []) o = refl
    sorted_of_Ordered (x ∷ y ∷ ys) (fits, o) = rw (sorted_of_Ordered (y ∷ ys) o, fits) refl

    -- Sorting a sorted list changes nothing.
    pub sorted-sorted : (xs : List A) → sorted (sorted xs) ≡ sorted xs
    sorted-sorted xs = sorted_of_Ordered (sorted xs) (sorted-Ordered xs)
