-- ===== src/Base/Lists.antt =====
-- Lists measured by native numbers, Python's `all` and `any`, and predicates on all elements.
use Prim.Native.Nat.{ℕ, suc, ◌+◌}
use mathlib.Core.Path.{◌≡◌, refl, ap, ◌∙◌}
use mathlib.Core.Logic.{◌⊎◌, inl, inr, ◌↔◌, ⊎_elim}
use mathlib.Core.Bool.{Bool, true, false, ◌&&◌, ◌||◌}
use mathlib.Core.List.{List, [], ◌∷◌, ◌++◌, Memᴰ}
use mathlib.Core.List.Memᴰ
use native.Mathlib.Omega.{arith}

module _ {ℓ} {A : Type ℓ} where
  abbrev pub length : List A → ℕ
  length [] = 0
  length (x ∷ xs) = suc (length xs)

  abbrev pub all : (A → Bool) → List A → Bool
  all p [] = true
  all p (x ∷ xs) = p x && all p xs

  abbrev pub any : (A → Bool) → List A → Bool
  any p [] = false
  any p (x ∷ xs) = p x || any p xs

  -- `[x for x in xs if p(x)]`
  abbrev pub select : (A → Bool) → List A → List A
  select p [] = []
  select p (x ∷ xs) = let rest = select p xs in elim (p x) [ true ↦ x ∷ rest | false ↦ rest ]

  abbrev pub is_empty : List A → Bool
  is_empty [] = true
  is_empty (x ∷ xs) = false

  abbrev pub All {κ} : (A → Type κ) → List A → Type κ
  All P [] = Unit
  All P (x ∷ xs) = P x × All P xs

pub both : (a b : Bool) → a && b ≡ true → (a ≡ true) × (b ≡ true)
both a b h = ground arith

pub neither : (a b : Bool) → a || b ≡ false → (a ≡ false) × (b ≡ false)
neither a b h = ground arith

module _ {ℓ} {A : Type ℓ} where
  pub length-append : (xs ys : List A) → length (xs ++ ys) ≡ length xs + length ys
  length-append [] ys = omega arith
  length-append (x ∷ xs) ys = omega (arith, length-append xs ys)

  pub List-cases : (xs : List A) → (xs ≡ []) ⊎ (is_empty xs ≡ false)
  List-cases [] = inl refl
  List-cases (x ∷ xs) = inr refl

module _ {ℓ κ μ} {A : Type ℓ} {P : A → Type κ} {Q : A → Type μ} (f : (x : A) → P x → Q x) where
  pub All-imp : (xs : List A) → All P xs → All Q xs
  All-imp [] h = tt
  All-imp (x ∷ xs) (p, ps) = (f x p, All-imp xs ps)

module _ {ℓ} {A : Type ℓ} where
  -- Two sums of lists whose second parts are equally long are equal only part by part.
  pub append_inj :
      (xs ys as' bs : List A)
      → length as' ≡ length bs
      → xs ++ as' ≡ ys ++ bs
      → (xs ≡ ys) × (as' ≡ bs)
  append_inj [] [] as' bs n e = (refl, e)
  append_inj [] (y ∷ ys) as' bs n e =
      absurd (omega (arith, n, ap length e, length-append (y ∷ ys) bs))
  append_inj (x ∷ xs) [] as' bs n e =
      absurd (omega (arith, n, ap length e, length-append (x ∷ xs) as'))
  append_inj (x ∷ xs) (y ∷ ys) as' bs n e =
      let (p, q) = append_inj xs ys as' bs n (cc e) in (cc (e, p), q)

-- Membership in a list with one more element, in a selection and in a sum.
module _ {ℓ} {A : Type ℓ} where
  pub Memᴰ-cons : (a x : A) (xs : List A) → Memᴰ a (x ∷ xs) ↔ ((a ≡ x) ⊎ Memᴰ a xs)
  Memᴰ-cons a x xs = (Memᴰ.cases_cons, ⊎_elim Memᴰ.head Memᴰ.tail)

  pub Memᴰ-nil : (a : A) → ¬ Memᴰ a []
  Memᴰ-nil a m = Memᴰ.not-nil m

  pub Memᴰ-select :
      (p : A → Bool) (a : A) (xs : List A) → Memᴰ a (select p xs) ↔ (Memᴰ a xs × (p a ≡ true))
  Memᴰ-select p a [] = (λ m. absurd (Memᴰ.not-nil m), λ (m, _). m)
  Memᴰ-select p a (x ∷ xs) = by_test (Memᴰ-select p a xs) (p x) refl
    where
      by_test :
          (Memᴰ a (select p xs) ↔ (Memᴰ a xs × (p a ≡ true)))
          → (b : Bool) → p x ≡ b
          → Memᴰ a (elim b [ true ↦ x ∷ select p xs | false ↦ select p xs ])
            ↔ (Memᴰ a (x ∷ xs) × (p a ≡ true))
      by_test rest true e = (
        λ m.
            ⊎_elim (λ q. (Memᴰ.head q, ap p q ∙ e)) (λ m. (Memᴰ.tail (rest.0 m).0, (rest.0 m).1))
              (Memᴰ.cases_cons m),
        λ (m, h). ⊎_elim Memᴰ.head (λ m. Memᴰ.tail (rest.1 (m, h))) (Memᴰ.cases_cons m),
      )
      by_test rest false e = (
        λ m. (Memᴰ.tail (rest.0 m).0, (rest.0 m).1),
        λ (m, h). ⊎_elim (λ q. absurd (cc (ap p q, e, h))) (λ m. rest.1 (m, h)) (Memᴰ.cases_cons m),
      )

  pub Memᴰ-append : (a : A) (xs ys : List A) → Memᴰ a (xs ++ ys) ↔ (Memᴰ a xs ⊎ Memᴰ a ys)
  Memᴰ-append a xs ys = (Memᴰ.append_cases xs, ⊎_elim (Memᴰ.append_left ys) (Memᴰ.append_right xs))
