-- ===== src/Base/Result.antt =====
-- A computation that returns a value or raises an exception of type `E`.
use mathlib.Core.Path.{◌≡◌, refl, subst}
use mathlib.Core.Logic.{◌⊎◌, inl, inr}
use mathlib.Core.Bool.{Bool, true, false}
use modelguard.Base.Equality.{if◌then◌else◌}

pub data Result {ℓ κ} (E : Type ℓ) (A : Type κ) : Type (ℓ ⊔ κ) where
  ok : A → Result E A
  err : E → Result E A

pub ok-injective {ℓ κ} :
    {E : Type ℓ} {A : Type κ} {a b : A} → ◌≡◌ {A = Result E A} (ok a) (ok b) → a ≡ b
ok-injective h = cc

pub Result-cases {ℓ κ} :
    {E : Type ℓ} {A : Type κ} (r : Result E A) → ((a : A) × (r ≡ ok a)) ⊎ ((e : E) × (r ≡ err e))
Result-cases (ok a) = inl (a, refl)
Result-cases (err e) = inr (e, refl)

-- `if not test: raise e`
abbrev pub require {ℓ} : {E : Type ℓ} → Bool → E → Result E (Unit {0})
require false failure = err failure
require true _ = ok tt

module _ {ℓ κ μ} {E : Type ℓ} {A : Type κ} {B : Type μ} where
  infixl 5 ◌>>=◌
  abbrev pub ◌>>=◌ : Result E A → (A → Result E B) → Result E B
  err raised >>= rest = err raised
  ok value >>= rest = rest value

  -- What a chain that returned went through, handed on to what follows from it.
  pub bind_elim {ν} :
      {C : Type ν} (m : Result E A) (f : A → Result E B) {b : B}
      → (m >>= f) ≡ ok b
      → ((a : A) → m ≡ ok a → f a ≡ ok b → C)
      → C
  bind_elim (ok a) f h k = k a refl h
  bind_elim (err e) f h k = absurd (cc)

  pub ran_through :
      (m : Result E A) (f : A → Result E B) {b : B}
      → (m >>= f) ≡ ok b
      → (a : A) × (m ≡ ok a) × (f a ≡ ok b)
  ran_through m f h = bind_elim m f h λ a first second. (a, first, second)

module _ {ℓ κ} {E : Type ℓ} {B : Type κ} where
  infixl 5 ◌>>◌
  abbrev pub ◌>>◌ : Result E (Unit {0}) → Result E B → Result E B
  check >> rest = check >>= λ _. rest

module _ {ℓ κ μ ν ξ} {E : Type ℓ} {A : Type κ} {B : Type μ} {C : Type ν} {D : Type ξ} where
  -- The same for three computations and a value made of theirs.
  pub ran_all :
      (m : Result E A) (n : Result E B) (o : Result E C) (f : A → B → C → D) {d : D}
      → (m >>= λ a. n >>= λ b. o >>= λ c. ok (f a b c)) ≡ ok d
      → (a : A) × (b : B) × (c : C) × (m ≡ ok a) × (n ≡ ok b) × (o ≡ ok c) × (f a b c ≡ d)
  ran_all m n o f h = bind_elim m _ h λ a at_a h1.
      bind_elim n _ h1
        λ b at_b h2. bind_elim o _ h2 λ c at_c h3. (a, b, c, at_a, at_b, at_c, ok-injective h3)

-- What is raised, if anything is, is among the exceptions that a predicate describes.
module _ {ℓ κ} {E : Type ℓ} (P : E → Type κ) where
  unfoldable pub Raises {μ} : {A : Type μ} → Result E A → Type κ
  Raises (ok a) = Unit
  Raises (err e) = P e

  pub Raises-err {μ} : (A : Type μ) (e : E) → P e → Raises {A = A} (err e)
  unfolding Raises
  Raises-err A e h = h

  module _ {μ} {A : Type μ} where
    pub Raises-ok : (a : A) → Raises {A = A} (ok a)
    unfolding Raises
    Raises-ok a = tt

    pub Raises-raised : (m : Result E A) (e : E) → Raises m → m ≡ err e → P e
    unfolding Raises
    Raises-raised (ok a) e h at_e = absurd (cc at_e)
    Raises-raised (err f) e h at_e = subst P (cc at_e) h

    pub Raises->>= {ν} :
        {B : Type ν} (m : Result E A) (f : A → Result E B)
        → Raises m
        → ((a : A) → m ≡ ok a → Raises (f a))
        → Raises (m >>= f)
    unfolding Raises
    Raises->>= (ok a) f h k = k a refl
    Raises->>= (err e) f h k = h

    pub Raises-if :
        (test : Bool) (m n : Result E A) → Raises m → Raises n → Raises (if test then m else n)
    Raises-if true m n h k = h
    Raises-if false m n h k = k

pub require-holds {ℓ κ} :
    {E : Type ℓ} {A : Type κ} (b : Bool) (e : E) (rest : Result E A) (a : A)
    → (require b e >> rest) ≡ ok a
    → (b ≡ true) × (rest ≡ ok a)
require-holds true e rest a h = (refl, h)
require-holds false e rest a h = absurd (cc h)

module _ {ℓ κ μ} {E : Type ℓ} {A : Type κ} {B : Type μ} where
  -- A chain raises where its rest does, and where its beginning does.
  pub raises_after :
      (m : Result E A) (f : A → Result E B)
      → ((a : A) → (e : E) × (f a ≡ err e))
      → (e : E) × ((m >>= f) ≡ err e)
  raises_after (ok a) f h = h a
  raises_after (err e) f h = (e, refl)

  pub raises_first :
      (m : Result E A) (f : A → Result E B) (e : E) → m ≡ err e → (d : E) × ((m >>= f) ≡ err d)
  raises_first m f e h = (e, rw h refl)
