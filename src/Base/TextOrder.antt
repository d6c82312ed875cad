-- ===== src/Base/TextOrder.antt =====
-- Texts that are found equal are equal, and their order is total.
use Prim.Native.Nat.compare as compare_ℕ
use Prim.Native.Nat.{ℕ, zero, suc, Ordering, compare as compare_ℕ}
use Prim.Native.Char.{code}
use Prim.Native.String.compare
use Prim.Native.String.{String, compare, then}
use mathlib.Core.Path.{◌≡◌, refl}
use mathlib.Core.Bool.{true, false}
use text.Mathlib.Text.{is_le}
use native.Mathlib.Omega.{arith}
use modelguard.Base.Equality.{◌==◌, string_eq}
use modelguard.Base.Text.{text_le}

reverse : Ordering → Ordering
reverse Ordering.lt = Ordering.gt
reverse Ordering.eq = Ordering.eq
reverse Ordering.gt = Ordering.lt

compare_ℕ-reverse : (m n : ℕ) → compare_ℕ n m ≡ reverse (compare_ℕ m n)
unfolding reverse
compare_ℕ-reverse zero zero = rw compare_ℕ.zero-zero refl
compare_ℕ-reverse zero (suc n) = rw (compare_ℕ.suc-zero n, compare_ℕ.zero-suc n) refl
compare_ℕ-reverse (suc m) zero = rw (compare_ℕ.suc-zero m, compare_ℕ.zero-suc m) refl
compare_ℕ-reverse (suc m) (suc n) =
    rw (compare_ℕ.suc-suc m n, compare_ℕ.suc-suc n m) (compare_ℕ-reverse m n)

reverse-then : (o p : Ordering) → then (reverse o) (reverse p) ≡ reverse (then o p)
unfolding reverse
reverse-then Ordering.lt p = refl
reverse-then Ordering.eq p = refl
reverse-then Ordering.gt p = refl

compare-reverse : (s t : String) → compare t s ≡ reverse (compare s t)
unfolding reverse
compare-reverse String.[] String.[] = rw compare.nil-nil refl
compare-reverse String.[] (String.◌∷◌ d t) = rw (compare.nil-cons d t, compare.cons-nil d t) refl
compare-reverse (String.◌∷◌ c s) String.[] = rw (compare.nil-cons c s, compare.cons-nil c s) refl
compare-reverse (String.◌∷◌ c s) (String.◌∷◌ d t) =
    rw
      (
        compare.cons-cons c d s t,
        compare.cons-cons d c t s,
        compare-reverse s t,
        compare_ℕ-reverse (code c) (code d),
      )
      (reverse-then (compare_ℕ (code c) (code d)) (compare s t))

is_le-reverse : (o : Ordering) → is_le o ≡ false → is_le (reverse o) ≡ true
unfolding reverse
is_le-reverse o h = ground arith

pub text_le_total : (s t : String) → text_le s t ≡ false → text_le t s ≡ true
text_le_total s t h = rw (compare-reverse s t) (is_le-reverse (compare s t) h)

pub text_eq : (x y : String) → x == y ≡ true → x ≡ y
text_eq x y h = ground arith
