-- ===== src/Prelude/TextOrder.antt =====
-- The order of texts, which decides who of two users does something.
use Prim.Native.Nat.compare as compare_ℕ
use Prim.Native.Nat.{ℕ, zero, suc, Ordering, compare as compare_ℕ}
use Prim.Native.Char.{code}
use Prim.Native.String.compare
use Prim.Native.String.{String, [], ◌∷◌, compare, then}
use mathlib.Core.Path.{◌≡◌, refl}
use mathlib.Core.Logic.{◌≢◌}
use mathlib.Core.Bool.{Bool, true, false, not}
use text.Mathlib.TextEquality.{path_by_compare}
use native.Mathlib.Omega.{arith}

abbrev swapped : Ordering → Ordering
swapped Ordering.lt = Ordering.gt
swapped Ordering.eq = Ordering.eq
swapped Ordering.gt = Ordering.lt

compare_ℕ_swap : (m n : ℕ) → compare_ℕ n m ≡ swapped (compare_ℕ m n)
compare_ℕ_swap zero zero = rw compare_ℕ.zero-zero refl
compare_ℕ_swap zero (suc n) = rw (compare_ℕ.zero-suc, compare_ℕ.suc-zero) refl
compare_ℕ_swap (suc m) zero = rw (compare_ℕ.zero-suc, compare_ℕ.suc-zero) refl
compare_ℕ_swap (suc m) (suc n) =
    rw (compare_ℕ.suc-suc n m, compare_ℕ.suc-suc m n) (compare_ℕ_swap m n)

then_swap : (o r : Ordering) → then (swapped o) (swapped r) ≡ swapped (then o r)
then_swap Ordering.lt r = refl
then_swap Ordering.eq r = refl
then_swap Ordering.gt r = refl

compare_swap : (s t : String) → compare t s ≡ swapped (compare s t)
compare_swap [] [] = rw compare.nil-nil refl
compare_swap [] (d ∷ t) = rw (compare.cons-nil d t, compare.nil-cons d t) refl
compare_swap (c ∷ s) [] = rw (compare.cons-nil c s, compare.nil-cons c s) refl
compare_swap (c ∷ s) (d ∷ t) =
    rw
      (
        compare.cons-cons d c t s,
        compare.cons-cons c d s t,
        compare_ℕ_swap (code c) (code d),
        compare_swap s t,
      )
      (then_swap (compare_ℕ (code c) (code d)) (compare s t))

-- `a < b`, which agrees with JavaScript on texts without surrogate pairs.
unfoldable pub str_lt : String → String → Bool
str_lt a b = elim (compare a b) [ Ordering.lt ↦ true | _ ↦ false ]

-- Of two texts that differ, one is the lesser.
pub str_lt_swap : (a b : String) → a ≢ b → str_lt b a ≡ not (str_lt a b)
unfolding str_lt
str_lt_swap a b ne = rw (compare_swap a b, str_lt) (ground (arith, path_by_compare a b))
