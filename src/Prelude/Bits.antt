-- ===== src/Prelude/Bits.antt =====
-- The binary digits of numbers, as the operators `&` and `|` see them.
use Prim.Native.Nat.{
  ℕ, zero, suc, ◌+◌, ◌-◌, ◌*◌, ◌/◌, ◌%◌, ◌^◌, ◌≤◌, ◌<◌, min, max, digits, bit_and, bit_or,
  bit_and-bitwise, bit_or-bitwise,
}
use mathlib.Core.Path.{◌≡◌, refl, sym, ap, ◌∙◌}
use mathlib.Core.Bool.{◌||◌}
use native.Mathlib.Omega.{arith}
use united.Prelude.Tests.{ltb}

module _ (rest : ℕ → ℕ) (op : ℕ → ℕ → ℕ) where
  -- One digit more to go than a number has makes no difference, and so do several.
  one_more : (n x y : ℕ) → x ≤ n → digits rest op (suc n) x y ≡ digits rest op n x y
  one_more n zero y small = one_more_zero n
    where
      one_more_zero : (k : ℕ) → digits rest op (suc k) 0 y ≡ digits rest op k 0 y
      one_more_zero zero = refl
      one_more_zero (suc k) = refl
  one_more zero (suc x) y small = absurd (omega arith)
  one_more (suc n) (suc x) y small =
      ap (λ (q : ℕ). q * 2 + op (suc x % 2) (y % 2)) (one_more n (suc x / 2) (y / 2) (omega arith))

  some_more : (d x y : ℕ) → digits rest op (d + x) x y ≡ digits rest op x x y
  some_more zero x y = fewer (0 + x) x (omega arith)
    where
      fewer : (n m : ℕ) → n ≡ m → digits rest op n x y ≡ digits rest op m x y
      fewer n m e = ap (λ (k : ℕ). digits rest op k x y) e
  some_more (suc d) x y =
      let shifted : suc d + x ≡ suc (d + x) = omega arith in
      ap (λ (k : ℕ). digits rest op k x y) shifted
      ∙ one_more (d + x) x y (omega arith)
      ∙ some_more d x y

  -- The lowest digits, and those of the halves.
  halves :
      (x y : ℕ)
      → digits rest op (suc x) (suc x) y
        ≡ digits rest op (suc x / 2) (suc x / 2) (y / 2) * 2 + op (suc x % 2) (y % 2)
  halves x y =
      let fuel : x ≡ (x - suc x / 2) + suc x / 2 = omega arith in
      ap (λ (n : ℕ). digits rest op n (suc x / 2) (y / 2) * 2 + op (suc x % 2) (y % 2)) fuel
      ∙ ap (λ (q : ℕ). q * 2 + op (suc x % 2) (y % 2))
          (some_more (x - suc x / 2) (suc x / 2) (y / 2))

bit_and_eq : (a b : ℕ) → bit_and a b ≡ digits (λ b. zero) min a a b
bit_and_eq a b = λ i. bit_and-bitwise a b i

bit_or_eq : (a b : ℕ) → bit_or a b ≡ digits (λ b. b) max a a b
bit_or_eq a b = λ i. bit_or-bitwise a b i

pub bit_and-zero : (b : ℕ) → bit_and 0 b ≡ 0
bit_and-zero b = bit_and_eq 0 b

bit_or-zero : (b : ℕ) → bit_or 0 b ≡ b
bit_or-zero b = bit_or_eq 0 b

bit_and-halves : (x y : ℕ) → bit_and x y ≡ bit_and (x / 2) (y / 2) * 2 + min (x % 2) (y % 2)
bit_and-halves zero y = omega (arith, bit_and-zero y, bit_and-zero (y / 2))
bit_and-halves (suc x) y =
    bit_and_eq (suc x) y
    ∙ halves (λ b. zero) min x y
    ∙ ap (λ (q : ℕ). q * 2 + min (suc x % 2) (y % 2)) (sym (bit_and_eq (suc x / 2) (y / 2)))

bit_or-halves : (x y : ℕ) → bit_or x y ≡ bit_or (x / 2) (y / 2) * 2 + max (x % 2) (y % 2)
bit_or-halves zero y = omega (arith, bit_or-zero y, bit_or-zero (y / 2))
bit_or-halves (suc x) y =
    bit_or_eq (suc x) y
    ∙ halves (λ b. b) max x y
    ∙ ap (λ (q : ℕ). q * 2 + max (suc x % 2) (y % 2)) (sym (bit_or_eq (suc x / 2) (y / 2)))

-- Digits shared with either of two numbers are those shared with both together.
bit_and-bit_or_within :
    (n a b f : ℕ)
    → a ≤ n
    → b ≤ n
    → ltb 0 (bit_and (bit_or a b) f) ≡ (ltb 0 (bit_and a f) || ltb 0 (bit_and b f))
bit_and-bit_or_within zero zero zero f h k = rw (bit_or-zero 0, bit_and-zero f) refl
bit_and-bit_or_within zero zero (suc b) f h k = absurd (omega arith)
bit_and-bit_or_within zero (suc a) b f h k = absurd (omega arith)
bit_and-bit_or_within (suc n) a b f h k =
    let o = bit_or-halves a b in
    let half : bit_or a b / 2 ≡ bit_or (a / 2) (b / 2) = omega (arith, o) in
    let low : bit_or a b % 2 ≡ max (a % 2) (b % 2) = omega (arith, o) in
    let step : bit_and (bit_or a b) f
        ≡ bit_and (bit_or (a / 2) (b / 2)) (f / 2) * 2 + min (max (a % 2) (b % 2)) (f % 2) =
      bit_and-halves (bit_or a b) f ∙ rw (half, low) refl in
    ground (
      arith,
      step,
      bit_and-halves a f,
      bit_and-halves b f,
      bit_and-bit_or_within n (a / 2) (b / 2) (f / 2) (omega arith) (omega arith),
    )

pub bit_and-bit_or :
    (a b f : ℕ) → ltb 0 (bit_and (bit_or a b) f) ≡ (ltb 0 (bit_and a f) || ltb 0 (bit_and b f))
bit_and-bit_or a b f = bit_and-bit_or_within (a + b) a b f (omega arith) (omega arith)

pub bit_or_below : (k a b : ℕ) → a < 2 ^ k → b < 2 ^ k → bit_or a b < 2 ^ k
bit_or_below zero zero b h l = rw (bit_or-zero b) l
bit_or_below zero (suc a) b h l = absurd (omega arith)
bit_or_below (suc k) a b h l =
    omega (arith, bit_or-halves a b, bit_or_below k (a / 2) (b / 2) (omega arith) (omega arith))
