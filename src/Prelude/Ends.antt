-- ===== src/Prelude/Ends.antt =====
-- The two ways in which an array is cut to a length: `xs.slice(0, n)` and `xs.slice(xs.length - n)`,
-- each only where the array is longer than `n`.
use Prim.Native.Nat.{ℕ, ◌+◌, ◌-◌, ◌≤◌}
use mathlib.Core.Path.{◌≡◌, refl, sym, ap, ◌≡⟨◌⟩◌, ◌∎}
use mathlib.Core.Logic.{inl, inr}
use mathlib.Core.Bool.{true}
use mathlib.Core.List.{List, [], ◌∷◌, ◌++◌}
use native.Mathlib.Omega.{arith}
use united.Prelude.Tests.{ltb, if◌then◌else◌, Bool-cases}
use united.Prelude.Lists.{
  length, take, drop, length-append, length-take-le, length-drop, drop-append, drop-drop,
  take-append,
}
use united.Prelude.Sort.{IsDistinct, IsSorted, take-IsDistinct, drop-IsDistinct, take-IsSorted}

module _ {ℓ} {A : Type ℓ} where
  unfoldable pub first_n : ℕ → List A → List A
  first_n n xs = if ltb n (length xs) then take n xs else xs

  unfoldable pub last_n : ℕ → List A → List A
  last_n n xs = if ltb n (length xs) then drop (length xs - n) xs else xs

  pub length-first_n-le : (n : ℕ) (xs : List A) → length (first_n n xs) ≤ n
  unfolding first_n
  length-first_n-le n xs = ground (arith, length-take-le n xs)

  pub last_n-eq-drop : (n : ℕ) (xs : List A) → last_n n xs ≡ drop (length xs - n) xs
  unfolding last_n
  last_n-eq-drop n xs = elim (Bool-cases (ltb n (length xs))) [
    | inl e ↦ rw e refl
    | inr e ↦ let z : length xs - n ≡ 0 = ground arith in rw (e, z) refl
  ]

  pub length-last_n : (n : ℕ) (xs : List A) → length (last_n n xs) ≡ length xs - (length xs - n)
  length-last_n n xs = rw last_n-eq-drop (length-drop (length xs - n) xs)

  pub length-last_n-le : (n : ℕ) (xs : List A) → length (last_n n xs) ≤ n
  length-last_n-le n xs = omega (arith, length-last_n n xs)

  pub last_n_short : (n : ℕ) (xs : List A) → length xs ≤ n → last_n n xs ≡ xs
  unfolding last_n
  last_n_short n xs h = ground arith

  pub first_n_short : (n : ℕ) (xs : List A) → length xs ≤ n → first_n n xs ≡ xs
  unfolding first_n
  first_n_short n xs h = ground arith

  -- Where `n` elements stand before it, the last one is cut off.
  pub first_n-append_one :
      (n : ℕ) (xs : List A) (x : A) → n ≤ length xs → first_n n (xs ++ x ∷ []) ≡ take n xs
  unfolding first_n
  first_n-append_one n xs x h =
      let long : ltb n (length (xs ++ x ∷ [])) ≡ true = ground (arith, length-append xs (x ∷ [])) in
      rw long (take-append n xs (x ∷ []) h)

  -- What was cut off before does not matter for the last `n`.
  pub last_n-append : (n : ℕ) (xs ys : List A) → last_n n (last_n n xs ++ ys) ≡ last_n n (xs ++ ys)
  last_n-append n xs ys =
      let k = length xs - n in
      last_n n (last_n n xs ++ ys)
      ≡⟨ ap (λ z. last_n n (z ++ ys)) (last_n-eq-drop n xs) ⟩ last_n n (drop k xs ++ ys)
      ≡⟨ ap (last_n n) (sym (drop-append k xs ys (omega arith))) ⟩ last_n n (drop k (xs ++ ys))
      ≡⟨ last_n-eq-drop n (drop k (xs ++ ys)) ⟩
        drop (length (drop k (xs ++ ys)) - n) (drop k (xs ++ ys))
      ≡⟨ drop-drop (length (drop k (xs ++ ys)) - n) k (xs ++ ys) ⟩
        drop (k + (length (drop k (xs ++ ys)) - n)) (xs ++ ys)
      ≡⟨ ap (λ j. drop j (xs ++ ys))
          (omega (arith, length-drop k (xs ++ ys), length-append xs ys)) ⟩
        drop (length (xs ++ ys) - n) (xs ++ ys)
      ≡⟨ sym (last_n-eq-drop n (xs ++ ys)) ⟩ last_n n (xs ++ ys) ∎

module _ {ℓ} {A : Type ℓ} (key : A → ℕ) where
  pub first_n-IsDistinct : (n : ℕ) (xs : List A) → IsDistinct key xs → IsDistinct key (first_n n xs)
  unfolding first_n
  first_n-IsDistinct n xs d = elim (Bool-cases (ltb n (length xs))) [
    | inl e ↦ rw e (take-IsDistinct key n xs d)
    | inr e ↦ rw e d
  ]

  pub last_n-IsDistinct : (n : ℕ) (xs : List A) → IsDistinct key xs → IsDistinct key (last_n n xs)
  last_n-IsDistinct n xs d = rw last_n-eq-drop (drop-IsDistinct key (length xs - n) xs d)

  pub first_n-IsSorted : (n : ℕ) (xs : List A) → IsSorted key xs → IsSorted key (first_n n xs)
  unfolding first_n
  first_n-IsSorted n xs s = elim (Bool-cases (ltb n (length xs))) [
    | inl e ↦ rw e (take-IsSorted key n xs s)
    | inr e ↦ rw e s
  ]
