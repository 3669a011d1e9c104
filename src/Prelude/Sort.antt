-- ===== src/Prelude/Sort.antt =====
-- `Array.prototype.sort` with a numeric comparator (a stable sort by a number), and lists whose
-- elements carry distinct numbers.
use mathlib.Core.List.Perm
use mathlib.Core.List.{List, [], ◌∷◌, ◌++◌, Perm}
use mathlib.Core.Logic.{inl, inr}
use mathlib.Core.Bool.{Bool, false, not, ◌||◌}
use mathlib.Core.Path.{◌≡◌, refl, ap, ◌∙◌}
use Prim.Native.Nat.{ℕ, zero, suc, ◌≤◌, ◌<◌}
use native.Mathlib.Omega.{arith}
use native.Mathlib.Nat.{le_trans}
use united.Prelude.Tests.{leb, ◌==◌, if◌then◌else◌, Bool-cases}
use united.Prelude.Lists.{
  length, All, All-imp, All-append, All-take, any, any-append, keep, take, drop,
}

module _ {ℓ} {A : Type ℓ} (key : A → ℕ) where
  unfoldable pub insert_by : A → List A → List A
  insert_by x [] = x ∷ []
  insert_by x (y ∷ ys) = if leb (key x) (key y) then x ∷ y ∷ ys else y ∷ insert_by x ys

  -- `xs.sort((a, b) => a.key - b.key)`
  unfoldable pub sort_by : List A → List A
  unfolding insert_by
  sort_by [] = []
  sort_by (x ∷ xs) = insert_by x (sort_by xs)

  abbrev pub IsSorted : List A → Type 0
  IsSorted [] = Unit
  IsSorted (x ∷ xs) = All (λ y. key x ≤ key y) xs × IsSorted xs

  -- `xs.some(m => m.key === n)`
  abbrev pub has_key : ℕ → List A → Bool
  has_key n = any (λ x. key x == n)

  -- No two elements carry the same number.
  abbrev pub IsDistinct : List A → Type 0
  IsDistinct [] = Unit
  IsDistinct (x ∷ xs) = (has_key (key x) xs ≡ false) × IsDistinct xs

  insert_by-perm : (x : A) (xs : List A) → Perm (insert_by x xs) (x ∷ xs)
  unfolding insert_by
  insert_by-perm x [] = Perm.refl (x ∷ [])
  insert_by-perm x (y ∷ ys) = elim (Bool-cases (leb (key x) (key y))) [
    | inl e ↦ rw e (Perm.refl (x ∷ y ∷ ys))
    | inr e ↦ rw e (Perm.trans (Perm.cons y (insert_by-perm x ys)) (Perm.swap x y ys))
  ]

  -- Sorting loses nothing and makes nothing up.
  pub sort_by-perm : (xs : List A) → Perm (sort_by xs) xs
  unfolding sort_by
  sort_by-perm [] = Perm.refl []
  sort_by-perm (x ∷ xs) = Perm.trans (insert_by-perm x (sort_by xs)) (Perm.cons x (sort_by-perm xs))

  insert_by-All : (P : A → Type 0) (x : A) (xs : List A) → P x → All P xs → All P (insert_by x xs)
  unfolding insert_by
  insert_by-All P x [] p h = (p, tt)
  insert_by-All P x (y ∷ ys) p h = elim (Bool-cases (leb (key x) (key y))) [
    | inl e ↦ rw e (p, h)
    | inr e ↦ rw e (h.0, insert_by-All P x ys p h.1)
  ]

  insert_by-IsSorted : (x : A) (xs : List A) → IsSorted xs → IsSorted (insert_by x xs)
  unfolding insert_by
  insert_by-IsSorted x [] s = (tt, tt)
  insert_by-IsSorted x (y ∷ ys) s = elim (Bool-cases (leb (key x) (key y))) [
    | inl e ↦ rw e ((ground arith, All-imp (λ z h. le_trans (ground arith) h) ys s.0), s)
    | inr e ↦
        rw e
          (insert_by-All (λ z. key y ≤ key z) x ys (ground arith) s.0, insert_by-IsSorted x ys s.1)
  ]

  pub sort_by-IsSorted : (xs : List A) → IsSorted (sort_by xs)
  unfolding sort_by
  sort_by-IsSorted [] = tt
  sort_by-IsSorted (x ∷ xs) = insert_by-IsSorted x (sort_by xs) (sort_by-IsSorted xs)

  pub any-insert_by :
      (q : A → Bool) (x : A) (xs : List A) → any q (insert_by x xs) ≡ q x || any q xs
  unfolding insert_by
  any-insert_by q x [] = refl
  any-insert_by q x (y ∷ ys) = ground (arith, any-insert_by q x ys)

  pub any-sort_by : (q : A → Bool) (xs : List A) → any q (sort_by xs) ≡ any q xs
  unfolding sort_by
  any-sort_by q [] = refl
  any-sort_by q (x ∷ xs) = ground (arith, any-sort_by q xs, any-insert_by q x (sort_by xs))

  has_key-insert_by :
      (n : ℕ) (x : A) (xs : List A) → has_key n (insert_by x xs) ≡ (key x == n) || has_key n xs
  unfolding insert_by
  has_key-insert_by n x [] = refl
  has_key-insert_by n x (y ∷ ys) = ground (arith, has_key-insert_by n x ys)

  pub has_key-sort_by : (n : ℕ) (xs : List A) → has_key n (sort_by xs) ≡ has_key n xs
  unfolding sort_by
  has_key-sort_by n [] = refl
  has_key-sort_by n (x ∷ xs) =
      ground (arith, has_key-sort_by n xs, has_key-insert_by n x (sort_by xs))

  insert_by-IsDistinct :
      (x : A) (xs : List A)
      → has_key (key x) xs ≡ false
      → IsDistinct xs
      → IsDistinct (insert_by x xs)
  unfolding insert_by
  insert_by-IsDistinct x [] f d = (refl, tt)
  insert_by-IsDistinct x (y ∷ ys) f d = elim (Bool-cases (leb (key x) (key y))) [
    | inl e ↦ rw e (f, d)
    | inr e ↦ rw e (
      ground (arith, has_key-insert_by (key y) x ys),
      insert_by-IsDistinct x ys (ground arith) d.1,
    )
  ]

  pub sort_by-IsDistinct : (xs : List A) → IsDistinct xs → IsDistinct (sort_by xs)
  unfolding sort_by
  sort_by-IsDistinct [] d = tt
  sort_by-IsDistinct (x ∷ xs) d =
      insert_by-IsDistinct x (sort_by xs) (has_key-sort_by (key x) xs ∙ d.0)
        (sort_by-IsDistinct xs d.1)

  length-insert_by : (x : A) (xs : List A) → length (insert_by x xs) ≡ suc (length xs)
  unfolding insert_by
  length-insert_by x [] = refl
  length-insert_by x (y ∷ ys) = ground (arith, length-insert_by x ys)

  pub length-sort_by : (xs : List A) → length (sort_by xs) ≡ length xs
  unfolding sort_by
  length-sort_by [] = refl
  length-sort_by (x ∷ xs) = omega (arith, length-insert_by x (sort_by xs), length-sort_by xs)

  has_key-keep :
      (n : ℕ) (p : A → Bool) (xs : List A) → has_key n xs ≡ false → has_key n (keep p xs) ≡ false
  has_key-keep n p [] h = refl
  has_key-keep n p (x ∷ xs) h = ground (arith, has_key-keep n p xs)

  pub keep-IsDistinct : (p : A → Bool) (xs : List A) → IsDistinct xs → IsDistinct (keep p xs)
  keep-IsDistinct p [] d = tt
  keep-IsDistinct p (x ∷ xs) d = elim (Bool-cases (p x)) [
    | inl e ↦ rw e (has_key-keep (key x) p xs d.0, keep-IsDistinct p xs d.1)
    | inr e ↦ rw e (keep-IsDistinct p xs d.1)
  ]

  pub has_key-take : (n k : ℕ) (xs : List A) → has_key n xs ≡ false → has_key n (take k xs) ≡ false
  has_key-take n zero xs h = refl
  has_key-take n (suc k) [] h = refl
  has_key-take n (suc k) (x ∷ xs) h = ground (arith, has_key-take n k xs)

  pub take-IsDistinct : (k : ℕ) (xs : List A) → IsDistinct xs → IsDistinct (take k xs)
  take-IsDistinct zero xs d = tt
  take-IsDistinct (suc k) [] d = tt
  take-IsDistinct (suc k) (x ∷ xs) d = (has_key-take (key x) k xs d.0, take-IsDistinct k xs d.1)

  pub drop-IsDistinct : (k : ℕ) (xs : List A) → IsDistinct xs → IsDistinct (drop k xs)
  drop-IsDistinct zero xs d = d
  drop-IsDistinct (suc k) [] d = tt
  drop-IsDistinct (suc k) (x ∷ xs) d = drop-IsDistinct k xs d.1

  -- A new number at the end.
  pub append-IsDistinct :
      (xs : List A) (x : A) → has_key (key x) xs ≡ false → IsDistinct xs → IsDistinct (xs ++ x ∷ [])
  append-IsDistinct [] x f d = (refl, tt)
  append-IsDistinct (y ∷ ys) x f d = (
    ground (arith, any-append (λ z. key z == key y) ys (x ∷ [])),
    append-IsDistinct ys x (ground arith) d.1,
  )

  -- `xs` without what `ys` has already, in front of `ys`.
  abbrev pub unseen : List A → List A → List A
  unseen ys = keep (λ x. not (has_key (key x) ys))

  pub unseen-append-IsDistinct :
      (xs ys : List A) → IsDistinct xs → IsDistinct ys → IsDistinct (unseen ys xs ++ ys)
  unseen-append-IsDistinct [] ys d e = e
  unseen-append-IsDistinct (x ∷ xs) ys d e = elim (Bool-cases (has_key (key x) ys)) [
    | inl old ↦ rw old (unseen-append-IsDistinct xs ys d.1 e)
    | inr new ↦ rw new (
      ground (
        arith,
        any-append (λ z. key z == key x) (unseen ys xs) ys,
        has_key-keep (key x) (λ z. not (has_key (key z) ys)) xs,
      ),
      unseen-append-IsDistinct xs ys d.1 e,
    )
  ]

  pub has_key-drop : (n k : ℕ) (xs : List A) → has_key n xs ≡ false → has_key n (drop k xs) ≡ false
  has_key-drop n zero xs h = h
  has_key-drop n (suc k) [] h = refl
  has_key-drop n (suc k) (x ∷ xs) h = has_key-drop n k xs (ground arith)

  -- An element between two parts carries a number that the first part does not.
  pub has_key_middle :
      (xs : List A) (x : A) (ys : List A) → IsDistinct (xs ++ x ∷ ys) → has_key (key x) xs ≡ false
  has_key_middle [] x ys d = refl
  has_key_middle (z ∷ xs) x ys d =
      ground (arith, any-append (λ y. key y == key z) xs (x ∷ ys), has_key_middle xs x ys d.1)

  pub append-IsSorted :
      (n : ℕ) (xs ys : List A)
      → IsSorted xs
      → IsSorted ys
      → All (λ x. key x ≤ n) xs
      → All (λ y. n ≤ key y) ys
      → IsSorted (xs ++ ys)
  append-IsSorted n [] ys s t h k = t
  append-IsSorted n (x ∷ xs) ys s t h k = (
    All-append _ xs ys s.0 (All-imp (λ y l. le_trans h.0 l) ys k),
    append-IsSorted n xs ys s.1 t h.1 k,
  )

  pub take-IsSorted : (k : ℕ) (xs : List A) → IsSorted xs → IsSorted (take k xs)
  take-IsSorted zero xs s = tt
  take-IsSorted (suc k) [] s = tt
  take-IsSorted (suc k) (x ∷ xs) s = (All-take _ k xs s.0, take-IsSorted k xs s.1)

  pub sort_by-All : (P : A → Type 0) (xs : List A) → All P xs → All P (sort_by xs)
  unfolding sort_by
  sort_by-All P [] h = tt
  sort_by-All P (x ∷ xs) h = insert_by-All P x (sort_by xs) h.0 (sort_by-All P xs h.1)

  -- Numbers below a bound are not among those above it.
  has_key_below : (n k : ℕ) (xs : List A) → k < n → All (λ x. n ≤ key x) xs → has_key k xs ≡ false
  has_key_below n k [] h a = refl
  has_key_below n k (x ∷ xs) h a = ground (arith, has_key_below n k xs h a.1)

  pub unseen_below :
      (n : ℕ) (xs ys : List A)
      → All (λ x. key x < n) xs
      → All (λ y. n ≤ key y) ys
      → unseen ys xs ≡ xs
  unseen_below n [] ys h k = refl
  unseen_below n (x ∷ xs) ys h k =
      rw (has_key_below n (key x) ys h.0 k) (ap (◌∷◌ x) (unseen_below n xs ys h.1 k))
