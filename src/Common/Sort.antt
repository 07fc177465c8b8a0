-- ===== src/Common/Sort.antt =====
-- `sort.Slice` and `sort.Strings`, as an insertion sort by a strict order. Go leaves the order of
-- ties open; here they keep their order.
use Prim.Native.Nat.{ℕ, zero, suc}
use mathlib.Core.Path.{◌≡◌, refl}
use mathlib.Core.Bool.{Bool, true, false, ◌||◌}
use mathlib.Core.List.{List, [], ◌∷◌}
use native.Mathlib.Omega.{arith}
use mathlib.Core.Logic.{inl, inr}
use veska.Common.Tests.{if◌then◌else◌, Bool-cases}
use veska.Common.Equality.{Eq, ◌==◌}
use veska.Common.Lists.{length, contains, some_of, All, All-map, take, past_first}

module _ {ℓ} {A : Type ℓ} (less : A → A → Bool) where
  unfoldable pub insert_by : A → List A → List A
  insert_by x [] = x ∷ []
  insert_by x (y ∷ ys) = if less x y then x ∷ y ∷ ys else y ∷ insert_by x ys

  unfoldable pub sort_by : List A → List A
  unfolding insert_by
  sort_by [] = []
  sort_by (x ∷ xs) = insert_by x (sort_by xs)

  length-insert_by : (x : A) (ys : List A) → length (insert_by x ys) ≡ suc (length ys)
  unfolding insert_by
  length-insert_by x [] = refl
  length-insert_by x (y ∷ ys) = ground (arith, length-insert_by x ys)

  pub length-sort_by : (xs : List A) → length (sort_by xs) ≡ length xs
  unfolding sort_by
  length-sort_by [] = refl
  length-sort_by (x ∷ xs) = omega (arith, length-insert_by x (sort_by xs), length-sort_by xs)

  -- No element is followed by a smaller one.
  abbrev pub IsSorted : List A → Type 0
  IsSorted [] = Unit
  IsSorted (x ∷ []) = Unit
  IsSorted (x ∷ y ∷ ys) = (less y x ≡ false) × IsSorted (y ∷ ys)

  IsSorted-head :
      ((a b c : A) → less b a ≡ false → less c b ≡ false → less c a ≡ false)
      → (x : A) (xs : List A) → IsSorted (x ∷ xs)
      → All (λ y. less y x ≡ false) xs
  IsSorted-head trans x [] h = tt
  IsSorted-head trans x (y ∷ ys) h = (
    h.0,
    All-map (λ z. less z y ≡ false) (λ z. less z x ≡ false) (λ z k. trans x y z h.0 k) ys
        (IsSorted-head trans y ys h.1),
  )

  IsSorted-tail : (x : A) (xs : List A) → IsSorted (x ∷ xs) → IsSorted xs
  IsSorted-tail x [] h = tt
  IsSorted-tail x (y ∷ ys) h = h.1

  All-past_first {κ} : (P : A → Type κ) (n : ℕ) (xs : List A) → All P xs → All P (past_first n xs)
  All-past_first P zero xs h = h
  All-past_first P (suc n) [] h = tt
  All-past_first P (suc n) (x ∷ xs) h = All-past_first P n xs h.1

  -- The first elements of a sorted list and the others: none of the others is smaller.
  pub first-IsSorted :
      ((a b c : A) → less b a ≡ false → less c b ≡ false → less c a ≡ false)
      → (n : ℕ) (xs : List A) → IsSorted xs
      → All (λ x. All (λ y. less y x ≡ false) (past_first n xs)) (take n xs)
  first-IsSorted trans zero xs h = tt
  first-IsSorted trans (suc n) [] h = tt
  first-IsSorted trans (suc n) (x ∷ xs) h = (
    All-past_first (λ y. less y x ≡ false) n xs (IsSorted-head trans x xs h),
    first-IsSorted trans n xs (IsSorted-tail x xs h),
  )

  insert_by-IsSorted :
      ((a b : A) → less a b ≡ true → less b a ≡ false)
      → (x : A) (ys : List A) → IsSorted ys
      → IsSorted (insert_by x ys)
  unfolding insert_by
  insert_by-IsSorted asym x [] h = tt
  insert_by-IsSorted asym x (y ∷ []) h = ground (arith, asym x y)
  insert_by-IsSorted asym x (y ∷ z ∷ zs) h =
      ground (arith, asym x y, insert_by-IsSorted asym x (z ∷ zs) h.1)

  -- By an asymmetric order the result is sorted.
  pub sort_by-IsSorted :
      ((a b : A) → less a b ≡ true → less b a ≡ false) → (xs : List A) → IsSorted (sort_by xs)
  unfolding sort_by
  sort_by-IsSorted asym [] = tt
  sort_by-IsSorted asym (x ∷ xs) = insert_by-IsSorted asym x (sort_by xs) (sort_by-IsSorted asym xs)

  contains-insert_by :
      ⦃e : Eq A⦄ (x a : A) (ys : List A) → contains (insert_by x ys) a ≡ (a == x || contains ys a)
  unfolding insert_by contains
  contains-insert_by x a [] = refl
  contains-insert_by x a (y ∷ ys) = ground (arith, contains-insert_by x a ys)

  pub contains-sort_by : ⦃e : Eq A⦄ (a : A) (xs : List A) → contains (sort_by xs) a ≡ contains xs a
  unfolding sort_by contains
  contains-sort_by a [] = refl
  contains-sort_by a (x ∷ xs) =
      ground (arith, contains-insert_by x a (sort_by xs), contains-sort_by a xs)

  some_of-insert_by :
      (p : A → Bool) (x : A) (ys : List A) → some_of p (insert_by x ys) ≡ (p x || some_of p ys)
  unfolding insert_by some_of
  some_of-insert_by p x [] = refl
  some_of-insert_by p x (y ∷ ys) = ground (arith, some_of-insert_by p x ys)

  pub some_of-sort_by : (p : A → Bool) (xs : List A) → some_of p (sort_by xs) ≡ some_of p xs
  unfolding sort_by some_of
  some_of-sort_by p [] = refl
  some_of-sort_by p (x ∷ xs) =
      ground (arith, some_of-insert_by p x (sort_by xs), some_of-sort_by p xs)

  All-insert_by {κ} :
      (P : A → Type κ) (x : A) (ys : List A) → P x → All P ys → All P (insert_by x ys)
  unfolding insert_by
  All-insert_by P x [] h hs = (h, tt)
  All-insert_by P x (y ∷ ys) h hs = elim (Bool-cases (less x y)) [
    | inl first ↦ rw first (h, hs)
    | inr later ↦ rw later (hs.0, All-insert_by P x ys h hs.1)
  ]

  pub All-sort_by {κ} : (P : A → Type κ) (xs : List A) → All P xs → All P (sort_by xs)
  unfolding sort_by
  All-sort_by P [] hs = tt
  All-sort_by P (x ∷ xs) hs = All-insert_by P x (sort_by xs) hs.0 (All-sort_by P xs hs.1)
