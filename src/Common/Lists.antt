-- ===== src/Common/Lists.antt =====
-- Lists measured by native numbers, and predicates on lists by recursion.
use Prim.Native.Nat.{ℕ, zero, suc, ◌+◌}
use mathlib.Core.Path.{◌≡◌, refl, sym, subst}
use mathlib.Core.Bool.{Bool, true, false, ◌||◌, ◌&&◌}
use mathlib.Core.Logic.{inl, inr}
use mathlib.Core.List.{List, [], ◌∷◌, ◌++◌, map}
use mathlib.Core.Option.{Option, none, some}
use native.Mathlib.Omega.{arith}
use veska.Common.Tests.{if◌then◌else◌, Bool-cases}
use veska.Common.Equality.{Eq, ◌==◌}

module _ {ℓ} {A : Type ℓ} where
  abbrev pub length : List A → ℕ
  length [] = 0
  length (x ∷ xs) = suc (length xs)

  abbrev pub get_elem? : List A → ℕ → Option A
  get_elem? [] i = none
  get_elem? (x ∷ xs) zero = some x
  get_elem? (x ∷ xs) (suc i) = get_elem? xs i

  -- The list without its first elements.
  abbrev pub past_first : ℕ → List A → List A
  past_first zero xs = xs
  past_first (suc n) [] = []
  past_first (suc n) (x ∷ xs) = past_first n xs

  -- `xs[:n]`, for an `n` within the length.
  abbrev pub take : ℕ → List A → List A
  take zero xs = []
  take (suc n) [] = []
  take (suc n) (x ∷ xs) = x ∷ take n xs

  pub length-append : (xs ys : List A) → length (xs ++ ys) ≡ length xs + length ys
  length-append [] ys = omega arith
  length-append (x ∷ xs) ys = omega (arith, length-append xs ys)

  -- `if keep x { out = append(out, x) }` over a list.
  unfoldable pub keep_if : (A → Bool) → List A → List A
  keep_if p [] = []
  keep_if p (x ∷ xs) = let rest = keep_if p xs in if p x then x ∷ rest else rest

  -- How often an element stands in a list.
  unfoldable pub occurrences : ⦃e : Eq A⦄ → A → List A → ℕ
  occurrences x [] = 0
  occurrences x (y ∷ ys) = (if x == y then 1 else 0) + occurrences x ys

  -- Some element passes the test.
  unfoldable pub some_of : (A → Bool) → List A → Bool
  some_of p [] = false
  some_of p (x ∷ xs) = p x || some_of p xs

  abbrev pub All {κ} : (A → Type κ) → List A → Type κ
  All P [] = Unit
  All P (x ∷ xs) = P x × All P xs

  pub All-append {κ} :
      (P : A → Type κ) (front back : List A) → All P front → All P back → All P (front ++ back)
  All-append P [] back left right = right
  All-append P (a ∷ front) back left right = (left.0, All-append P front back left.1 right)

  pub All-always {κ} : (P : A → Type κ) → ((x : A) → P x) → (xs : List A) → All P xs
  All-always P f [] = tt
  All-always P f (x ∷ xs) = (f x, All-always P f xs)

  pub All-map {κ μ} :
      (P : A → Type κ) (Q : A → Type μ)
      → ((x : A) → P x → Q x)
      → (xs : List A) → All P xs
      → All Q xs
  All-map P Q f [] h = tt
  All-map P Q f (x ∷ xs) h = (f x h.0, All-map P Q f xs h.1)

  pub All-keep_if {κ} :
      (P : A → Type κ) (p : A → Bool) (xs : List A)
      → All P xs
      → All (λ x. P x × (p x ≡ true)) (keep_if p xs)
  unfolding keep_if
  All-keep_if P p [] h = tt
  All-keep_if P p (x ∷ xs) h = elim (Bool-cases (p x)) [
    | inl kept ↦ rw kept ((h.0, kept), All-keep_if P p xs h.1)
    | inr dropped ↦ rw dropped (All-keep_if P p xs h.1)
  ]

module _ {ℓ} {A : Type ℓ} ⦃e : Eq A⦄ where
  unfoldable pub contains : List A → A → Bool
  contains [] key = false
  contains (y ∷ rest) key = key == y || contains rest key

  pub contains-append :
      (xs ys : List A) (a : A) → contains (xs ++ ys) a ≡ (contains xs a || contains ys a)
  unfolding contains
  contains-append [] ys a = refl
  contains-append (x ∷ xs) ys a = ground (arith, contains-append xs ys a)

  pub contains-keep_if :
      (p : A → Bool) (xs : List A) (a : A) → contains (keep_if p xs) a ≡ (contains xs a && p a)
  unfolding contains keep_if
  contains-keep_if p [] a = refl
  contains-keep_if p (x ∷ xs) a = elim (Bool-cases (a == x)) [
    | inl same ↦
        rw ((e.same_iff a x).0 same) (ground (arith, e.same_iff x x, contains-keep_if p xs x))
    | inr other ↦ ground (arith, contains-keep_if p xs a)
  ]

  pub All-of-contains {κ} :
      (P : A → Type κ) (xs : List A) (a : A) → All P xs → contains xs a ≡ true → P a
  unfolding contains
  All-of-contains P [] a h c = cc
  All-of-contains P (x ∷ xs) a h c = elim (Bool-cases (a == x)) [
    | inl same ↦ subst P (sym ((e.same_iff a x).0 same)) h.0
    | inr other ↦ All-of-contains P xs a h.1 (rw other at c)
  ]

  pub All-from-contains {κ} :
      (P : A → Type κ) (xs : List A) → ((a : A) → contains xs a ≡ true → P a) → All P xs
  unfolding contains
  All-from-contains P [] f = tt
  All-from-contains P (x ∷ xs) f =
      (f x (ground (arith, e.same_iff x x)), All-from-contains P xs (λ a h. f a (ground arith)))

  -- No element stands twice.
  abbrev pub IsDistinct : List A → Type 0
  IsDistinct [] = Unit
  IsDistinct (x ∷ xs) = (contains xs x ≡ false) × IsDistinct xs

  pub IsDistinct-snoc :
      (xs : List A) (x : A) → IsDistinct xs → contains xs x ≡ false → IsDistinct (xs ++ x ∷ [])
  unfolding contains
  IsDistinct-snoc [] x d h = (refl, tt)
  IsDistinct-snoc (y ∷ xs) x d h = ground (
    arith,
    contains-append xs (x ∷ []) y,
    e.same_iff x y,
    e.same_iff y x,
    IsDistinct-snoc xs x d.1,
  )

pub some_of-map {ℓ κ} :
    {A : Type ℓ} {B : Type κ} (f : A → B) (p : B → Bool) (xs : List A)
    → some_of p (map f xs) ≡ some_of (λ x. p (f x)) xs
unfolding some_of
some_of-map f p [] = refl
some_of-map f p (x ∷ xs) = ground (arith, some_of-map f p xs)

pub contains-map {ℓ κ} :
    {A : Type ℓ} {B : Type κ} ⦃e : Eq B⦄ (f : A → B) (xs : List A) (b : B)
    → contains (map f xs) b ≡ some_of (λ x. b == f x) xs
unfolding some_of contains
contains-map f [] b = refl
contains-map f (x ∷ xs) b = ground (arith, contains-map f xs b)

pub some_of-same {ℓ} :
    {A : Type ℓ} (p q : A → Bool) (xs : List A)
    → All (λ x. p x ≡ q x) xs
    → some_of p xs ≡ some_of q xs
unfolding some_of
some_of-same p q [] h = refl
some_of-same p q (x ∷ xs) h = ground (arith, h.0, some_of-same p q xs h.1)

pub contains-some_of {ℓ} :
    {A : Type ℓ} ⦃e : Eq A⦄ (xs : List A) (a : A) → contains xs a ≡ some_of (λ x. a == x) xs
unfolding some_of contains
contains-some_of [] a = refl
contains-some_of (x ∷ xs) a = ground (arith, contains-some_of xs a)

pub length-map {ℓ κ} :
    {A : Type ℓ} {B : Type κ} (f : A → B) (xs : List A) → length (map f xs) ≡ length xs
length-map f [] = refl
length-map f (x ∷ xs) = omega (arith, length-map f xs)

pub some_of-append {ℓ} :
    {A : Type ℓ} (p : A → Bool) (xs ys : List A)
    → some_of p (xs ++ ys) ≡ (some_of p xs || some_of p ys)
unfolding some_of
some_of-append p [] ys = refl
some_of-append p (x ∷ xs) ys = ground (arith, some_of-append p xs ys)

pub contains-snoc {ℓ} :
    {A : Type ℓ} ⦃e : Eq A⦄ (xs : List A) (x a : A)
    → contains (xs ++ x ∷ []) a ≡ (contains xs a || a == x)
unfolding contains
contains-snoc [] x a = ground arith
contains-snoc (y ∷ xs) x a = ground (arith, contains-snoc xs x a)

pub contains-map-snoc {ℓ κ} :
    {A : Type ℓ} {B : Type κ} ⦃e : Eq B⦄ (f : A → B) (xs : List A) (x : A) (b : B)
    → contains (map f (xs ++ x ∷ [])) b ≡ (contains (map f xs) b || b == f x)
unfolding contains
contains-map-snoc f [] x b = ground arith
contains-map-snoc f (y ∷ xs) x b = ground (arith, contains-map-snoc f xs x b)
