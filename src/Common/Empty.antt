-- ===== src/Common/Empty.antt =====
-- Lists that are empty, and what is empty with them.
use mathlib.Core.Path.{◌≡◌, refl}
use mathlib.Core.Logic.{inl, inr}
use mathlib.Core.Bool.{Bool, true, false, not}
use mathlib.Core.List.{List, [], ◌∷◌, ◌++◌, map}
use native.Mathlib.Omega.{arith}
use veska.Common.Tests.{Bool-cases}
use veska.Common.Lists.{length, keep_if, All}

abbrev pub is_nil {ℓ} : {A : Type ℓ} → List A → Bool
is_nil [] = true
is_nil (x ∷ xs) = false

pub append-nil-inv {ℓ} : {A : Type ℓ} (xs ys : List A) → xs ++ ys ≡ [] → (xs ≡ []) × (ys ≡ [])
append-nil-inv [] ys e = (refl, e)
append-nil-inv (x ∷ xs) ys e = absurd cc

pub map-nil-inv {ℓ κ} :
    {A : Type ℓ} {B : Type κ} (f : A → B) (xs : List A) → map f xs ≡ [] → xs ≡ []
map-nil-inv f [] e = refl
map-nil-inv f (x ∷ xs) e = absurd cc

pub none-kept {ℓ} :
    {A : Type ℓ} (p : A → Bool) (xs : List A)
    → keep_if (λ x. not (p x)) xs ≡ []
    → All (λ x. p x ≡ true) xs
unfolding keep_if
none-kept p [] e = tt
none-kept p (x ∷ xs) e = elim (Bool-cases (p x)) [
  | inl kept ↦ (kept, none-kept p xs (rw kept at e))
  | inr dropped ↦ absurd (cc (rw dropped at e))
]

pub length-nil {ℓ} : {A : Type ℓ} (xs : List A) → length xs ≡ 0 → xs ≡ []
length-nil [] h = refl
length-nil (x ∷ xs) h = absurd (omega arith)

pub is_nil-inv {ℓ} : {A : Type ℓ} (xs : List A) → is_nil xs ≡ true → xs ≡ []
is_nil-inv [] h = refl
is_nil-inv (x ∷ xs) h = absurd cc
