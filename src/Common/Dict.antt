-- ===== src/Common/Dict.antt =====
-- Go maps, as association lists with distinct keys by construction of `insert`. The order of the
-- list stands for the order in which `range` visits the map, which Go leaves open.
use mathlib.Core.Path.{◌≡◌, refl, ap}
use mathlib.Core.Logic.{◌⊎◌, inl, inr}
use mathlib.Core.Bool.{Bool, true, false, ◌||◌}
use mathlib.Core.Option.{Option, none, some}
use mathlib.Core.List.{List, [], ◌∷◌, ◌++◌, map}
use native.Mathlib.Omega.{arith}
use veska.Common.Tests.{if◌then◌else◌, Bool-cases}
use veska.Common.Equality.{Eq, ◌==◌}
use veska.Common.Lists.{contains, IsDistinct, All, All-map, some_of}

abbrev pub is_present {ℓ} : {A : Type ℓ} → Option A → Bool
is_present none = false
is_present (some a) = true

abbrev pub Dict {ℓ κ} : Type ℓ → Type κ → Type (ℓ ⊔ κ)
Dict K V = List (K × V)

module _ {ℓ κ} {K : Type ℓ} {V : Type κ} ⦃e : Eq K⦄ where
  -- `m[k]`, with `none` for a missing key.
  unfoldable pub lookup : K → Dict K V → Option V
  lookup k [] = none
  lookup k ((j, v) ∷ m) = if k == j then some v else lookup k m

  -- `m[k] = v`.
  unfoldable pub insert : K → V → Dict K V → Dict K V
  insert k v [] = (k, v) ∷ []
  insert k v ((j, w) ∷ m) = if k == j then (j, v) ∷ m else (j, w) ∷ insert k v m

  -- `delete(m, k)` for each key that the test names.
  unfoldable pub delete_if : (K → Bool) → Dict K V → Dict K V
  delete_if p [] = []
  delete_if p ((j, v) ∷ m) = let rest = delete_if p m in if p j then rest else (j, v) ∷ rest

  unfoldable pub delete : K → Dict K V → Dict K V
  unfolding delete_if
  delete k = delete_if (λ j. k == j)

  abbrev pub keys : Dict K V → List K
  keys = map λ p. p.0

  pub lookup-insert :
      (k j : K) (v : V) (m : Dict K V)
      → lookup j (insert k v m) ≡ (if j == k then some v else lookup j m)
  unfolding lookup insert
  lookup-insert k j v [] = refl
  lookup-insert k j v ((i, w) ∷ m) =
      ground (
        arith,
        e.same_iff k j,
        e.same_iff j k,
        e.same_iff k i,
        e.same_iff j i,
        lookup-insert k j v m,
      )

  -- What a key has after an insertion it was given, or had before.
  pub lookup-insert-inv :
      (k j : K) (v w : V) (m : Dict K V)
      → lookup j (insert k v m) ≡ some w
      → ((j ≡ k) × (w ≡ v)) ⊎ (((j == k) ≡ false) × (lookup j m ≡ some w))
  lookup-insert-inv k j v w m h = elim (Bool-cases (j == k)) [
    | inl same ↦ inl ((e.same_iff j k).0 same, ground (arith, lookup-insert k j v m))
    | inr other ↦ inr (other, ground (arith, lookup-insert k j v m))
  ]

  pub lookup-delete_if :
      (p : K → Bool) (j : K) (m : Dict K V)
      → lookup j (delete_if p m) ≡ (if p j then none else lookup j m)
  unfolding lookup delete_if
  lookup-delete_if p j [] = ground arith
  lookup-delete_if p j ((i, w) ∷ m) = elim (Bool-cases (j == i)) [
    | inl same ↦
        rw ((e.same_iff j i).0 same) (ground (arith, e.same_iff i i, lookup-delete_if p i m))
    | inr other ↦ ground (arith, lookup-delete_if p j m)
  ]

  pub lookup-delete :
      (k j : K) (m : Dict K V) → lookup j (delete k m) ≡ (if k == j then none else lookup j m)
  unfolding delete
  lookup-delete k j m = lookup-delete_if (λ i. k == i) j m

  -- A key is among the keys exactly when it has a value.
  pub contains-keys : (k : K) (m : Dict K V) → contains (keys m) k ≡ is_present (lookup k m)
  unfolding lookup contains
  contains-keys k [] = refl
  contains-keys k ((j, v) ∷ m) = ground (arith, contains-keys k m)

  -- A new key goes to the end.
  pub insert_absent :
      (k : K) (v : V) (m : Dict K V)
      → is_present (lookup k m) ≡ false
      → insert k v m ≡ m ++ (k, v) ∷ []
  unfolding lookup insert
  insert_absent k v [] h = refl
  insert_absent k v ((j, w) ∷ m) h = ground (arith, insert_absent k v m)

  contains-insert :
      (k j : K) (v : V) (m : Dict K V)
      → contains (keys (insert k v m)) j ≡ (j == k || contains (keys m) j)
  contains-insert k j v m =
      ground (arith, contains-keys j (insert k v m), contains-keys j m, lookup-insert k j v m)

  -- An insertion keeps the keys apart.
  pub insert-IsDistinct :
      (k : K) (v : V) (m : Dict K V) → IsDistinct (keys m) → IsDistinct (keys (insert k v m))
  unfolding insert contains
  insert-IsDistinct k v [] d = (refl, tt)
  insert-IsDistinct k v ((j, w) ∷ m) d = elim (Bool-cases (k == j)) [
    | inl same ↦ rw same d
    | inr other ↦ rw other (
      ground (arith, contains-insert k j v m, e.same_iff j k, e.same_iff k j),
      insert-IsDistinct k v m d.1,
    )
  ]

  -- With distinct keys every entry is the one that its key finds.
  pub lookup-entries : (m : Dict K V) → IsDistinct (keys m) → All (λ p. lookup p.0 m ≡ some p.1) m
  unfolding lookup
  lookup-entries [] d = tt
  lookup-entries ((j, w) ∷ m) d = (
    ground (arith, e.same_iff j j),
    All-map _ _
        (λ p found. ground (arith, contains-keys j m, e.same_iff p.0 j, ap (λ k. lookup k m))) m
        (lookup-entries m d.1),
  )

  pub some_of-lookup :
      (test : V → Bool) (k : K) (v : V) (m : Dict K V)
      → lookup k m ≡ some v
      → test v ≡ true
      → some_of (λ p. test p.1) m ≡ true
  unfolding lookup some_of
  some_of-lookup test k v [] found passed = cc
  some_of-lookup test k v ((j, w) ∷ m) found passed =
      ground (arith, some_of-lookup test k v m, ap test)

  pub some_of-lookup-inv :
      (test : V → Bool) (m : Dict K V)
      → IsDistinct (keys m)
      → some_of (λ p. test p.1) m ≡ true
      → (k : K) × (v : V) × (lookup k m ≡ some v) × (test v ≡ true)
  unfolding lookup some_of
  some_of-lookup-inv test [] d passed = absurd cc
  some_of-lookup-inv test ((j, w) ∷ m) d passed = elim (Bool-cases (test w)) [
    | inl here ↦ (j, w, ground (arith, e.same_iff j j), here)
    | inr later ↦
        let (k, v, found, here) = some_of-lookup-inv test m d.1 (rw later at passed) in
        (
          k,
          v,
          ground (arith, contains-keys j m, e.same_iff k j, ap (λ i. lookup i m) {x = k} {y = j}),
          here,
        )
  ]
