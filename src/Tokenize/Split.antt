-- ===== src/Tokenize/Split.antt =====
-- Where splitCamel of internal/platform/tokenize/symbol.go cuts a text.
use mathlib.Core.List.{append-nil}
use veska.Common.{
  ℕ, zero, suc, ◌+◌, ◌-◌, ◌≤◌, ◌<◌, ◌≡◌, ◌↔◌, ◌⊎◌, refl, sym, ap, ◌∙◌, subst, inl, inr, Bool, true,
  false, ◌||◌, ◌&&◌, List, [], ◌∷◌, ◌++◌, ◌==◌, nat_eq, if◌then◌else◌, length, take, past_first,
  is_nil, contains, All, Bool-cases, arith,
}
use veska.Tokenize.{Rune, Text, Classes, next_lower, slice, is_boundary, split_from, split_camel}

unfoldable pub join_all : List Text → Text
join_all [] = []
join_all (p ∷ ps) = p ++ join_all ps

-- Where each part starts, when the first starts at `n`.
unfoldable pub offsets : ℕ → List Text → List ℕ
offsets n [] = []
offsets n (p ∷ ps) = n ∷ offsets (n + length p) ps

take-past : (n : ℕ) (xs : Text) → take n xs ++ past_first n xs ≡ xs
take-past zero xs = refl
take-past (suc n) [] = refl
take-past (suc n) (x ∷ xs) = ap (λ z. x ∷ z) (take-past n xs)

past-nil : (n : ℕ) → past_first {A = Rune} n [] ≡ []
past-nil zero = refl
past-nil (suc n) = refl

past-add : (m n : ℕ) (xs : Text) → past_first n (past_first m xs) ≡ past_first (m + n) xs
past-add zero n xs = ap (λ k. past_first k xs) (let e : n ≡ 0 + n = omega arith in e)
past-add (suc m) n [] = past-nil n ∙ sym (past-nil (suc m + n))
past-add (suc m) n (x ∷ xs) =
    past-add m n xs
    ∙ ap (λ k. past_first k (x ∷ xs)) (let e : suc (m + n) ≡ suc m + n = omega arith in e)

length-past : (n : ℕ) (xs : Text) → length (past_first n xs) ≡ length xs - n
length-past zero xs = omega arith
length-past (suc n) [] = omega arith
length-past (suc n) (x ∷ xs) = omega (arith, length-past n xs)

length-take : (n : ℕ) (xs : Text) → n ≤ length xs → length (take n xs) ≡ n
length-take zero xs h = refl
length-take (suc n) [] h = absurd (omega (arith, h))
length-take (suc n) (x ∷ xs) h = ap suc (length-take n xs (omega (arith, h)))

slice-past :
    (start i : ℕ) (runes : Text)
    → start ≤ i
    → slice start i runes ++ past_first i runes ≡ past_first start runes
slice-past start i runes h =
    let e : start + (i - start) ≡ i = omega arith in
    ap (λ k. slice start i runes ++ past_first k runes) (sym e)
    ∙ ap (λ z. slice start i runes ++ z) (sym (past-add start (i - start) runes))
    ∙ take-past (i - start) (past_first start runes)

length-slice :
    (start i : ℕ) (runes : Text)
    → start ≤ i
    → i ≤ length runes
    → length (slice start i runes) ≡ i - start
length-slice start i runes h k =
    length-take (i - start) (past_first start runes) (omega (arith, length-past start runes))

nonempty : (xs : Text) → 0 < length xs → is_nil xs ≡ false
nonempty [] h = absurd (omega (arith, h))
nonempty (x ∷ xs) h = refl

module _ (u : Classes) where
  -- A boundary before `cur`: from a small letter or a digit to a capital, before the last capital of
  -- an acronym that a small letter follows, and between a letter and a digit.
  pub data IsBoundary (prev cur : Rune) : Text → Type 0 where
    word :
        {rest : Text}
        → (u.is_lower prev || u.is_digit prev) ≡ true
        → u.is_upper cur ≡ true
        → IsBoundary prev cur rest
    acronym :
        {next : Rune} {rest : Text}
        → u.is_upper prev ≡ true
        → u.is_upper cur ≡ true
        → u.is_lower next ≡ true
        → IsBoundary prev cur (next ∷ rest)
    to_digit :
        {rest : Text} → u.is_letter prev ≡ true → u.is_digit cur ≡ true → IsBoundary prev cur rest
    from_digit :
        {rest : Text} → u.is_digit prev ≡ true → u.is_letter cur ≡ true → IsBoundary prev cur rest

  -- The text has a boundary before its rune of that index.
  abbrev pub BoundaryAt : Text → ℕ → Type 0
  BoundaryAt text zero = ⊥
  BoundaryAt [] (suc i) = ⊥
  BoundaryAt (r ∷ []) (suc i) = ⊥
  BoundaryAt (prev ∷ cur ∷ rest) (suc zero) = IsBoundary prev cur rest
  BoundaryAt (prev ∷ cur ∷ rest) (suc (suc i)) = BoundaryAt (cur ∷ rest) (suc i)

  tested :
      (prev cur : Rune) (rest : Text)
      → IsBoundary prev cur rest
      → is_boundary u prev cur rest ≡ true
  tested prev cur rest (word p q) = ground arith
  tested prev cur _ (acronym p q r) = ground arith
  tested prev cur rest (to_digit p q) = ground arith
  tested prev cur rest (from_digit p q) = ground arith

  opened :
      (prev cur : Rune) (rest : Text)
      → is_boundary u prev cur rest ≡ true
      → IsBoundary prev cur rest
  opened prev cur rest h =
      elim (Bool-cases ((u.is_lower prev || u.is_digit prev) && u.is_upper cur)) [
        | inl w ↦ word (ground arith) (ground arith)
        | inr n ↦ elim (Bool-cases (u.is_letter prev && u.is_digit cur)) [
          | inl d ↦ to_digit (ground arith) (ground arith)
          | inr m ↦ elim (Bool-cases (u.is_digit prev && u.is_letter cur)) [
            | inl d ↦ from_digit (ground arith) (ground arith)
            | inr k ↦ last rest (ground arith)
          ]
        ]
      ]
    where
      last :
          (rest' : Text)
          → (u.is_upper prev && (u.is_upper cur && next_lower u rest')) ≡ true
          → IsBoundary prev cur rest'
      last [] e = absurd (ground arith)
      last (x ∷ xs) e = acronym (ground arith) (ground arith) (ground arith)

  -- The indices at which the loop cuts.
  unfoldable bounds : ℕ → Rune → Text → List ℕ
  bounds i prev [] = []
  bounds i prev (cur ∷ rest) =
      let more = bounds (i + 1) cur rest in if is_boundary u prev cur rest then i ∷ more else more

  split_from_lem :
      (runes : Text) (start i : ℕ) (prev : Rune) (rest : Text)
      → start < i
      → i + length rest ≡ length runes
      → (join_all (split_from u runes start i prev rest) ≡ past_first start runes)
        × All (λ p. is_nil p ≡ false) (split_from u runes start i prev rest)
        × (offsets start (split_from u runes start i prev rest) ≡ start ∷ bounds i prev rest)
  unfolding join_all split_from offsets bounds
  split_from_lem runes start i prev [] h k = (
    append-nil (past_first start runes),
    (nonempty _ (omega (arith, length-past start runes)), tt),
    refl,
  )
  split_from_lem runes start i prev (cur ∷ rest) h k =
      elim (Bool-cases (is_boundary u prev cur rest)) [
        | inl cut ↦
            let (joined, full, at) =
              split_from_lem runes i (i + 1) cur rest (omega arith) (omega arith) in
            let size = length-slice start i runes (omega arith) (omega arith) in
            let ends : start + length (slice start i runes) ≡ i = omega (arith, size) in
            rw (cut, ends)
              (
                ap (λ z. slice start i runes ++ z) joined ∙ slice-past start i runes (omega arith),
                (nonempty _ (omega (arith, size)), full),
                ap (λ z. start ∷ z) at,
              )
        | inr grown ↦
            rw grown (split_from_lem runes start (i + 1) cur rest (omega arith) (omega arith))
      ]

  bounds-BoundaryAt :
      (n j : ℕ) (prev : Rune) (rest : Text)
      → contains (bounds (suc n) prev rest) j ≡ true
      → (k : ℕ) × (j ≡ suc (n + k)) × BoundaryAt (prev ∷ rest) (suc k)
  unfolding bounds contains
  bounds-BoundaryAt n j prev [] h = absurd cc
  bounds-BoundaryAt n j prev (cur ∷ rest) h =
      let next : suc n + 1 ≡ suc (suc n) = omega arith in
      let further : contains (bounds (suc n + 1) cur rest) j ≡ true
          → (k : ℕ) × (j ≡ suc (n + k)) × BoundaryAt (prev ∷ cur ∷ rest) (suc k) =
        λ m.
          let (k, e, b) = bounds-BoundaryAt (suc n) j cur rest (rw next at m) in
          (suc k, omega (arith, e), b) in
      elim (Bool-cases (is_boundary u prev cur rest)) [
        | inl cut ↦ elim (Bool-cases (j == suc n)) [
          | inl same ↦ (0, ground arith, opened prev cur rest cut)
          | inr other ↦ further (ground arith)
        ]
        | inr grown ↦ further (rw grown at h)
      ]

  or_true : (b : Bool) → (b || true) ≡ true
  or_true true = refl
  or_true false = refl

  contains-bounds :
      (n j : ℕ) (prev cur : Rune) (rest : Text)
      → contains (bounds (suc n) prev (cur ∷ rest)) j ≡ (
          (is_boundary u prev cur rest && j == suc n) || contains (bounds (suc (suc n)) cur rest) j)
  unfolding bounds contains
  contains-bounds n j prev cur rest =
      let next : suc n + 1 ≡ suc (suc n) = omega arith in
      rw next (elim (Bool-cases (is_boundary u prev cur rest)) [
        | inl cut ↦ rw cut refl
        | inr grown ↦ rw grown refl
      ])

  BoundaryAt-bounds :
      (n k : ℕ) (prev : Rune) (rest : Text)
      → BoundaryAt (prev ∷ rest) (suc k)
      → contains (bounds (suc n) prev rest) (suc (n + k)) ≡ true
  BoundaryAt-bounds n zero prev [] b = absurd b
  BoundaryAt-bounds n (suc k) prev [] b = absurd b
  BoundaryAt-bounds n zero prev (cur ∷ rest) b =
      let here : suc (n + 0) == suc n ≡ true = ground arith in
      rw (contains-bounds n (suc (n + 0)) prev cur rest, tested prev cur rest b, here) refl
  BoundaryAt-bounds n (suc k) prev (cur ∷ rest) b =
      let index : suc (suc n + k) ≡ suc (n + suc k) = omega arith in
      let found = BoundaryAt-bounds (suc n) k cur rest b in
      let found' : contains (bounds (suc (suc n)) cur rest) (suc (n + suc k)) ≡ true =
        rw index at found in
      rw (contains-bounds n (suc (n + suc k)) prev cur rest, found') (or_true _)

  -- The parts of a text that is not empty, put together, are the text again, none of them is empty, and a part starts
  -- just at the start of the text and at each boundary.
  pub split_camel_lem :
      (r : Rune) (rs : Text)
      → (join_all (split_camel u (r ∷ rs)) ≡ r ∷ rs)
        × All (λ p. is_nil p ≡ false) (split_camel u (r ∷ rs))
        × ((i : ℕ)
            → (contains (offsets 0 (split_camel u (r ∷ rs))) i ≡ true)
              ↔ ((i ≡ 0) ⊎ BoundaryAt (r ∷ rs) i))
  unfolding split_camel contains
  split_camel_lem r rs =
      let (joined, full, at) = split_from_lem (r ∷ rs) 0 1 r rs (omega arith) (omega arith) in
      (joined, full, λ i. rw at (started i, ended i))
    where
      started : (i : ℕ) → contains (0 ∷ bounds 1 r rs) i ≡ true → (i ≡ 0) ⊎ BoundaryAt (r ∷ rs) i
      started zero h = inl refl
      started (suc i) h =
          let (k, e, b) = bounds-BoundaryAt 0 (suc i) r rs (ground arith) in
          inr (subst (BoundaryAt (r ∷ rs)) (let same : suc k ≡ suc i = omega (arith, e) in same) b)

      ended : (i : ℕ) → (i ≡ 0) ⊎ BoundaryAt (r ∷ rs) i → contains (0 ∷ bounds 1 r rs) i ≡ true
      ended i (inl first) = ground arith
      ended zero (inr b) = absurd b
      ended (suc i) (inr b) =
          let found = BoundaryAt-bounds 0 i r rs b in
          let same : suc (0 + i) ≡ suc i = omega arith in ground (arith, rw same at found)
