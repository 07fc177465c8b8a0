-- ===== src/DiffGate/Guard/Fixpoint.antt =====
-- The loop of admitNewWired ends, and what it admits is the least set that is closed under wiring.
use veska.Common.{
  ℕ, zero, suc, ◌+◌, ◌≤◌, ◌<◌, ◌≡◌, refl, sym, subst, ◌↔◌, inl, inr, true, false, not, ◌&&◌, some,
  List, [], ◌∷◌, String, ◌==◌, string_eq, eq_iff, if◌then◌else◌, length, contains, arith,
  Bool-cases, All, All-from-contains, All-of-contains,
}
use veska.DiffGate.Guard.{is_fresh, meets, admit_round, admit}

meets-neighbour :
    (allowed ns : List String)
    → meets allowed ns ≡ true
    → (m : String) × (contains ns m ≡ true) × (contains allowed m ≡ true)
unfolding meets contains
meets-neighbour allowed [] h = cc
meets-neighbour allowed (n ∷ ns) h = elim (Bool-cases (contains allowed n)) [
  | inl here ↦ (n, ground (arith, eq_iff n n), here)
  | inr other ↦
      let (m, among, ok) = meets-neighbour allowed ns (ground arith) in (m, ground arith, ok)
]

neighbour-meets :
    (allowed ns : List String) (m : String)
    → contains ns m ≡ true
    → contains allowed m ≡ true
    → meets allowed ns ≡ true
unfolding meets contains
neighbour-meets allowed [] m h k = cc
neighbour-meets allowed (n ∷ ns) m h k = ground (arith, eq_iff m n, neighbour-meets allowed ns m)

module _ (adj : String → List String) (news start : List String) where
  -- What may be admitted: the start, and a new node with an admitted neighbour.
  pub data Wired : String → Type 0 where
    at_start : {x : String} → contains start x ≡ true → Wired x
    by_edge :
        {x y : String} → contains news x ≡ true → contains (adj x) y ≡ true → Wired y → Wired x

  abbrev AllWired : List String → Type 0
  AllWired allowed = (x : String) → contains allowed x ≡ true → Wired x

  fresh-Wired :
      (allowed : List String) (n : String)
      → contains news n ≡ true
      → is_fresh adj allowed n ≡ true
      → AllWired allowed
      → AllWired (n ∷ allowed)
  unfolding contains
  fresh-Wired allowed n new fresh h x has = elim (Bool-cases (x == n)) [
    | inl same ↦
        let (m, among, ok) = meets-neighbour allowed (adj n) (ground arith) in
        subst Wired (sym ((eq_iff x n).0 same)) (by_edge new among (h m ok))
    | inr other ↦ h x (rw other at has)
  ]

  admit_round-AllWired :
      (ns allowed : List String)
      → All (λ n. contains news n ≡ true) ns
      → AllWired allowed
      → AllWired (admit_round adj ns allowed).0
  unfolding admit_round
  admit_round-AllWired [] allowed new h = h
  admit_round-AllWired (n ∷ ns) allowed new h = elim (Bool-cases (is_fresh adj allowed n)) [
    | inl fresh ↦
        rw fresh (admit_round-AllWired ns (n ∷ allowed) new.1 (fresh-Wired allowed n new.0 fresh h))
    | inr stale ↦ rw stale (admit_round-AllWired ns allowed new.1 h)
  ]

  -- A pass that adds nothing leaves the set as it is, and finds no node to add.
  admit_round_still :
      (ns allowed : List String)
      → (admit_round adj ns allowed).1 ≡ false
      → ((admit_round adj ns allowed).0 ≡ allowed) × All (λ n. is_fresh adj allowed n ≡ false) ns
  unfolding admit_round
  admit_round_still [] allowed e = (refl, tt)
  admit_round_still (n ∷ ns) allowed e = elim (Bool-cases (is_fresh adj allowed n)) [
    | inl fresh ↦ let bad : true ≡ false = rw fresh at e in cc
    | inr stale ↦
        let (same, rest) = admit_round_still ns allowed (rw stale at e) in
        rw stale (same, (refl, rest))
  ]

  -- The new nodes that are not allowed yet.
  outside : List String → List String → ℕ
  outside [] allowed = 0
  outside (n ∷ ns) allowed = (if contains allowed n then 0 else 1) + outside ns allowed

  outside-cons :
      (ns allowed : List String) (x : String)
      → outside ns (x ∷ allowed) + (if contains ns x && not (contains allowed x) then 1 else 0)
        ≤ outside ns allowed
  unfolding outside contains
  outside-cons [] allowed x = omega arith
  outside-cons (n ∷ ns) allowed x =
      ground (arith, eq_iff n x, eq_iff x n, outside-cons ns allowed x)

  outside-admit_round :
      (ns allowed : List String)
      → All (λ n. contains news n ≡ true) ns
      → outside news (admit_round adj ns allowed).0
          + (if (admit_round adj ns allowed).1 then 1 else 0)
        ≤ outside news allowed
  unfolding admit_round
  outside-admit_round [] allowed new = omega arith
  outside-admit_round (n ∷ ns) allowed new = elim (Bool-cases (is_fresh adj allowed n)) [
    | inl fresh ↦
        rw fresh
          (ground (arith, outside-admit_round ns (n ∷ allowed) new.1, outside-cons news allowed n))
    | inr stale ↦ rw stale (outside-admit_round ns allowed new.1)
  ]

  outside-le : (ns allowed : List String) → outside ns allowed ≤ length ns
  unfolding outside
  outside-le [] allowed = omega arith
  outside-le (n ∷ ns) allowed = ground (arith, outside-le ns allowed)

  all_new : (ns : List String) → All (λ n. contains ns n ≡ true) ns
  all_new ns = All-from-contains _ ns (λ n h. h)

  admit_round_keeps :
      (ns allowed : List String) (x : String)
      → contains allowed x ≡ true
      → contains (admit_round adj ns allowed).0 x ≡ true
  unfolding admit_round contains
  admit_round_keeps [] allowed x h = h
  admit_round_keeps (n ∷ ns) allowed x h = elim (Bool-cases (is_fresh adj allowed n)) [
    | inl fresh ↦ rw fresh (admit_round_keeps ns (n ∷ allowed) x (ground arith))
    | inr stale ↦ rw stale (admit_round_keeps ns allowed x h)
  ]

  -- What the loop ends with.
  record Grown (allowed grown : List String) : Type 0 where
    sound : AllWired grown
    kept : (x : String) → contains allowed x ≡ true → contains grown x ≡ true
    closed : All (λ n. is_fresh adj grown n ≡ false) news

  -- With more fuel than new nodes are outside, the loop ends.
  admit_ends :
      (fuel : ℕ) (allowed : List String)
      → AllWired allowed
      → outside news allowed < fuel
      → (grown : List String) × (admit adj fuel news allowed ≡ some grown) × Grown allowed grown
  unfolding admit
  admit_ends zero allowed h lt = absurd (omega arith)
  admit_ends (suc fuel) allowed h lt =
      let less = outside-admit_round news allowed (all_new news) in
      elim (Bool-cases (admit_round adj news allowed).1) [
        | inl grew ↦
            let (grown, run, g) =
              admit_ends fuel (admit_round adj news allowed).0
                (admit_round-AllWired news allowed (all_new news) h) (ground arith) in
            (
              grown,
              rw grew run,
              record {
                sound = g.sound;
                kept = λ x k. g.kept x (admit_round_keeps news allowed x k);
                closed = g.closed;
              },
            )
        | inr still ↦
            let (same, closed) = admit_round_still news allowed still in
            (allowed, rw (still, same) refl, record { sound = h; kept = λ x k. k; closed = closed })
      ]

  Wired-closed :
      (grown : List String) {x : String} → Grown start grown → Wired x → contains grown x ≡ true
  Wired-closed grown g (at_start h) = g.kept _ h
  Wired-closed grown g (by_edge {x} {y} new edge w) =
      let reached = Wired-closed grown g w in
      let stale = All-of-contains _ news x g.closed new in
      let met = neighbour-meets grown (adj x) y edge reached in ground arith

  -- One more pass than there are new nodes is enough for the loop, and then it has admitted the
  -- start and just the new nodes that a chain of wired new nodes joins to it.
  pub admit_lem :
      (fuel : ℕ)
      → length news < fuel
      → (grown : List String) × (admit adj fuel news start ≡ some grown)
        × ((x : String) → (contains grown x ≡ true) ↔ Wired x)
  admit_lem fuel lt =
      let (grown, run, g) =
        admit_ends fuel start (λ x h. at_start h) (omega (arith, outside-le news start)) in
      (grown, run, λ x. (g.sound x, λ w. Wired-closed grown g w))
