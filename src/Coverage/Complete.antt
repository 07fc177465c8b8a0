-- ===== src/Coverage/Complete.antt =====
-- What TestsCoveringAny of internal/application/coverage/reversemap.go reports, when its bound on the
-- nodes is not reached: the tests that cover a seed, and no others.
use mathlib.Core.List.{Memᴰ}
use veska.Common.{
  ℕ, zero, suc, ◌<◌, ◌≡◌, ◌↔◌, refl, ap, subst, inl, inr, true, false, List, [], map, String,
  Result, Result-cases, ok, ◌==◌, string_eq, length, length-nil, contains, All, Bool-cases, arith,
}
use veska.Coverage.{
  NodeRef, Found, is_test_entrypoint, Callers, expand, seed, start, WalkError, goes_on, rounds,
  walk, tests_covering_any,
}
use veska.Coverage.Invariant.{Reached, from, up, Covers, Inv, expand-Inv}

module _ {ℓ} {E : Type ℓ} (reader : List String → Result E Callers) (max_nodes : ℕ)
    (inbound : Callers) (ref : String → NodeRef)
    (known : (n : String) (c : NodeRef) → Memᴰ c (inbound n) → ref c.node_id ≡ c)
    (agrees : (ids : List String) (m : Callers)
      → reader ids ≡ ok m
      → All (λ n. m n ≡ inbound n) ids) where
  ends :
      (seeds : List String) (w last : Found)
      → Inv inbound ref seeds [] w
      → goes_on reader max_nodes w ≡ false
      → ◌≡◌ {A = Result (WalkError E) Found} (ok w) (ok last)
      → Inv inbound ref seeds [] last × (goes_on reader max_nodes last ≡ false)
  ends seeds w last i over came =
      let same : w ≡ last = cc in
      (
        subst (Inv inbound ref seeds []) same i,
        subst (λ x. goes_on reader max_nodes x ≡ false) same over,
      )

  rounds-Inv :
      (seeds : List String) (fuel : ℕ) (w last : Found)
      → Inv inbound ref seeds [] w
      → rounds reader max_nodes fuel w ≡ ok last
      → Inv inbound ref seeds [] last × (goes_on reader max_nodes last ≡ false)
  unfolding rounds contains
  rounds-Inv seeds zero w last i came = elim (Bool-cases (goes_on reader max_nodes w)) [
    | inl going ↦ absurd (cc (rw (rounds, going) at came))
    | inr over ↦ ends seeds w last i over (rw (rounds, over) at came)
  ]
  rounds-Inv seeds (suc fuel) w last i came = elim (Bool-cases (goes_on reader max_nodes w)) [
    | inl going ↦ elim (Result-cases (reader w.next)) [
      | inl (e, failed) ↦ absurd (cc (rw (rounds, going, failed) at came))
      | inr (callers, asked) ↦
          rounds-Inv seeds fuel (expand callers w.next (record w { next = [] })) last
            (expand-Inv inbound ref seeds known callers w.next (record w { next = [] })
              (agrees w.next callers asked)
              (record {
                base = i.base;
                reached = λ v h. i.reached v (ground arith);
                reported = i.reported;
                listed = i.listed;
                closed = λ v c seen untested over. i.closed v c seen untested (ground arith);
                sorted = i.sorted;
              }))
            (rw (rounds, going, asked) at came)
    ]
    | inr over ↦ ends seeds w last i over (rw (rounds, over) at came)
  ]

  start-Inv : (seeds : List String) → Inv inbound ref seeds [] (start seeds)
  unfolding contains
  start-Inv seeds = record {
    base = λ s h. h;
    reached = λ v h. from h;
    reported = λ v h. absurd cc;
    listed = λ v. refl;
    closed = λ v c seen untested over called named. absurd (cc (seen, over));
    sorted = λ v. ground arith;
  }

  -- A reached node was visited, and is not among the tests.
  seen_callee :
      (seeds : List String) (w : Found)
      → Inv inbound ref seeds [] w
      → w.next ≡ []
      → (n : String) → Reached inbound ref seeds n
      → (contains w.visited n ≡ true) × (contains w.seen_tests n ≡ false)
  unfolding contains
  seen_callee seeds w i done n (from s) = (i.base n s, ground (arith, i.sorted n, s))
  seen_callee seeds w i done _ (up {id = n} {c = c} r m named helper) =
      let (seen, untested) = seen_callee seeds w i done n r in
      (
        i.closed n c seen untested (rw done refl) m named,
        ground (arith, i.sorted c.node_id, ap is_test_entrypoint (known n c m)),
      )

  over_empty :
      (w : Found) → goes_on reader max_nodes w ≡ false → length w.visited < max_nodes → w.next ≡ []
  over_empty w over few = length-nil w.next (ground arith)

  covered_listed :
      (seeds : List String) (w : Found)
      → Inv inbound ref seeds [] w
      → w.next ≡ []
      → (id : String) (c : Covers inbound ref seeds id) → contains w.visited c.callee ≡ true
      → contains w.seen_tests c.callee ≡ false
      → contains (map (λ t. t.node_id) w.tests) id ≡ true
  unfolding contains
  covered_listed seeds w i done id c seen untested =
      let full : (c.caller.node_id == "") ≡ false = rw c.named c.nonempty in
      let found = i.closed c.callee c.caller seen untested (rw done refl) c.calls full in
      ground (
        arith,
        i.listed id,
        i.sorted id,
        ap (contains w.visited) c.named,
        found,
        c.new,
        c.entry,
        ap (λ z. is_test_entrypoint (ref z)) c.named,
        ap is_test_entrypoint (known c.callee c.caller c.calls),
      )

  -- When the reader tells the calls of the graph and the walk stays within its bound on nodes, it
  -- reports a test exactly when that test is no seed and calls a node that a seed reaches through
  -- callers that are not tests themselves.
  pub tests_covering_any_lem :
      (given : List String) (w : Found)
      → walk reader max_nodes given ≡ ok w
      → length w.visited < max_nodes
      → (tests_covering_any reader max_nodes given ≡ ok w.tests)
        × ((id : String)
            → (contains (map (λ t. t.node_id) w.tests) id ≡ true)
              ↔ Covers inbound ref (seed given []) id)
  unfolding contains
  tests_covering_any_lem given w came few =
      let seeds = seed given [] in
      let (i, over) = rounds-Inv seeds max_nodes (start seeds) w (start-Inv seeds) came in
      let done : w.next ≡ [] = over_empty w over few in
      (
        rw (tests_covering_any, came) refl,
        λ id. (
          λ h. i.reported id (ground (arith, i.listed id, h)),
          λ c.
              let (seen, untested) = seen_callee seeds w i done c.callee c.reached in
              covered_listed seeds w i done id c seen untested,
        ),
      )
