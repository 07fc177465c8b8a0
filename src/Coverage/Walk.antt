-- ===== src/Coverage/Walk.antt =====
-- The walk of internal/application/coverage/reversemap.go ends.
use veska.Common.{
  ℕ, zero, suc, ◌+◌, ◌≤◌, ◌<◌, ◌≡◌, ◌≢◌, ◌∙◌, inl, inr, List, [], ◌∷◌, String, Result, Result-cases,
  err, string_eq, length, length-append, Bool-cases, arith,
}
use veska.Coverage.{
  NodeRef, TestRef, Found, visit, visit_all, Callers, expand, seed, start, WalkError, out_of_fuel,
  goes_on, rounds, walk, tests_covering_any,
}

visit-grows :
    (c : NodeRef) (w : Found) (before : ℕ)
    → length w.next + before ≤ length w.visited
    → length (visit c w).next + before ≤ length (visit c w).visited
unfolding visit
visit-grows c w before h =
    ground (arith, length-append w.next (c.node_id ∷ []), length-append w.visited (c.node_id ∷ []))

visit_all-grows :
    (cs : List NodeRef) (w : Found) (before : ℕ)
    → length w.next + before ≤ length w.visited
    → length (visit_all cs w).next + before ≤ length (visit_all cs w).visited
unfolding visit_all
visit_all-grows [] w before h = h
visit_all-grows (c ∷ cs) w before h =
    visit_all-grows cs (visit c w) before (visit-grows c w before h)

expand-grows :
    (callers : Callers) (frontier : List String) (w : Found) (before : ℕ)
    → length w.next + before ≤ length w.visited
    → length (expand callers frontier w).next + before ≤ length (expand callers frontier w).visited
unfolding expand
expand-grows callers [] w before h = h
expand-grows callers (id ∷ frontier) w before h =
    expand-grows callers frontier (visit_all (callers id) w) before
      (visit_all-grows (callers id) w before h)

module _ {ℓ} {E : Type ℓ} (reader : List String → Result E Callers) (max_nodes : ℕ) where
  rounds_end :
      (fuel : ℕ) (w : Found)
      → (0 < length w.next → max_nodes ≤ length w.visited + fuel)
      → rounds reader max_nodes fuel w ≢ err out_of_fuel
  unfolding rounds
  rounds_end zero w h out = elim (Bool-cases (goes_on reader max_nodes w)) [
    | inl going ↦ absurd (ground arith)
    | inr over ↦ absurd (cc (rw over at out))
  ]
  rounds_end (suc fuel) w h out = elim (Bool-cases (goes_on reader max_nodes w)) [
    | inl going ↦ elim (Result-cases (reader w.next)) [
      | inl (e, failed) ↦ absurd (cc (rw (rounds, going, failed) at out))
      | inr (callers, asked) ↦
          let more =
            expand-grows callers w.next (record w { next = [] }) (length w.visited) (omega arith) in
          rounds_end fuel (expand callers w.next (record w { next = [] }))
            (λ some_next. omega (arith, more, h (ground arith))) (rw (rounds, going, asked) at out)
    ]
    | inr over ↦ absurd (cc (rw (rounds, over) at out))
  ]

  same_error :
      (e : WalkError E)
      → ◌≡◌ {A = Result (WalkError E) (List TestRef)} (err e) (err out_of_fuel)
      → ◌≡◌ {A = Result (WalkError E) Found} (err e) (err out_of_fuel)
  same_error e same = cc

  -- The walk ends: it never runs out of fuel, whatever the reader answers.
  pub tests_covering_any_ends :
      (seeds : List String) → tests_covering_any reader max_nodes seeds ≢ err out_of_fuel
  tests_covering_any_ends seeds out = elim (Result-cases (walk reader max_nodes seeds)) [
    | inl (e, failed) ↦
        rounds_end max_nodes (start (seed seeds [])) (λ some_next. omega arith)
          (failed ∙ same_error e (rw (tests_covering_any, failed) at out))
    | inr (w, came) ↦ absurd (cc (rw (tests_covering_any, came) at out))
  ]
