-- ===== src/Tests/Coverage.antt =====
-- The tests of a small graph of calls, and paths.
use mathlib.Core.List.{Memᴰ}
use mathlib.Core.List.Memᴰ
use veska.Common.{
  ◌≡◌, ◌≢◌, ◌↔◌, refl, true, false, some_of, List, [], ◌∷◌, map, String, Result, ok, err, ◌==◌,
  string_eq, if◌then◌else◌, contains, All, arith, pos, inl, inr, Bool-cases,
}
use veska.PathFilter.{is_vendored, is_test_file, is_test_base, after_separator, split_segments}
use veska.Coverage
use veska.Coverage.Walk.{tests_covering_any_ends}
use veska.Coverage.Invariant.{Covers}
use veska.Coverage.Complete.{tests_covering_any_lem}

abbrev row : String → String → String → Coverage.NodeRef
row id file name = record {
  node_id = id;
  file_path = file;
  kind = "function";
  name = name;
  line_start = pos 1;
  line_end = pos 2;
  content_hash = "";
}

abbrev test_row : Coverage.NodeRef
test_row = row "t" "x_test.go" "TestX"

abbrev helper_row : Coverage.NodeRef
helper_row = row "h" "x_test.go" "helper"

-- The helper calls `p`, and the test calls the helper.
abbrev inbound : Coverage.Callers
inbound n = if n == "p" then helper_row ∷ [] else if n == "h" then test_row ∷ [] else []

abbrev ref : String → Coverage.NodeRef
ref n = if n == "h" then helper_row else test_row

abbrev reader : List String → Result String Coverage.Callers
reader ids = ok inbound

abbrev walked : Coverage.Found
walked = record {
  visited = "p" ∷ "h" ∷ "t" ∷ [];
  tests = record { node_id = "t"; name = "TestX"; file_path = "x_test.go" } ∷ [];
  seen_tests = "t" ∷ [];
  next = [];
}

abbrev given : List String
given = "p" ∷ "" ∷ "p" ∷ []

walk-small : Coverage.walk reader 10 given ≡ ok walked
unfolding Coverage.rounds Coverage.expand Coverage.visit_all Coverage.visit Coverage.seed
    Coverage.named_by contains is_test_file is_test_base after_separator
walk-small = refl

agrees :
    (ids : List String) (m : Coverage.Callers) → reader ids ≡ ok m → All (λ n. m n ≡ inbound n) ids
agrees ids m asked = let same : inbound ≡ m = cc in every ids m same
  where
    every : (xs : List String) (f : Coverage.Callers) → inbound ≡ f → All (λ n. f n ≡ inbound n) xs
    every [] f e = tt
    every (x ∷ xs) f e = (cc e, every xs f e)

known : (n : String) (c : Coverage.NodeRef) → Memᴰ c (inbound n) → ref c.node_id ≡ c
known n c m = elim (Bool-cases (n == "p")) [
  | inl p ↦ at_p c (rw p at m)
  | inr q ↦ elim (Bool-cases (n == "h")) [
    | inl h ↦ at_h c (rw (q, h) at m)
    | inr r ↦ nowhere c (rw (q, r) at m)
  ]
]
  where
    at_p : (d : Coverage.NodeRef) → Memᴰ d (helper_row ∷ []) → ref d.node_id ≡ d
    at_p d k = rw (Memᴰ.eq_of_singleton k) refl

    at_h : (d : Coverage.NodeRef) → Memᴰ d (test_row ∷ []) → ref d.node_id ≡ d
    at_h d k = rw (Memᴰ.eq_of_singleton k) refl

    nowhere : (d : Coverage.NodeRef) → Memᴰ d [] → ref d.node_id ≡ d
    nowhere d k = elim k [ ]

tests_covering_any_lem_example :
    (Coverage.tests_covering_any reader 10 given ≡ ok walked.tests)
    × ((id : String)
        → (contains (map (λ t. t.node_id) walked.tests) id ≡ true)
          ↔ Covers inbound ref (Coverage.seed given []) id)
tests_covering_any_lem_example =
    tests_covering_any_lem reader 10 inbound ref known agrees given walked walk-small (omega arith)

tests_covering_any_ends_example :
    Coverage.tests_covering_any reader 10 given ≢ err Coverage.out_of_fuel
tests_covering_any_ends_example = tests_covering_any_ends reader 10 given

-- A vendored directory anywhere on the path, and no part of a name.
vendored :
    (is_vendored "apps/vendor/y.go" ≡ true)
    × (is_vendored "vendored/y.go" ≡ false)
    × (is_test_file "pkg/x_test.go" ≡ true)
    × (is_test_file "pkg/x.go" ≡ false)
unfolding is_vendored split_segments is_test_file is_test_base after_separator contains some_of
vendored = (refl, refl, refl, refl)
