-- ===== src/Coverage.antt =====
-- internal/application/coverage/reversemap.go: the tests that call a node, found by a walk along the
-- inbound calls. The reader of the calls is a parameter that may fail.
pub mod Walk
pub mod Invariant
pub mod Complete
use Prim.Native.String.{slice, len, char_at}
use Prim.Native.Char.{code}
use veska.Common.{
  ℕ, zero, suc, ◌+◌, Bool, true, false, not, ◌&&◌, ◌||◌, List, [], ◌∷◌, ◌++◌, String, Result, ok,
  err, ◌==◌, string_eq, if◌then◌else◌, ltb, leb, length, contains, ℤ,
}
use veska.PathFilter.{is_test_file}

-- core/ports/deadcode.go.
pub record NodeRef : Type 0 where
  pub node_id : String
  pub file_path : String
  pub kind : String
  pub name : String
  pub line_start : ℤ
  pub line_end : ℤ
  pub content_hash : String

pub record TestRef : Type 0 where
  pub node_id : String
  pub name : String
  pub file_path : String

abbrev pub test_ref : NodeRef → TestRef
test_ref c = record { node_id = c.node_id; name = c.name; file_path = c.file_path }

abbrev pub default_max_nodes : ℕ
default_max_nodes = 5000

-- WithMaxNodes; 0 stands for every number that is not positive.
abbrev pub with_max_nodes : ℕ → ℕ → ℕ
with_max_nodes n max_nodes = if ltb 0 n then n else max_nodes

abbrev pub test_prefixes : List String
test_prefixes = "Test" ∷ "Benchmark" ∷ "Fuzz" ∷ "Example" ∷ []

abbrev has_prefix : String → String → Bool
has_prefix name p = leb (len p) (len name) && slice name 0 (len p) == p

abbrev is_lower : ℕ → Bool
is_lower c = leb 97 c && leb c 122

-- The rest of a name is empty or does not start with a small letter.
abbrev starts_word : String → Bool
starts_word rest = rest == "" || not (is_lower (code (char_at rest 0)))

unfoldable pub named_by : List String → String → Bool
named_by [] name = false
named_by (p ∷ ps) name =
    let later = named_by ps name in
    if has_prefix name p then starts_word (slice name (len p) (len name)) else later

abbrev pub is_go_test_name : String → Bool
is_go_test_name = named_by test_prefixes

abbrev pub is_test_entrypoint : NodeRef → Bool
is_test_entrypoint ref =
    ref.kind == "function" && (is_test_file ref.file_path && is_go_test_name ref.name)

-- `visited`, `tests`, `seenTst` and `next`.
pub record Found : Type 0 where
  pub visited : List String
  pub tests : List TestRef
  pub seen_tests : List String
  pub next : List String

abbrev pub add_test : NodeRef → Found → Found
add_test c w = if contains w.seen_tests c.node_id then w else record w {
  seen_tests = w.seen_tests ++ c.node_id ∷ [];
  tests = w.tests ++ test_ref c ∷ [];
}

-- A Go set of ids as a list: an id that is in it is not added again.
abbrev pub add_id : String → List String → List String
add_id id ids = if contains ids id then ids else ids ++ id ∷ []

abbrev pub visit_new : NodeRef → Found → Found
visit_new c w =
    let seen = record w { visited = add_id c.node_id w.visited } in
    if is_test_entrypoint c
    then add_test c seen
    else record seen { next = seen.next ++ c.node_id ∷ [] }

unfoldable pub visit : NodeRef → Found → Found
visit c w = if c.node_id == "" then w else if contains w.visited c.node_id then w else visit_new c w

unfoldable pub visit_all : List NodeRef → Found → Found
unfolding visit
visit_all [] w = w
visit_all (c ∷ cs) w = visit_all cs (visit c w)

abbrev pub Callers : Type 0
Callers = String → List NodeRef

unfoldable pub expand : Callers → List String → Found → Found
unfolding visit_all
expand callers [] w = w
expand callers (id ∷ frontier) w = expand callers frontier (visit_all (callers id) w)

-- The seeds that are not empty, each once; the visited ids and the frontier are the same then.
unfoldable pub seed : List String → List String → List String
seed [] visited = visited
seed (id ∷ ids) visited = seed ids (if id == "" then visited else add_id id visited)

abbrev pub start : List String → Found
start seeds = record { visited = seeds; tests = []; seen_tests = []; next = seeds }

pub data WalkError {ℓ} (E : Type ℓ) : Type ℓ where
  inbound_calls : E → WalkError E
  out_of_fuel : WalkError E

module _ {ℓ} {E : Type ℓ} (reader : List String → Result E Callers) (max_nodes : ℕ) where
  -- One round of the loop expands `next`, which is the frontier.
  abbrev pub round : Found → Result (WalkError E) Found
  round w = elim (reader w.next) [
    | err e ↦ err (inbound_calls e)
    | ok callers ↦ ok (expand callers w.next (record w { next = [] }))
  ]

  abbrev pub goes_on : Found → Bool
  goes_on w = ltb 0 (length w.next) && ltb (length w.visited) max_nodes

  unfoldable pub rounds : ℕ → Found → Result (WalkError E) Found
  unfolding expand
  rounds zero w = if goes_on w then err out_of_fuel else ok w
  rounds (suc fuel) w = elim (goes_on w) [
    | true ↦ elim (round w) [ err e ↦ err e | ok w' ↦ rounds fuel w' ]
    | false ↦ ok w
  ]

  abbrev pub walk : List String → Result (WalkError E) Found
  walk seeds = rounds max_nodes (start (seed seeds []))

  -- TestsCoveringAny.
  abbrev pub tests_covering_any : List String → Result (WalkError E) (List TestRef)
  tests_covering_any seeds = elim (walk seeds) [ err e ↦ err e | ok w ↦ ok w.tests ]

  abbrev pub tests_covering : String → Result (WalkError E) (List TestRef)
  tests_covering id = tests_covering_any (id ∷ [])
