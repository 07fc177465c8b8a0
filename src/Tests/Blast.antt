-- ===== src/Tests/Blast.antt =====
-- The walk over a graph in which b and c call a, and c calls b.
use veska.Common.{
  occurrences, ℕ, ◌+◌, ◌*◌, ◌<◌, ◌≡◌, refl, ap, ◌∙◌, Bool, true, false, none, some, List, [], ◌∷◌,
  map, String, ◌==◌, string_eq, Result, ok, if◌then◌else◌, contains, arith, All, length, pos,
  keep_if,
}
use veska.Common.Dict.{lookup, insert}
use veska.Blast.{
  callers, Options, Applied, applied, Found, EdgeReader, Neighbours, append_each, list_at,
  expand_per_source, expand_frontier, walk, hops, seed, enqueue, visit_all, bounded,
}
use veska.Blast.Bounds
use veska.Blast.Sound
use veska.Blast.Hubs
use veska.Blast.Query

abbrev caller_list : Neighbours
caller_list x = if x == "a" then "b" ∷ "c" ∷ [] else if x == "b" then "c" ∷ [] else []

abbrev graph : EdgeReader String
graph = record { inbound = λ ids. ok caller_list; outbound = λ ids. ok (λ x. []) }

abbrev calls : String → String → Bool
calls x y = contains (caller_list y) x

abbrev no_options : Options
no_options = record {
  max_depth = pos 0;
  max_nodes = pos 0;
  direction = none;
  hub_degree_threshold = pos 0;
}

abbrev limits : Applied
limits = record {
  max_depth = 3;
  max_nodes = 200;
  direction = callers;
  hub_degree_threshold = pos 50;
}

abbrev from_a : Found
from_a = record {
  visited = ("a", 0) ∷ ("b", 1) ∷ ("c", 1) ∷ [];
  order = "a" ∷ "b" ∷ "c" ∷ [];
  truncated = false;
  hubs = [];
}

walk-from_a : walk graph limits ("a" ∷ []) ≡ ok from_a
unfolding walk hops seed enqueue visit_all expand_frontier expand_per_source append_each lookup
    insert
walk-from_a = refl

applied_default : applied (pos 50) no_options ≡ limits
unfolding applied bounded
applied_default = refl

walk-InBounds_example : Bounds.InBounds limits from_a
walk-InBounds_example = Bounds.walk-InBounds graph limits ("a" ∷ []) from_a walk-from_a

graph-Truthful : Sound.Truthful calls callers ("a" ∷ []) graph
unfolding contains
graph-Truthful = record {
  ins_real =
      λ ids m x y e h. let same : caller_list ≡ m = cc in ap (λ f. contains (f x) y) same ∙ h;
  outs_real = λ ids m x y e h.
      let same : (λ x. []) ≡ m = cc in
      let none_there : false ≡ true = ap (λ f. contains (f x) y) same ∙ h in cc;
}

walk-Reaches_example : All (λ p. Sound.Reaches calls callers ("a" ∷ []) p.1 p.0) from_a.visited
walk-Reaches_example =
    Sound.walk-Reaches calls callers ("a" ∷ []) graph limits from_a refl graph-Truthful walk-from_a

length-append_each_example :
    length (list_at (lookup "a" (append_each caller_list ("a" ∷ "b" ∷ "a" ∷ []) [])))
    ≡ length (list_at (lookup {K = String} {V = List String} "a" []))
      + occurrences {A = String} "a" ("a" ∷ "b" ∷ "a" ∷ []) * length (caller_list "a")
length-append_each_example = Hubs.length-append_each caller_list ("a" ∷ "b" ∷ "a" ∷ []) [] "a"

abbrev collected_lists : Neighbours
collected_lists id = list_at (lookup id (append_each caller_list ("a" ∷ "a" ∷ []) []))

expanded : expand_per_source graph callers ("a" ∷ "a" ∷ []) ≡ ok collected_lists
unfolding expand_per_source
expanded = refl

twice : 3 < occurrences {A = String} "a" ("a" ∷ "a" ∷ []) * length (caller_list "a")
unfolding occurrences
twice = omega arith

repeated_source_gated_example :
    expand_frontier
      (record limits { hub_degree_threshold = pos 3 })
      2
      collected_lists
      ("a" ∷ "a" ∷ [])
      from_a
    ≡ expand_frontier
        (record limits { hub_degree_threshold = pos 3 })
        2
        collected_lists
        ("a" ∷ [])
        (record from_a { hubs = "a" ∷ [] })
repeated_source_gated_example =
    Hubs.repeated_source_gated graph (record limits { hub_degree_threshold = pos 3 }) caller_list
      (λ id. []) collected_lists ("a" ∷ "a" ∷ []) ("a" ∷ []) "a" 3 2 from_a refl refl refl expanded
      (omega arith) (omega arith) twice

abbrev nobody : List String → Result String (List Query.NodeMeta)
nobody ids = ok []

abbrev meta_of : String → Query.NodeMeta
meta_of id = record {
  node_id = id;
  symbol_path = id;
  file_path = "a.go";
  kind = "function";
  line_start = pos 1;
  line_end = pos 2;
  snippet = "";
}

abbrev everybody : List String → Result String (List Query.NodeMeta)
everybody ids = ok (map meta_of ids)

abbrev entry : String → ℕ → Query.Entry
entry id distance = record {
  node_id = id;
  distance = distance;
  meta = some (meta_of id);
  is_hub = false;
  pending = false;
}

abbrev answer : Query.Response
answer = record {
  entries = entry "a" 0 ∷ entry "b" 1 ∷ entry "c" 1 ∷ [];
  truncated = false;
  included_staging = false;
}

answered : Query.of_seeds graph everybody (pos 50) ("a" ∷ []) no_options ≡ ok answer
unfolding Query.of_seeds Query.check_seeds Query.by_id applied bounded walk hops seed enqueue
    visit_all expand_frontier expand_per_source append_each lookup insert keep_if contains
answered = refl
