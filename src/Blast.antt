-- ===== src/Blast.antt =====
-- internal/application/blastradius/blastradius.go: the bounded breadth-first walk over the edges.
-- The edge reader and the node lookup are parameters, each of which may fail.
pub mod Walk
pub mod Bounds
pub mod Sound
pub mod Hubs
pub mod Query
use veska.Common.{
  ℕ, zero, suc, ◌+◌, ◌-◌, Bool, true, false, not, ◌&&◌, ◌||◌, Option, none, some, List, [], ◌∷◌,
  ◌++◌, map, String, Result, ok, err, ◌>>=◌, ◌>>◌, reject_if, ◌==◌, string_eq, ltb, leb, ltz, lez,
  ℤ, pos, negsuc, if◌then◌else◌, length, contains, keep_if,
}
use veska.Common.Dict.{Dict, lookup, insert, is_present}

pub data Direction : Type 0 where
  callers callees both : Direction

-- ParseDirection; `none` is the error for an unknown word.
unfoldable pub parse_direction : String → Option Direction
parse_direction s =
    if s == "" || s == "callers"
    then some callers
    else if s == "callees"
    then some callees
    else if s == "both"
    then some both
    else none

abbrev pub default_max_depth : ℕ
default_max_depth = 3

abbrev pub default_max_nodes : ℕ
default_max_nodes = 200

abbrev pub hard_max_depth : ℕ
hard_max_depth = 10

abbrev pub hard_max_nodes : ℕ
hard_max_nodes = 10000

abbrev pub default_hub_degree_threshold : ℤ
default_hub_degree_threshold = pos 50

-- The direction is `none` for the empty word of the zero value.
pub record Options : Type 0 where
  pub max_depth : ℤ
  pub max_nodes : ℤ
  pub direction : Option Direction
  pub hub_degree_threshold : ℤ

-- The options after `applied`: the bounds are positive, so they are natural numbers.
pub record Applied : Type 0 where
  pub max_depth : ℕ
  pub max_nodes : ℕ
  pub direction : Direction
  pub hub_degree_threshold : ℤ

-- `if v <= 0 { v = default }` and then `if v > cap { v = cap }`.
unfoldable pub bounded : ℕ → ℕ → ℤ → ℕ
bounded default cap (pos zero) = if ltb cap default then cap else default
bounded default cap (pos (suc n)) = if ltb cap (suc n) then cap else suc n
bounded default cap (negsuc n) = if ltb cap default then cap else default

abbrev pub or_callers : Option Direction → Direction
or_callers none = callers
or_callers (some d) = d

abbrev pub or_default_hub : ℤ → ℤ → ℤ
or_default_hub default (pos zero) = default
or_default_hub default n = n

unfoldable pub applied : ℤ → Options → Applied
unfolding bounded
applied default_hub o = record {
  max_depth = bounded default_max_depth hard_max_depth o.max_depth;
  max_nodes = bounded default_max_nodes hard_max_nodes o.max_nodes;
  direction = or_callers o.direction;
  hub_degree_threshold = or_default_hub default_hub o.hub_degree_threshold;
}

-- What the walk has found: distances by node, the order of discovery, and the hubs.
pub record Found : Type 0 where
  pub visited : Dict String ℕ
  pub order : List String
  pub truncated : Bool
  pub hubs : List String

abbrev pub nothing_found : Found
nothing_found = record { visited = []; order = []; truncated = false; hubs = [] }

unfoldable pub enqueue : ℕ → String → ℕ → Found → Found × Bool
enqueue max_nodes id dist w =
    if is_present (lookup id w.visited)
    then (w, true)
    else if leb max_nodes (length w.order)
    then (record w { truncated = true }, false)
    else (record w { visited = insert id dist w.visited; order = w.order ++ id ∷ [] }, true)

-- The seed frontier: the walk goes on when a seed does not fit.
unfoldable pub seed : ℕ → List String → Found → Found × List String
seed max_nodes [] w = (w, [])
seed max_nodes (id ∷ ids) w =
    if id == ""
    then seed max_nodes ids w
    else (let (w', room) = enqueue max_nodes id 0 w in
        let (w'', rest) = seed max_nodes ids w' in (w'', if room then id ∷ rest else rest))

-- The neighbours of one source; the flag is false when the walk broke off.
unfoldable pub visit_all : ℕ → ℕ → List String → Found → Found × List String × Bool
visit_all max_nodes dist [] w = (w, [], true)
visit_all max_nodes dist (n ∷ ns) w =
    let (w', room) = enqueue max_nodes n dist w in
    let (w'', next, whole) = visit_all max_nodes dist ns w' in
    if room then (w'', n ∷ next, whole) else (w', [], false)

abbrev pub is_gated : ℤ → ℕ → Bool
is_gated threshold degree = ltz (pos 0) threshold && ltz threshold (pos degree)

abbrev pub Neighbours : Type 0
Neighbours = String → List String

module _ (o : Applied) where
  -- `frontierLoop`, over the sources of one hop.
  unfoldable pub expand_frontier : ℕ → Neighbours → List String → Found → Found × List String
  expand_frontier dist per_src [] w = (w, [])
  expand_frontier dist per_src (src ∷ rest) w =
      let ns = per_src src in
      let gated = expand_frontier dist per_src rest (record w { hubs = src ∷ w.hubs }) in
      let (w', next, whole) = visit_all o.max_nodes dist ns w in
      let (w'', more) = expand_frontier dist per_src rest w' in
      if is_gated o.hub_degree_threshold (length ns)
      then gated
      else if whole
      then (w'', next ++ more)
      else (w', next)

-- The two batch queries of the edge reader; a missing key reads as no neighbours.
pub record EdgeReader {ℓ} (E : Type ℓ) : Type ℓ where
  pub inbound : List String → Result E Neighbours
  pub outbound : List String → Result E Neighbours

abbrev pub list_at : Option (List String) → List String
list_at none = []
list_at (some xs) = xs

-- `for _, id := range frontier { out[id] = append(out[id], m[id]...) }`.
unfoldable pub append_each :
    Neighbours → List String → Dict String (List String) → Dict String (List String)
append_each m [] out = out
append_each m (id ∷ ids) out = append_each m ids (insert id (list_at (lookup id out) ++ m id) out)

abbrev pub walks_in : Direction → Bool
walks_in callees = false
walks_in _ = true

abbrev pub walks_out : Direction → Bool
walks_out callers = false
walks_out _ = true

abbrev pub has_elements : List String → Bool
has_elements [] = false
has_elements (x ∷ xs) = true

module _ {ℓ} {E : Type ℓ} (reader : EdgeReader E) where
  abbrev pub appended :
      Bool
      → (List String → Result E Neighbours)
      → List String
      → Dict String (List String)
      → Result E (Dict String (List String))
  appended false query frontier out = ok out
  appended true query frontier out = do m ← query frontier; ok (append_each m frontier out)

  unfoldable pub expand_per_source : Direction → List String → Result E Neighbours
  unfolding append_each
  expand_per_source dir frontier = do
    ins ← appended (walks_in dir) reader.inbound frontier []
    all ← appended (walks_out dir) reader.outbound frontier ins
    ok (λ id. list_at (lookup id all))

  -- The hops that are left, at distance `dist` from the seeds.
  unfoldable pub hops : Applied → ℕ → ℕ → List String → Found → Result E Found
  hops o zero dist frontier w = ok w
  hops o (suc left) dist frontier w =
      let go = expand_per_source o.direction frontier >>= λ per_src.
      let (w', next) = expand_frontier o (dist + 1) per_src frontier w in
      hops o left (dist + 1) next w' in
      if has_elements frontier && not w.truncated then go else ok w

  unfoldable pub walk : Applied → List String → Result E Found
  unfolding hops seed
  walk o seeds =
      let (w, frontier) = seed o.max_nodes seeds nothing_found in hops o o.max_depth 0 frontier w
