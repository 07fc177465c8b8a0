-- ===== src/Domain/Graph.antt =====
-- internal/core/domain/graph.go: the read projection of nodes and edges. Nodes and edges are Go
-- pointers, so `none` is nil.
pub mod Projection
use veska.Common.{
  ℕ, Bool, true, false, not, ◌&&◌, Option, none, some, List, [], ◌∷◌, ◌++◌, map, String, Result, ok,
  err, reject_if, ◌>>=◌, ◌>>◌, ◌==◌, string_eq, sort_by, str_lt,
}
use veska.Common.Dict.{Dict, lookup, insert, is_present}
use veska.Domain.Node.{Node}
use veska.Domain.Edge.{Edge}

pub record Graph : Type 0 where
  pub repo_id : String
  pub branch : String
  pub nodes : Dict String Node
  pub outgoing : Dict String (List (Edge ℕ))
  pub incoming : Dict String (List (Edge ℕ))

pub data GraphError : Type 0 where
  empty_repo_id empty_branch nil_node duplicate_node nil_edge src_not_found tgt_not_found :
      GraphError

unfoldable pub new_graph : String → String → Result GraphError Graph
new_graph repo_id branch = do
  reject_if (repo_id == "") empty_repo_id
  reject_if (branch == "") empty_branch
  ok (record { repo_id = repo_id; branch = branch; nodes = []; outgoing = []; incoming = [] })

unfoldable pub add_node : Option Node → Graph → Result GraphError Graph
add_node none g = err nil_node
add_node (some n) g = do
  reject_if (is_present (lookup n.id g.nodes)) duplicate_node
  ok (record g { nodes = insert n.id n g.nodes })

abbrev pub edges_at : Option (List (Edge ℕ)) → List (Edge ℕ)
edges_at none = []
edges_at (some es) = es

-- `m[id] = append(m[id], e)`.
abbrev pub append_edge : String → Edge ℕ → Dict String (List (Edge ℕ)) → Dict String (List (Edge ℕ))
append_edge id e m = insert id (edges_at (lookup id m) ++ e ∷ []) m

unfoldable pub add_edge : Option (Edge ℕ) → Graph → Result GraphError Graph
add_edge none g = err nil_edge
add_edge (some e) g = do
  reject_if (not (is_present (lookup e.src g.nodes))) src_not_found
  reject_if (not (is_present (lookup e.tgt g.nodes))) tgt_not_found
  ok (record g {
    outgoing = append_edge e.src e g.outgoing;
    incoming = append_edge e.tgt e g.incoming;
  })

unfoldable pub nodes : Graph → List Node
nodes g = sort_by (λ a b. str_lt a.id b.id) (map (λ p. p.1) g.nodes)

unfoldable pub node : Graph → String → Option Node
node g id = lookup id g.nodes

unfoldable pub outgoing_edges : Graph → String → List (Edge ℕ)
outgoing_edges g id = edges_at (lookup id g.outgoing)

unfoldable pub incoming_edges : Graph → String → List (Edge ℕ)
incoming_edges g id = edges_at (lookup id g.incoming)
