-- ===== src/Domain/Graph/Projection.antt =====
-- The two adjacency maps of a graph agree, and its edges have their ends among its nodes.
use veska.Common.{
  ℕ, ◌+◌, ◌≡◌, refl, sym, subst, true, ◌&&◌, Option, none, some, List, [], ◌∷◌, ◌++◌, String, ok,
  ◌==◌, string_eq, eq_iff, if◌then◌else◌, arith, Bool-cases, inl, inr, All, All-append, All-map,
}
use veska.Common.Dict.{Dict, lookup, insert, is_present, lookup-insert}
use veska.Domain.Node.{Node}
use veska.Domain.Edge.{Edge}
use veska.Domain.Graph.{
  Graph, add_node, add_edge, append_edge, edges_at, outgoing_edges, incoming_edges, node,
}

-- How often an edge with these ends stands in a list.
abbrev pub between : String → String → List (Edge ℕ) → ℕ
between src tgt [] = 0
between src tgt (e ∷ es) = (if e.src == src && e.tgt == tgt then 1 else 0) + between src tgt es

between-append :
    (src tgt : String) (xs ys : List (Edge ℕ))
    → between src tgt (xs ++ ys) ≡ between src tgt xs + between src tgt ys
between-append src tgt [] ys = omega arith
between-append src tgt (x ∷ xs) ys = omega (arith, between-append src tgt xs ys)

-- The contract of a projection.
pub record IsProjection (g : Graph) : Type 0 where
  pub sources :
      (id : String)
      → All (λ e. (e.src ≡ id) × (is_present (lookup e.tgt g.nodes) ≡ true)) (outgoing_edges g id)
  pub targets :
      (id : String)
      → All (λ e. (e.tgt ≡ id) × (is_present (lookup e.src g.nodes) ≡ true)) (incoming_edges g id)
  pub agree :
      (src tgt : String)
      → between src tgt (outgoing_edges g src) ≡ between src tgt (incoming_edges g tgt)

abbrev with_edge : Edge ℕ → Graph → Graph
with_edge e g = record g {
  outgoing = append_edge e.src e g.outgoing;
  incoming = append_edge e.tgt e g.incoming;
}

-- The list at one end after an edge was appended.
edges_at-append_edge :
    (id at : String) (e : Edge ℕ) (m : Dict String (List (Edge ℕ)))
    → edges_at (lookup at (append_edge id e m))
      ≡ (if at == id then edges_at (lookup at m) ++ e ∷ [] else edges_at (lookup at m))
edges_at-append_edge id at e m = elim (Bool-cases (at == id)) [
  | inl same ↦
      rw (lookup-insert id at (edges_at (lookup id m) ++ e ∷ []) m, same, (eq_iff at id).0 same)
        refl
  | inr other ↦ rw (lookup-insert id at (edges_at (lookup id m) ++ e ∷ []) m, other) refl
]

All-append_edge :
    (P : Edge ℕ → Type 0) (id at : String) (e : Edge ℕ) (m : Dict String (List (Edge ℕ)))
    → (at ≡ id → P e)
    → All P (edges_at (lookup at m))
    → All P (edges_at (lookup at (append_edge id e m)))
All-append_edge P id at e m here old =
    rw (edges_at-append_edge id at e m) (elim (Bool-cases (at == id)) [
      | inl same ↦
          rw same
            (All-append P (edges_at (lookup at m)) (e ∷ []) old (here ((eq_iff at id).0 same), tt))
      | inr other ↦ rw other old
    ])

between-append_edge :
    (src tgt id at : String) (e : Edge ℕ) (m : Dict String (List (Edge ℕ)))
    → between src tgt (edges_at (lookup at (append_edge id e m)))
      ≡ between src tgt (edges_at (lookup at m))
        + (if at == id && (e.src == src && e.tgt == tgt) then 1 else 0)
between-append_edge src tgt id at e m =
    rw (edges_at-append_edge id at e m) (elim (Bool-cases (at == id)) [
      | inl same ↦ rw same (omega (arith, between-append src tgt (edges_at (lookup at m)) (e ∷ [])))
      | inr other ↦ rw other (omega arith)
    ])

with_edge-IsProjection :
    (e : Edge ℕ) (g : Graph)
    → is_present (lookup e.src g.nodes) ≡ true
    → is_present (lookup e.tgt g.nodes) ≡ true
    → IsProjection g
    → IsProjection (with_edge e g)
unfolding outgoing_edges incoming_edges
with_edge-IsProjection e g s t v = record {
  sources = λ id. All-append_edge _ e.src id e g.outgoing (λ same. (sym same, t)) (v.sources id);
  targets = λ id. All-append_edge _ e.tgt id e g.incoming (λ same. (sym same, s)) (v.targets id);
  agree = λ src tgt. ground (
    arith,
    between-append_edge src tgt e.src src e g.outgoing,
    between-append_edge src tgt e.tgt tgt e g.incoming,
    v.agree src tgt,
    eq_iff src e.src,
    eq_iff e.src src,
    eq_iff tgt e.tgt,
    eq_iff e.tgt tgt,
  );
}

-- AddEdge keeps a projection: every edge listed at a node starts (or ends) there, has its other end
-- among the nodes, and stands as often in the outgoing list of its source as in the incoming list
-- of its target.
pub add_edge-IsProjection :
    (o : Option (Edge ℕ)) (g g' : Graph) → IsProjection g → add_edge o g ≡ ok g' → IsProjection g'
unfolding add_edge
add_edge-IsProjection none g g' v h = cc
add_edge-IsProjection (some e) g g' v h =
    let s : is_present (lookup e.src g.nodes) ≡ true = ground arith in
    let t : is_present (lookup e.tgt g.nodes) ≡ true = ground arith in
    let same : with_edge e g ≡ g' = ground arith in
    subst IsProjection same (with_edge-IsProjection e g s t v)

abbrev with_node : Node → Graph → Graph
with_node n g = record g { nodes = insert n.id n g.nodes }

present-insert :
    (id : String) (n : Node) (m : Dict String Node)
    → is_present (lookup id m) ≡ true
    → is_present (lookup id (insert n.id n m)) ≡ true
present-insert id n m h = ground (arith, lookup-insert n.id id n m)

with_node-IsProjection : (n : Node) (g : Graph) → IsProjection g → IsProjection (with_node n g)
unfolding outgoing_edges incoming_edges
with_node-IsProjection n g v = record {
  sources = λ id.
      All-map _ _ (λ e h. (h.0, present-insert e.tgt n g.nodes h.1)) (outgoing_edges g id)
        (v.sources id);
  targets = λ id.
      All-map _ _ (λ e h. (h.0, present-insert e.src n g.nodes h.1)) (incoming_edges g id)
        (v.targets id);
  agree = v.agree;
}

-- AddNode keeps a projection, refuses an identifier that the graph has, and makes the node found
-- under its own identifier; every other identifier finds what it found.
pub add_node_lem :
    (n : Node) (g g' : Graph) (id : String)
    → IsProjection g
    → add_node (some n) g ≡ ok g'
    → IsProjection g'
      × (node g n.id ≡ none)
      × (node g' id ≡ (if id == n.id then some n else node g id))
unfolding add_node node
add_node_lem n g g' id v h =
    let same : with_node n g ≡ g' = ground arith in
    (
      subst IsProjection same (with_node-IsProjection n g v),
      ground arith,
      rw (← same) (lookup-insert n.id id n g.nodes),
    )
