-- ===== src/Duplicates/Clusters.antt =====
-- What aggregateComponents of internal/application/duplicates/duplicates.go collects: the ids of the
-- edges, under their roots.
use veska.Common.{
  ℕ, ◌<◌, ◌≡◌, refl, ap, inl, inr, not, ◌&&◌, ◌||◌, Option, none, some, List, [], ◌∷◌, ◌++◌, String,
  ◌==◌, string_eq, eq_iff, Bool-cases, arith, All, IsDistinct, contains, contains-append,
}
use veska.Common.Dict.{lookup, keys, lookup-insert, insert-IsDistinct}
use veska.Duplicates.UnionFind.{Parents, IsForest, find_lem}
use veska.Duplicates.Near.{
  SimilarEdge, Component, Aggregate, component_at, scored, unseen, fresh_ids, add_edge, aggregate,
}

abbrev pub mentioned : List SimilarEdge → List String
mentioned [] = []
mentioned (e ∷ es) = e.src.node_id ∷ e.dst.node_id ∷ mentioned es

abbrev pub ids_at : Option Component → List String
ids_at none = []
ids_at (some c) = c.ids

ids-component_at : (o : Option Component) (score : ℕ) → (component_at o score).ids ≡ ids_at o
ids-component_at none score = refl
ids-component_at (some c) score = refl

contains-unseen :
    (seen : List String) (a id : String)
    → contains (unseen seen a) id ≡ (id == a && not (contains seen id))
unfolding contains
contains-unseen seen a id = elim (Bool-cases (id == a)) [
  | inl same ↦ rw ((eq_iff id a).0 same) (ground (arith, eq_iff a a))
  | inr other ↦ ground arith
]

contains-fresh_ids :
    (seen : List String) (a b id : String)
    → contains (fresh_ids seen a b) id ≡ ((id == a || id == b) && not (contains seen id))
contains-fresh_ids seen a b id = ground (
  arith,
  contains-append (unseen seen a) (unseen (seen ++ unseen seen a) b) id,
  contains-append seen (unseen seen a) id,
  contains-unseen seen a id,
  contains-unseen (seen ++ unseen seen a) b id,
)

-- The components hold the seen ids, each in that of its root.
pub record Covers (root : String → String) (g : Aggregate) : Type 0 where
  pub apart : IsDistinct (keys g.by_root)
  pub holds :
      (r id : String)
      → contains (ids_at (lookup r g.by_root)) id ≡ (contains g.seen id && root id == r)

module _ (root : String → String) where
  add_edge-Covers :
      (e : SimilarEdge) (g : Aggregate)
      → root e.src.node_id ≡ root e.dst.node_id
      → Covers root g
      → Covers root (add_edge e (root e.src.node_id) g)
  add_edge-Covers e g same c = record {
    apart = insert-IsDistinct (root e.src.node_id) _ g.by_root c.apart;
    holds = λ r id.
        let s = e.src.node_id in
        let d = e.dst.node_id in
        let c' = scored e.score (component_at (lookup (root s) g.by_root) e.score) in
        let fresh = fresh_ids g.seen s d in
        rw (lookup-insert (root s) r (record c' { ids = c'.ids ++ fresh }) g.by_root)
          (elim (Bool-cases (r == root s)) [
            | inl here ↦
                rw
                  (
                    here,
                    (eq_iff r (root s)).0 here,
                    contains-append c'.ids fresh id,
                    contains-append g.seen fresh id,
                    ids-component_at (lookup (root s) g.by_root) e.score,
                    c.holds (root s) id,
                    contains-fresh_ids g.seen s d id,
                  )
                  (ground (
                    arith,
                    eq_iff (root id) (root s),
                    eq_iff id s,
                    eq_iff id d,
                    ap root {x = id} {y = s},
                    ap root {x = id} {y = d},
                  ))
            | inr other ↦
                rw
                  (
                    other,
                    c.holds r id,
                    contains-append g.seen fresh id,
                    contains-fresh_ids g.seen s d id,
                  )
                  (ground (
                    arith,
                    eq_iff (root id) r,
                    eq_iff r (root s),
                    eq_iff id s,
                    eq_iff id d,
                    ap root {x = id} {y = s},
                    ap root {x = id} {y = d},
                  ))
          ]);
  }

  pub aggregate-Covers :
      (depth : String → ℕ) (fuel : ℕ) (es : List SimilarEdge) (u : Parents) (g : Aggregate)
      → IsForest root depth u
      → ((x : String) → depth x < fuel)
      → All (λ e. root e.src.node_id ≡ root e.dst.node_id) es
      → Covers root g
      → (g' : Aggregate) × (aggregate fuel u es g ≡ some g')
        × Covers root g'
        × ((id : String) → contains g'.seen id ≡ (contains g.seen id || contains (mentioned es) id))
  unfolding aggregate contains
  aggregate-Covers depth fuel [] u g f shallow same c = (g, refl, c, λ id. ground arith)
  aggregate-Covers depth fuel (e ∷ es) u g f shallow same c =
      let s = e.src.node_id in
      let (v, found, f') = find_lem root depth fuel u s f (shallow s) in
      let (g', came, c', seen) =
        aggregate-Covers depth fuel es v (add_edge e (root s) g) f' shallow same.1
          (add_edge-Covers e g same.0 c) in
      (
        g',
        rw (aggregate, found) came,
        c',
        λ id. ground (
          arith,
          seen id,
          contains-append g.seen (fresh_ids g.seen s e.dst.node_id) id,
          contains-fresh_ids g.seen s e.dst.node_id id,
        ),
      )
