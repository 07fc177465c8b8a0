-- ===== src/Duplicates/Together.antt =====
-- What clusterEdges of internal/application/duplicates/duplicates.go returns: the connected
-- components of the edges.
use veska.Common.{
  suc, ◌≡◌, refl, sym, ap, ◌∙◌, ◌↔◌, inl, inr, Bool, true, false, ◌&&◌, ◌||◌, none, some, List, [],
  ◌∷◌, map, String, ◌==◌, string_eq, eq_iff, Bool-cases, Option-cases, arith, length, length-map,
  All, All-map, All-from-contains, contains, contains-map, contains-some_of, some_of, some_of-map,
  some_of-same, sort_by, some_of-sort_by,
}
use veska.Common.Dict.{
  Dict, lookup, insert, lookup-insert, lookup-entries, some_of-lookup, some_of-lookup-inv,
}
use veska.Duplicates.{CloneMember, member_less}
use veska.Duplicates.Connected.{Connected, edge, all_known, union_all-Components}
use veska.Duplicates.Near.{
  SimilarEdge, NearCluster, Component, Aggregate, members_of, member_at, cluster_of, cluster_less,
  build_clusters, ends, cluster_edges,
}
use veska.Duplicates.Clusters.{mentioned, ids_at, Covers, aggregate-Covers}

-- The members are found under their ids.
members_of-known :
    (es : List SimilarEdge) (m : Dict String CloneMember) (known : String → Bool)
    → ((id : String) → known id ≡ true → (member_at (lookup id m)).node_id ≡ id)
    → (id : String) → (known id || contains (mentioned es) id) ≡ true
    → (member_at (lookup id (members_of es m))).node_id ≡ id
unfolding members_of contains
members_of-known [] m known h id k = h id (ground arith)
members_of-known (e ∷ es) m known h id k =
    let s = e.src.node_id in
    let d = e.dst.node_id in
    members_of-known es (insert d e.dst (insert s e.src m)) (λ j. known j || (j == s || j == d))
      (λ j q.
        rw (lookup-insert d j e.dst (insert s e.src m), lookup-insert s j e.src m)
          (elim (Bool-cases (j == d)) [
            | inl e₁ ↦ rw e₁ (sym ((eq_iff j d).0 e₁))
            | inr n₁ ↦ elim (Bool-cases (j == s)) [
              | inl e₂ ↦ rw (n₁, e₂) (sym ((eq_iff j s).0 e₂))
              | inr n₂ ↦ rw (n₁, n₂) (h j (ground arith))
            ]
          ]))
      id (ground arith)

-- Whether the cluster has a member with the id.
abbrev pub has_member : NearCluster → String → Bool
has_member c id = contains (map (λ m. m.node_id) c.members) id

has_member-cluster_of :
    (members : Dict String CloneMember) (c : Component) (id : String)
    → All (λ j. (member_at (lookup j members)).node_id ≡ j) c.ids
    → has_member (cluster_of members c) id ≡ contains c.ids id
has_member-cluster_of members c id known =
    contains-map (λ m. m.node_id) (sort_by member_less _) id
    ∙ some_of-sort_by member_less (λ m. id == m.node_id) _
    ∙ some_of-map (λ j. member_at (lookup j members)) (λ m. id == m.node_id) c.ids
    ∙ some_of-same _ (λ j. id == j) c.ids (All-map _ _ (λ j e. ap (λ z. id == z) e) c.ids known)
    ∙ sym (contains-some_of c.ids id)

-- Whether some cluster has both.
unfoldable pub together : List NearCluster → String → String → Bool
together clusters a b = some_of (λ c. has_member c a && has_member c b) clusters

nowhere : (a : String) → contains (ids_at none) a ≡ false
unfolding contains
nowhere a = refl

module _ (root : String → String) (es : List SimilarEdge) (g : Aggregate) (covers : Covers root g)
    (seen : (id : String) → contains g.seen id ≡ contains (mentioned es) id) where
  entry-known :
      (p : String × Component)
      → lookup p.0 g.by_root ≡ some p.1
      → All (λ j. (member_at (lookup j (members_of es []))).node_id ≡ j) p.1.ids
  entry-known p found = All-from-contains _ p.1.ids (λ j here.
      members_of-known es [] (λ _. false) (λ _ q. absurd cc) j
        (sym (seen j) ∙ ground (arith, covers.holds p.0 j, ap (λ o. contains (ids_at o) j) found)))

  together-built :
      (a b : String)
      → together (build_clusters g.by_root (members_of es [])) a b
        ≡ some_of (λ p. contains p.1.ids a && contains p.1.ids b) g.by_root
  unfolding together
  together-built a b =
      let members = members_of es [] in
      some_of-sort_by cluster_less (λ c. has_member c a && has_member c b)
        (map (λ p. cluster_of members p.1) g.by_root)
      ∙ some_of-map (λ p. cluster_of members p.1) (λ c. has_member c a && has_member c b) g.by_root
      ∙ some_of-same _ _ g.by_root (
          All-map _ _
            (λ p found. ground (
              arith,
              has_member-cluster_of members p.1 a (entry-known p found),
              has_member-cluster_of members p.1 b (entry-known p found),
            ))
            g.by_root (lookup-entries g.by_root covers.apart))

  together-roots :
      (a b : String)
      → (together (build_clusters g.by_root (members_of es [])) a b ≡ true) ↔ (
          (contains (mentioned es) a ≡ true)
          × (contains (mentioned es) b ≡ true)
          × (root a ≡ root b))
  together-roots a b = (
    λ h.
        let (r, c, found, both) =
          some_of-lookup-inv (λ c. contains c.ids a && contains c.ids b) g.by_root covers.apart
            (sym (together-built a b) ∙ h) in
        let at : (id : String) → contains c.ids id ≡ (contains (mentioned es) id && root id == r) =
          λ id.
            ground (arith, covers.holds r id, ap (λ o. contains (ids_at o) id) found, seen id) in
        (
          ground (arith, at a, both),
          ground (arith, at b, both),
          ground (arith, at a, at b, both, eq_iff (root a) r, eq_iff (root b) r),
        ),
    λ (known_a, known_b, same).
        together-built a b ∙ (elim (Option-cases (lookup (root a) g.by_root)) [
          | inl absent ↦ absurd (
              ground (
                arith,
                covers.holds (root a) a,
                seen a,
                eq_iff (root a) (root a),
                nowhere a,
                ap (λ o. contains (ids_at o) a) absent,
              ))
          | inr (c, found) ↦
              some_of-lookup (λ c. contains c.ids a && contains c.ids b) (root a) c g.by_root found
                (ground (
                  arith,
                  covers.holds (root a) a,
                  covers.holds (root a) b,
                  seen a,
                  seen b,
                  eq_iff (root a) (root a),
                  eq_iff (root b) (root a),
                  ap (λ o. contains (ids_at o) a) found,
                  ap (λ o. contains (ids_at o) b) found,
                ))
        ]),
  )

All-unmap {ℓ κ μ} :
    {A : Type ℓ} {B : Type κ} (P : B → Type μ) (f : A → B) (xs : List A)
    → All P (map f xs)
    → All (λ x. P (f x)) xs
All-unmap P f [] h = tt
All-unmap P f (x ∷ xs) h = (h.0, All-unmap P f xs h.1)

nothing_aggregated-Covers :
    (root : String → String) → Covers root (record { by_root = []; seen = [] })
unfolding lookup contains
nothing_aggregated-Covers root = record { apart = tt; holds = λ r id. refl }

-- Two ids stand in one cluster exactly when edges mention both and a chain of edges connects them;
-- every find of the run ends.
pub cluster_edges_lem :
    (es : List SimilarEdge)
    → (clusters : List NearCluster) × (cluster_edges es ≡ some clusters)
      × ((a b : String)
          → (together clusters a b ≡ true) ↔ (
              (contains (mentioned es) a ≡ true)
              × (contains (mentioned es) b ≡ true)
              × Connected (map ends es) a b))
unfolding cluster_edges contains
cluster_edges_lem es =
    let (u, root, depth, united, comps) =
      union_all-Components (map ends es) (suc (length es)) (omega (arith, length-map ends es)) in
    let respects =
      All-unmap (λ e. root e.0 ≡ root e.1) ends es
        (All-map _ _ (λ e m. (comps.same_root e.0 e.1).1 (edge m)) (map ends es)
          (all_known (map ends es))) in
    let (g, aggregated, covers, seen) =
      aggregate-Covers root depth (suc (length es)) es u (record { by_root = []; seen = [] })
        comps.forest comps.shallow respects (nothing_aggregated-Covers root) in
    let roots = together-roots root es g covers seen in
    (
      build_clusters g.by_root (members_of es []),
      rw (cluster_edges, united, aggregated) refl,
      λ a b. (
        λ h.
            let (known_a, known_b, same) = (roots a b).0 h in
            (known_a, known_b, (comps.same_root a b).0 same),
        λ (known_a, known_b, joined).
            (roots a b).1 (known_a, known_b, (comps.same_root a b).1 joined),
      ),
    )
