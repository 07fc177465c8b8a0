-- ===== src/Duplicates/Tiers/Tiered.antt =====
-- What Clusters of internal/application/duplicates/clusters.go returns.
use veska.Common.{
  ◌≤◌, ◌≡◌, refl, sym, ap, subst, ◌∙◌, inl, inr, Bool, true, false, not, ◌&&◌, List, [], ◌∷◌, ◌++◌,
  String, Result, ok, err, string_eq, nat_eq, ltb, sort_by, length, length-sort_by, keep_if,
  contains, some_of, All, All-append, All-map, All-sort_by, Bool-cases, arith,
}
use veska.Duplicates.{
  ClonedNode, CloneMember, CloneGroup, excluded_kinds, group_by_hash, member_less,
}
use veska.Duplicates.Groups.{group_by_hash_lem, IsGroupOf, sharing}
use veska.Duplicates.Near.{NearCluster, FinderError, SimilarEdges}
use veska.Duplicates.Tiers.{
  Tier, near, Cluster, ClusterOptions, same_tier, tier_filter, tier_of, claimed, hash_clusters,
  unclaimed, near_clusters, cluster_less, CloneRows, cluster_query, with_near, tiered, clusters,
  uniform_content_hash,
}

-- A cluster of a wanted tier with at least two members, none of them in a structural group when the
-- cluster is of the near tier.
pub record IsTiered (want : Tier → Bool) (groups : List CloneGroup) (c : Cluster) : Type 0 where
  pub wanted : want c.tier ≡ true
  pub counted : c.size ≡ length c.members
  pub plural : 2 ≤ c.size
  pub tightest :
      (same_tier c.tier near && some_of (λ m. contains (claimed groups) m.node_id) c.members)
      ≡ false

tier_of-hash : (g : CloneGroup) → same_tier (tier_of g) near ≡ false
tier_of-hash g = elim (Bool-cases (uniform_content_hash g.members)) [
  | inl same ↦ rw same refl
  | inr other ↦ rw other refl
]

hash_clusters-IsTiered :
    (want : Tier → Bool) (groups gs : List CloneGroup)
    → All (λ g. (g.size ≡ length g.members) × (2 ≤ g.size)) gs
    → All (IsTiered want groups) (hash_clusters want gs)
unfolding hash_clusters
hash_clusters-IsTiered want groups [] h = tt
hash_clusters-IsTiered want groups (g ∷ gs) h = elim (Bool-cases (want (tier_of g))) [
  | inl wanted ↦ rw wanted (
    record {
      wanted = wanted;
      counted = h.0.0;
      plural = h.0.1;
      tightest = ground (arith, tier_of-hash g);
    },
    hash_clusters-IsTiered want groups gs h.1,
  )
  | inr unwanted ↦ rw unwanted (hash_clusters-IsTiered want groups gs h.1)
]

unclaimed-free :
    (taken : List String) (ms : List CloneMember)
    → some_of (λ m. contains taken m.node_id) (unclaimed taken ms) ≡ false
unfolding some_of keep_if
unclaimed-free taken [] = refl
unclaimed-free taken (m ∷ ms) = elim (Bool-cases (contains taken m.node_id)) [
  | inl seen ↦ rw seen (unclaimed-free taken ms)
  | inr new ↦ rw (new, new) (unclaimed-free taken ms)
]

near_clusters-IsTiered :
    (want : Tier → Bool) (groups : List CloneGroup) (ncs : List NearCluster)
    → want near ≡ true
    → All (IsTiered want groups) (near_clusters (claimed groups) ncs)
unfolding near_clusters
near_clusters-IsTiered want groups [] wanted = tt
near_clusters-IsTiered want groups (nc ∷ ncs) wanted =
    elim (Bool-cases (ltb (length (unclaimed (claimed groups) nc.members)) 2)) [
      | inl few ↦ rw few (near_clusters-IsTiered want groups ncs wanted)
      | inr enough ↦ rw enough (
        record {
          wanted = wanted;
          counted = refl;
          plural = ground arith;
          tightest = unclaimed-free (claimed groups) nc.members;
        },
        near_clusters-IsTiered want groups ncs wanted,
      )
    ]

groups-counted :
    (rows : List ClonedNode)
    → All
        (λ g. (g.size ≡ length g.members) × (2 ≤ g.size))
        (group_by_hash (λ r. r.structural_hash) rows)
groups-counted rows =
    All-map (IsGroupOf (λ r. r.structural_hash) rows) _
      (λ g is. (
        is.counted
            ∙ sym
                (length-sort_by member_less (sharing (λ r. r.structural_hash) g.content_hash rows))
            ∙ ap length (sym is.listed),
        is.plural,
      ))
      (group_by_hash (λ r. r.structural_hash) rows)
      (group_by_hash_lem (λ r. r.structural_hash) rows).0

module _ {ℓ} {E : Type ℓ} (nodes : CloneRows E) (similar_edges : SimilarEdges E)
    (embedder_id : String) where
  with_near-IsTiered :
      (want : Tier → Bool) (groups : List CloneGroup) (hashed out : List Cluster)
      (nears : Result (FinderError E) (List NearCluster))
      → All (IsTiered want groups) hashed
      → want near ≡ true
      → with_near nodes similar_edges embedder_id groups hashed nears ≡ ok out
      → All (IsTiered want groups) out
  with_near-IsTiered want groups hashed out (err e) h wanted came = absurd cc
  with_near-IsTiered want groups hashed out (ok nears) h wanted came =
      let same : sort_by cluster_less (hashed ++ near_clusters (claimed groups) nears) ≡ out = cc in
      subst (All (IsTiered want groups)) same (
        All-sort_by cluster_less _ _
          (All-append _ hashed _ h (near_clusters-IsTiered want groups nears wanted)))

  -- The clusters that Clusters returns are of wanted tiers, have at least two members, and in the
  -- near tier no member that stands in a group of equal structure.
  pub clusters_lem :
      (opts : ClusterOptions) (rows : List ClonedNode) (out : List Cluster)
      → nodes (cluster_query opts) excluded_kinds ≡ ok rows
      → clusters nodes similar_edges embedder_id opts ≡ ok out
      → All (IsTiered (tier_filter opts.tiers) (group_by_hash (λ r. r.structural_hash) rows)) out
  unfolding clusters
  clusters_lem opts rows out asked came =
      let want = tier_filter opts.tiers in
      let groups = group_by_hash (λ r. r.structural_hash) rows in
      let hashed = hash_clusters want groups in
      let h = hash_clusters-IsTiered want groups groups (groups-counted rows) in
      let came' : tiered nodes similar_edges embedder_id opts groups ≡ ok out = rw asked at came in
      elim (Bool-cases (want near && not opts.all_repos)) [
        | inl both ↦
            with_near-IsTiered want groups hashed out _ h (ground (arith, both)) (rw both at came')
        | inr one ↦
            let came'' : ok (sort_by cluster_less hashed) ≡ ok out = rw one at came' in
            let same : sort_by cluster_less hashed ≡ out = cc in
            subst (All (IsTiered want groups)) same (All-sort_by cluster_less _ _ h)
      ]
