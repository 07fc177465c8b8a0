-- ===== src/Duplicates/Tiers.antt =====
-- internal/application/duplicates/clusters.go, and ExactClones and StructuralClones of
-- duplicates.go. The empty repository of a query stands for all repositories.
pub mod Tiered
use veska.Common.{
  ℕ, ◌≤◌, ◌≡◌, refl, sym, ap, subst, ◌∙◌, inl, inr, Bool, true, false, not, ◌&&◌, List, [], ◌∷◌,
  ◌++◌, map, String, Result, ok, err, ◌==◌, string_eq, nat_eq, if◌then◌else◌, ltb, str_lt, sort_by,
  length, length-sort_by, keep_if, contains, some_of, All, All-append, All-map, All-sort_by,
  Bool-cases, arith,
}
use veska.Duplicates.{
  ClonedNode, CloneMember, CloneGroup, CloneQuery, excluded_kinds, group_by_hash, member_less,
}
use veska.Duplicates.Groups.{group_by_hash_lem, IsGroupOf, sharing}
use veska.Duplicates.Near.{NearCluster, FinderError, store, SimilarEdges, near_duplicates, first_id}

pub data Tier : Type 0 where
  exact structural near : Tier

abbrev pub tier_rank : Tier → ℕ
tier_rank exact = 0
tier_rank structural = 1
tier_rank near = 2

abbrev pub same_tier : Tier → Tier → Bool
same_tier a b = tier_rank a == tier_rank b

pub record Cluster : Type 0 where
  pub tier : Tier
  pub members : List CloneMember
  pub size : ℕ
  pub score : ℕ
  pub cross_repo : Bool

pub record ClusterOptions : Type 0 where
  pub repo_id : String
  pub branch : String
  pub all_repos : Bool
  pub path_prefix : String
  pub tiers : List Tier
  pub min_score : ℕ

-- `tierFilter(tiers)[tier]`.
abbrev pub tier_filter : List Tier → Tier → Bool
tier_filter [] tier = true
tier_filter (t ∷ ts) tier = some_of (same_tier tier) (t ∷ ts)

abbrev pub uniform_content_hash : List CloneMember → Bool
uniform_content_hash [] = false
uniform_content_hash (first ∷ ms) =
    not (some_of (λ m. not (m.content_hash == first.content_hash)) ms)

abbrev pub spans_repos : List CloneMember → Bool
spans_repos [] = false
spans_repos (first ∷ ms) = some_of (λ m. not (m.repo_id == first.repo_id)) ms

abbrev pub tier_of : CloneGroup → Tier
tier_of g = if uniform_content_hash g.members then exact else structural

-- The ids of the members of the structural groups.
unfoldable pub claimed : List CloneGroup → List String
claimed [] = []
claimed (g ∷ gs) = map (λ m. m.node_id) g.members ++ claimed gs

abbrev pub group_cluster : CloneGroup → Cluster
group_cluster g = record {
  tier = tier_of g;
  members = g.members;
  size = g.size;
  score = 0;
  cross_repo = spans_repos g.members;
}

unfoldable pub hash_clusters : (Tier → Bool) → List CloneGroup → List Cluster
hash_clusters want [] = []
hash_clusters want (g ∷ gs) =
    let rest = hash_clusters want gs in if want (tier_of g) then group_cluster g ∷ rest else rest

abbrev pub unclaimed : List String → List CloneMember → List CloneMember
unclaimed taken = keep_if λ m. not (contains taken m.node_id)

abbrev pub near_cluster : ℕ → List CloneMember → Cluster
near_cluster score kept = record {
  tier = near;
  members = kept;
  size = length kept;
  score = score;
  cross_repo = spans_repos kept;
}

unfoldable pub near_clusters : List String → List NearCluster → List Cluster
near_clusters taken [] = []
near_clusters taken (nc ∷ ncs) =
    let rest = near_clusters taken ncs in
    let kept = unclaimed taken nc.members in
    if ltb (length kept) 2 then rest else near_cluster nc.min_score kept ∷ rest

abbrev pub cluster_less : Cluster → Cluster → Bool
cluster_less a b =
    if same_tier a.tier b.tier
    then if a.size == b.size
      then str_lt (first_id a.members) (first_id b.members)
      else ltb b.size a.size
    else ltb (tier_rank a.tier) (tier_rank b.tier)

abbrev pub cluster_query : ClusterOptions → CloneQuery
cluster_query opts = record {
  repo_id = if opts.all_repos then "" else opts.repo_id;
  branch = opts.branch;
  path_prefix = opts.path_prefix;
}

-- The store's rows of equal content or structure.
abbrev pub CloneRows {ℓ} : Type ℓ → Type ℓ
CloneRows E = CloneQuery → List String → Result E (List ClonedNode)

module _ {ℓ} {E : Type ℓ} (nodes : CloneRows E) (similar_edges : SimilarEdges E)
    (embedder_id : String) where
  abbrev grouped :
      (ClonedNode → String) → Result E (List ClonedNode) → Result (FinderError E) (List CloneGroup)
  grouped key_of (err e) = err (store e)
  grouped key_of (ok rows) = ok (group_by_hash key_of rows)

  abbrev pub exact_clones : String → String → Result (FinderError E) (List CloneGroup)
  exact_clones repo_id branch =
      grouped (λ r. r.content_hash)
        (nodes (record { repo_id = repo_id; branch = branch; path_prefix = "" }) excluded_kinds)

  abbrev pub structural_clones : String → String → Result (FinderError E) (List CloneGroup)
  structural_clones repo_id branch =
      grouped (λ r. r.structural_hash)
        (nodes (record { repo_id = repo_id; branch = branch; path_prefix = "" }) excluded_kinds)

  abbrev pub with_near :
      List CloneGroup
      → List Cluster
      → Result (FinderError E) (List NearCluster)
      → Result (FinderError E) (List Cluster)
  with_near groups out (err e) = err e
  with_near groups out (ok nears) =
      ok (sort_by cluster_less (out ++ near_clusters (claimed groups) nears))

  abbrev pub tiered : ClusterOptions → List CloneGroup → Result (FinderError E) (List Cluster)
  tiered opts groups =
      let want = tier_filter opts.tiers in
      let out = hash_clusters want groups in
      if want near && not opts.all_repos
      then with_near groups out
          (near_duplicates similar_edges embedder_id opts.repo_id opts.branch opts.min_score)
      else ok (sort_by cluster_less out)

  abbrev from_rows :
      ClusterOptions → Result E (List ClonedNode) → Result (FinderError E) (List Cluster)
  from_rows opts (err e) = err (store e)
  from_rows opts (ok rows) = tiered opts (group_by_hash (λ r. r.structural_hash) rows)

  unfoldable pub clusters : ClusterOptions → Result (FinderError E) (List Cluster)
  clusters opts = from_rows opts (nodes (cluster_query opts) excluded_kinds)
