-- ===== src/Tests/Duplicates.antt =====
-- Clusters of three symbols, and the clones of four rows.
use veska.Common.{
  ◌≡◌, ◌↔◌, refl, true, false, some, List, [], ◌∷◌, map, String, ok, string_eq, some_of, All,
  contains, pos, sort_by, insert_by, keep_if,
}
use veska.Common.Dict.{lookup, insert}
use veska.Duplicates
use veska.Duplicates.Near
use veska.Duplicates.Tiers
use veska.Duplicates.UnionFind.{find, union, union_all}
use veska.Duplicates.Connected.{Connected}
use veska.Duplicates.Together.{cluster_edges_lem, together}
use veska.Duplicates.Clusters.{mentioned}
use veska.Duplicates.Tiers.Tiered.{clusters_lem, IsTiered}

abbrev member : String → Duplicates.CloneMember
member id = record {
  node_id = id;
  repo_id = "r";
  symbol_path = id;
  file_path = id;
  kind = "function";
  line_start = pos 1;
  line_end = pos 2;
  content_hash = "";
}

abbrev three_edges : List Near.SimilarEdge
three_edges =
    record { src = member "a"; dst = member "b"; score = 7 }
    ∷ record { src = member "c"; dst = member "d"; score = 9 }
    ∷ record { src = member "c"; dst = member "b"; score = 8 }
    ∷ []

one_cluster :
    Near.cluster_edges three_edges
    ≡ some (
        record {
          size = 4;
          min_score = 7;
          max_score = 9;
          members = member "a" ∷ member "b" ∷ member "c" ∷ member "d" ∷ [];
        }
        ∷ [])
unfolding Near.cluster_edges union_all union find Near.aggregate Near.members_of sort_by insert_by
    lookup insert contains
one_cluster = refl

cluster_edges_lem_example :
    (clusters : List Near.NearCluster) × (Near.cluster_edges three_edges ≡ some clusters)
    × ((a b : String)
        → (together clusters a b ≡ true) ↔ (
            (contains (mentioned three_edges) a ≡ true)
            × (contains (mentioned three_edges) b ≡ true)
            × Connected (map Near.ends three_edges) a b))
cluster_edges_lem_example = cluster_edges_lem three_edges

abbrev clone_row : String → String → Duplicates.ClonedNode
clone_row id hash = record {
  content_hash = id;
  structural_hash = hash;
  repo_id = "r";
  node_id = id;
  symbol_path = id;
  file_path = id;
  kind = "function";
  line_start = pos 1;
  line_end = pos 2;
}

abbrev clone_rows : List Duplicates.ClonedNode
clone_rows = clone_row "a" "h" ∷ clone_row "b" "g" ∷ clone_row "c" "h" ∷ []

abbrev by_structure : Duplicates.ClonedNode → String
by_structure r = r.structural_hash

abbrev nodes : Tiers.CloneRows String
nodes query kinds = ok clone_rows

abbrev similar_edges : Near.SimilarEdges String
similar_edges repo branch least kinds = ok three_edges

abbrev all_tiers : Tiers.ClusterOptions
all_tiers = record {
  repo_id = "r";
  branch = "main";
  all_repos = false;
  path_prefix = "";
  tiers = [];
  min_score = 5;
}

abbrev both_clusters : List Tiers.Cluster
both_clusters =
    record {
      tier = Tiers.structural;
      members =
          record (member "a") { content_hash = "a" }
          ∷ record (member "c") { content_hash = "c" }
          ∷ [];
      size = 2;
      score = 0;
      cross_repo = false;
    }
    ∷ record {
      tier = Tiers.near;
      members = member "b" ∷ member "d" ∷ [];
      size = 2;
      score = 7;
      cross_repo = false;
    }
    ∷ []

clusters-small : Tiers.clusters nodes similar_edges "veska-static-v2" all_tiers ≡ ok both_clusters
unfolding Tiers.clusters Duplicates.group_by_hash Duplicates.bucket Duplicates.groups_of
    Tiers.hash_clusters Tiers.near_clusters Tiers.claimed Near.near_duplicates Near.cluster_edges
    union_all union find Near.aggregate Near.members_of sort_by insert_by lookup insert contains
    some_of keep_if
clusters-small = refl

clusters_lem_example :
    All
      (IsTiered (Tiers.tier_filter []) (Duplicates.group_by_hash by_structure clone_rows))
      both_clusters
clusters_lem_example =
    clusters_lem nodes similar_edges "veska-static-v2" all_tiers clone_rows both_clusters refl
      clusters-small
