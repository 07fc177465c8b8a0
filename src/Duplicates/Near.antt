-- ===== src/Duplicates/Near.antt =====
-- NearDuplicates, clusterEdges, aggregateComponents and buildClusters of
-- internal/application/duplicates/duplicates.go. The fuel of a find is one more than the edges.
use Prim.Native.String.{slice, len}
use veska.Common.{
  ℕ, zero, suc, Bool, ◌||◌, Option, none, some, List, [], ◌∷◌, ◌++◌, map, String, Result, ok, err,
  ◌==◌, string_eq, nat_eq, if◌then◌else◌, ltb, leb, str_lt, sort_by, length, contains, pos, ◌^◌,
}
use veska.Common.Dict.{Dict, lookup, insert}
use veska.Duplicates.{CloneMember, member_less, excluded_kinds}
use veska.Duplicates.UnionFind.{Parents, find, union_all}

pub record SimilarEdge : Type 0 where
  pub src : CloneMember
  pub dst : CloneMember
  pub score : ℕ

pub record NearCluster : Type 0 where
  pub size : ℕ
  pub min_score : ℕ
  pub max_score : ℕ
  pub members : List CloneMember

-- The bit patterns of 0.68, 0.85 and 0.70.
abbrev pub default_near_threshold : ℕ
default_near_threshold = 1059984507

abbrev pub calibrated_near_threshold : Dict String ℕ
calibrated_near_threshold =
    ("model2vec(potion-code-16M)", 1059984507)
    ∷ ("nomic-embed-text", 1062836634)
    ∷ ("veska-static-v2", 1060320051)
    ∷ []

abbrev or_default : Option ℕ → ℕ
or_default none = default_near_threshold
or_default (some v) = v

-- `strings.IndexByte(s, ':')` from a position on, with a count of the characters that are left.
unfoldable pub colon_from : ℕ → ℕ → String → Option ℕ
colon_from zero at s = none
colon_from (suc left) at s =
    let later = colon_from left (suc at) s in if slice s at (suc at) == ":" then some at else later

abbrev base_model : String → Option ℕ → Option ℕ
base_model model_id none = none
base_model model_id (some zero) = none
base_model model_id (some (suc i)) = lookup (slice model_id 0 (suc i)) calibrated_near_threshold

abbrev pub near_threshold_for : String → ℕ
near_threshold_for model_id = elim (lookup model_id calibrated_near_threshold) [
  | some v ↦ v
  | none ↦ or_default (base_model model_id (colon_from (len model_id) 0 model_id))
]

pub record Component : Type 0 where
  pub ids : List String
  pub min_score : ℕ
  pub max_score : ℕ

-- `byRoot` and `seen`.
pub record Aggregate : Type 0 where
  pub by_root : Dict String Component
  pub seen : List String

abbrev pub component_at : Option Component → ℕ → Component
component_at none score = record { ids = []; min_score = score; max_score = score }
component_at (some c) score = c

abbrev pub scored : ℕ → Component → Component
scored score c = record c {
  min_score = if ltb score c.min_score then score else c.min_score;
  max_score = if ltb c.max_score score then score else c.max_score;
}

-- The ids of an edge that were not seen yet.
abbrev pub unseen : List String → String → List String
unseen seen id = if contains seen id then [] else id ∷ []

abbrev pub fresh_ids : List String → String → String → List String
fresh_ids seen src dst = let first = unseen seen src in first ++ unseen (seen ++ first) dst

abbrev pub add_edge : SimilarEdge → String → Aggregate → Aggregate
add_edge e root g =
    let c = scored e.score (component_at (lookup root g.by_root) e.score) in
    let fresh = fresh_ids g.seen e.src.node_id e.dst.node_id in
    record {
      by_root = insert root (record c { ids = c.ids ++ fresh }) g.by_root;
      seen = g.seen ++ fresh;
    }

-- A second find of the same id, as Go makes it for a new component, finds the same root.
unfoldable pub aggregate : ℕ → Parents → List SimilarEdge → Aggregate → Option Aggregate
aggregate fuel u [] g = some g
aggregate fuel u (e ∷ es) g = elim (find fuel u e.src.node_id) [
  | none ↦ none
  | some (v, root) ↦ aggregate fuel v es (add_edge e root g)
]

abbrev pub aggregate_components : ℕ → Parents → List SimilarEdge → Option Aggregate
aggregate_components fuel u es = aggregate fuel u es (record { by_root = []; seen = [] })

-- `members[e.Src.NodeID] = e.Src` and the same for the target.
unfoldable pub members_of : List SimilarEdge → Dict String CloneMember → Dict String CloneMember
members_of [] m = m
members_of (e ∷ es) m = members_of es (insert e.dst.node_id e.dst (insert e.src.node_id e.src m))

-- `members[id]`, the zero value for a missing id.
abbrev pub member_at : Option CloneMember → CloneMember
member_at (some m) = m
member_at none = record {
  node_id = "";
  repo_id = "";
  symbol_path = "";
  file_path = "";
  kind = "";
  line_start = pos 0;
  line_end = pos 0;
  content_hash = "";
}

abbrev pub cluster_of : Dict String CloneMember → Component → NearCluster
cluster_of members c = record {
  size = length c.ids;
  min_score = c.min_score;
  max_score = c.max_score;
  members = sort_by member_less (map (λ id. member_at (lookup id members)) c.ids);
}

-- `Members[0].NodeID`.
abbrev pub first_id : List CloneMember → String
first_id [] = ""
first_id (m ∷ ms) = m.node_id

abbrev pub cluster_less : NearCluster → NearCluster → Bool
cluster_less a b =
    if a.size == b.size
    then if a.min_score == b.min_score
      then str_lt (first_id a.members) (first_id b.members)
      else ltb b.min_score a.min_score
    else ltb b.size a.size

abbrev pub build_clusters : Dict String Component → Dict String CloneMember → List NearCluster
build_clusters by_root members = sort_by cluster_less (map (λ p. cluster_of members p.1) by_root)

abbrev pub ends : SimilarEdge → String × String
ends e = (e.src.node_id, e.dst.node_id)

abbrev built : List SimilarEdge → Option Aggregate → Option (List NearCluster)
built es none = none
built es (some g) = some (build_clusters g.by_root (members_of es []))

unfoldable pub cluster_edges : List SimilarEdge → Option (List NearCluster)
cluster_edges es = elim (union_all (suc (length es)) (map ends es) []) [
  | none ↦ none
  | some u ↦ built es (aggregate_components (suc (length es)) u es)
]

-- `out_of_fuel` stands for a find that does not end.
pub data FinderError {ℓ} (E : Type ℓ) : Type ℓ where
  store : E → FinderError E
  out_of_fuel : FinderError E

abbrev finished {ℓ} :
    {E : Type ℓ} → Option (List NearCluster) → Result (FinderError E) (List NearCluster)
finished none = err out_of_fuel
finished (some clusters) = ok clusters

-- A score at most 0: a zero, or a pattern with the bit of the sign.
abbrev pub is_unset : ℕ → Bool
is_unset score = score == 0 || leb (2 ^ 31) score

-- The scope, the least score and the excluded kinds of a query.
abbrev pub SimilarEdges {ℓ} : Type ℓ → Type ℓ
SimilarEdges E = String → String → ℕ → List String → Result E (List SimilarEdge)

unfoldable pub near_duplicates {ℓ} :
    {E : Type ℓ}
    → SimilarEdges E
    → String
    → String
    → String
    → ℕ
    → Result (FinderError E) (List NearCluster)
near_duplicates similar_edges embedder_id repo_id branch min_score =
    let least = if is_unset min_score then near_threshold_for embedder_id else min_score in
    elim (similar_edges repo_id branch least excluded_kinds) [
      | err e ↦ err (store e)
      | ok edges ↦ finished (cluster_edges edges)
    ]
