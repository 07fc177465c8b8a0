-- ===== src/Duplicates.antt =====
-- internal/application/duplicates: the clones and the similarity clusters of a branch. The two
-- stores are parameters that may fail. A score stands as the bit pattern of its float32, and the
-- scores that the store keeps are positive, where the patterns have the order of the numbers.
pub mod UnionFind
pub mod Connected
pub mod Groups
pub mod Near
pub mod Clusters
pub mod Together
pub mod Tiers
use Prim.Native.String.{slice, len}
use Prim.Native.Char.{Char}
use veska.Common.{
  ℕ, zero, suc, ◌+◌, Bool, true, false, ◌||◌, Option, none, some, List, [], ◌∷◌, ◌++◌, map, String,
  ◌==◌, string_eq, nat_eq, if◌then◌else◌, ltb, leb, str_lt, sort_by, length, ℤ, ltz,
}
use veska.Common.Dict.{Dict, lookup, insert, is_present}

abbrev pub excluded_kinds : List String
excluded_kinds = "package" ∷ "chunk" ∷ "file" ∷ "module" ∷ "field" ∷ "import" ∷ []

pub record ClonedNode : Type 0 where
  pub content_hash : String
  pub structural_hash : String
  pub repo_id : String
  pub node_id : String
  pub symbol_path : String
  pub file_path : String
  pub kind : String
  pub line_start : ℤ
  pub line_end : ℤ

pub record CloneMember : Type 0 where
  pub node_id : String
  pub repo_id : String
  pub symbol_path : String
  pub file_path : String
  pub kind : String
  pub line_start : ℤ
  pub line_end : ℤ
  pub content_hash : String

pub record CloneGroup : Type 0 where
  pub content_hash : String
  pub size : ℕ
  pub members : List CloneMember

pub record CloneQuery : Type 0 where
  pub repo_id : String
  pub branch : String
  pub path_prefix : String

abbrev pub member_of : ClonedNode → CloneMember
member_of r = record {
  node_id = r.node_id;
  repo_id = r.repo_id;
  symbol_path = r.symbol_path;
  file_path = r.file_path;
  kind = r.kind;
  line_start = r.line_start;
  line_end = r.line_end;
  content_hash = r.content_hash;
}

-- The order of the members of a group.
abbrev pub member_less : CloneMember → CloneMember → Bool
member_less a b =
    if a.file_path == b.file_path
    then ltz a.line_start b.line_start
    else str_lt a.file_path b.file_path

abbrev pub group_less : CloneGroup → CloneGroup → Bool
group_less a b =
    if a.size == b.size then str_lt a.content_hash b.content_hash else ltb b.size a.size

-- `byHash` and `order`.
pub record Buckets : Type 0 where
  pub by_hash : Dict String (List CloneMember)
  pub order : List String

abbrev pub no_buckets : Buckets
no_buckets = record { by_hash = []; order = [] }

abbrev pub members_at : Option (List CloneMember) → List CloneMember
members_at none = []
members_at (some ms) = ms

abbrev pub put_row : String → CloneMember → Buckets → Buckets
put_row k member b = record {
  by_hash = insert k (members_at (lookup k b.by_hash) ++ member ∷ []) b.by_hash;
  order = if is_present (lookup k b.by_hash) then b.order else b.order ++ k ∷ [];
}

unfoldable pub bucket : (ClonedNode → String) → List ClonedNode → Buckets → Buckets
bucket key_of [] b = b
bucket key_of (r ∷ rows) b = bucket key_of rows (put_row (key_of r) (member_of r) b)

unfoldable pub groups_of : Dict String (List CloneMember) → List String → List CloneGroup
groups_of by_hash [] = []
groups_of by_hash (h ∷ order) =
    let members = members_at (lookup h by_hash) in
    let rest = groups_of by_hash order in
    if ltb (length members) 2
    then rest
    else (record { content_hash = h; size = length members; members = sort_by member_less members })
      ∷ rest

unfoldable pub group_by_hash : (ClonedNode → String) → List ClonedNode → List CloneGroup
unfolding bucket groups_of
group_by_hash key_of rows =
    let b = bucket key_of rows no_buckets in sort_by group_less (groups_of b.by_hash b.order)
