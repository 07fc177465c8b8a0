-- ===== src/Staging/Area.antt =====
-- internal/application/staging/area.go. Each method holds the area's lock for its whole effect, so
-- it is one function on the map of entries.
pub mod Laws
use veska.Common.{
  ℕ, nat_eq, ◌≡◌, refl, ◌↔◌, ap, Bool, true, false, ◌&&◌, Option, none, some, List, [], ◌∷◌, String,
  Eq, ◌==◌, string_eq, eq_iff, if◌then◌else◌, arith,
}
use veska.Common.Dict.{Dict, lookup, insert, delete, delete_if}
use veska.Domain.ParseResult.{NodePtr, EdgePtr, UnresolvedCall}

pub record Key : Type 0 where
  pub repo_id : String
  pub branch : String
  pub file_path : String

abbrev pub key_beq : Key → Key → Bool
key_beq a b = a.repo_id == b.repo_id && (a.branch == b.branch && a.file_path == b.file_path)

pub key_beq_iff : (a b : Key) → (key_beq a b ≡ true) ↔ (a ≡ b)
key_beq_iff a b =
    ground
      (arith, eq_iff a.repo_id b.repo_id, eq_iff a.branch b.branch, eq_iff a.file_path b.file_path)

instance abbrev pub key_eq : Eq Key
key_eq = record { same = key_beq; same_iff = key_beq_iff }

pub record Entry : Type 0 where
  pub nodes : List NodePtr
  pub edges : List EdgePtr
  pub unresolved : List UnresolvedCall
  pub imports : Dict String String

pub record File : Type 0 where
  pub nodes : List NodePtr
  pub edges : List EdgePtr
  pub unresolved_calls : List UnresolvedCall
  pub imports : Dict String String

abbrev pub Area : Type 0
Area = Dict Key Entry

abbrev pub new_area : Area
new_area = []

abbrev pub entry_of : File → Entry
entry_of f = record {
  nodes = f.nodes;
  edges = f.edges;
  unresolved = f.unresolved_calls;
  imports = f.imports;
}

-- The slices are copied, which gives equal lists.
abbrev pub file_of : Entry → File
file_of e = record {
  nodes = e.nodes;
  edges = e.edges;
  unresolved_calls = e.unresolved;
  imports = e.imports;
}

-- The part of Stage under the lock.
unfoldable pub write : Key → File → Area → Area
write k f s = insert k (entry_of f) s

-- Stage. With WithGenerationGuard it is given the caller's generation and the gate's, and stages
-- nothing when they differ.
unfoldable pub stage : Option (ℕ × ℕ) → Key → File → Area → Area × Bool
unfolding write
stage none k f s = (write k f s, true)
stage (some (gen, current)) k f s = if gen == current then (write k f s, true) else (s, false)

abbrev nodes_of : Option Entry → Option (List NodePtr)
nodes_of none = none
nodes_of (some e) = some e.nodes

abbrev edges_of : Option Entry → Option (List EdgePtr)
edges_of none = none
edges_of (some e) = some e.edges

unfoldable pub get_staged_nodes : Key → Area → Option (List NodePtr)
get_staged_nodes k s = nodes_of (lookup k s)

unfoldable pub get_staged_edges : Key → Area → Option (List EdgePtr)
get_staged_edges k s = edges_of (lookup k s)

unfoldable pub delete_staged_file : Key → Area → Area
delete_staged_file k s = delete k s

abbrev pub in_scope : String → String → Key → Bool
in_scope repo_id branch k = k.repo_id == repo_id && k.branch == branch

unfoldable pub staged_files : String → String → Area → List String
staged_files repo_id branch [] = []
staged_files repo_id branch ((k, e) ∷ s) =
    let rest = staged_files repo_id branch s in
    if in_scope repo_id branch k then k.file_path ∷ rest else rest

unfoldable pub clear : String → String → Area → Area
clear repo_id branch s = delete_if (in_scope repo_id branch) s

unfoldable pub snapshot : String → String → Area → Dict String File
snapshot repo_id branch [] = []
snapshot repo_id branch ((k, e) ∷ s) =
    let rest = snapshot repo_id branch s in
    if in_scope repo_id branch k then insert k.file_path (file_of e) rest else rest
