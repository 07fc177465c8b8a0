-- ===== src/DiffGate/Guard.antt =====
-- internal/application/diffgate/guard.go and changednodes.go: whether a candidate change stays in
-- the blast radius of its anchor. The radius service, the lookup of base nodes and the hashes of
-- the base are parameters that may fail; the candidate is a staging area.
pub mod Fixpoint
pub mod Verdict
pub mod Coverage
use veska.Common.{
  ℕ, zero, suc, Bool, true, false, not, ◌&&◌, ◌||◌, Option, none, some, List, [], ◌∷◌, ◌++◌, String,
  Result, ok, err, ◌>>=◌, ◌>>◌, reject_if, ◌==◌, string_eq, if◌then◌else◌, length, contains,
  keep_if, sort_by, str_lt,
}
use veska.Common.Dict.{Dict, lookup, insert}
use veska.Domain.ParseResult.{NodePtr, EdgePtr}
use veska.Domain.Edge.{Edge}
use veska.Staging.Area.{Area, File, snapshot}

pub record ScopeVerdict : Type 0 where
  pub contained : Bool
  pub anchor_node_id : String
  pub offending : List String
  pub truncated : Bool

-- The part of a radius response that the guard reads.
pub record Radius : Type 0 where
  pub node_ids : List String
  pub truncated : Bool

-- `Ephemeral`: the candidate as an overlay, beside the base.
pub record Ephemeral : Type 0 where
  pub repo_id : String
  pub branch : String
  pub overlay : Area

pub data GuardError {ℓ} (E : Type ℓ) : Type ℓ where
  empty_anchor : GuardError E
  radius_failed lookup_failed : E → GuardError E

abbrev pub map_err {ℓ κ μ} :
    {E : Type ℓ} {F : Type κ} {A : Type μ} → (E → F) → Result E A → Result F A
map_err f (ok a) = ok a
map_err f (err e) = err (f e)

abbrev pub Hasher {ℓ} : Type ℓ → Type ℓ
Hasher E = Option (String → Result E String)

-- The base reports a non-empty hash, and it is that of the candidate.
abbrev pub confirmed {ℓ} : {E : Type ℓ} → Option String → Option (Result E String) → Bool
confirmed (some h) (some (ok base)) = not (base == "") && base == h
confirmed _ _ = false

module _ {ℓ} {E : Type ℓ} (hasher : Hasher E) where
  abbrev pub base_hash : String → Option (Result E String)
  base_hash id = elim hasher [ none ↦ none | some f ↦ some (f id) ]

  -- The nodes of one file, onto those that are already collected.
  unfoldable pub collect_nodes : List NodePtr → List String → List String
  collect_nodes [] ids = ids
  collect_nodes (none ∷ ns) ids = collect_nodes ns ids
  collect_nodes (some n ∷ ns) ids = collect_nodes ns (
      if contains ids n.id || confirmed n.content_hash (base_hash n.id)
      then ids
      else ids ++ n.id ∷ [])

  unfoldable pub collect_files : Dict String File → List String → List String
  unfolding collect_nodes
  collect_files [] ids = ids
  collect_files ((p, f) ∷ files) ids = collect_files files (collect_nodes f.nodes ids)

  unfoldable pub changed_node_ids : Ephemeral → List String
  unfolding collect_files
  changed_node_ids eph =
      sort_by str_lt (collect_files (snapshot eph.repo_id eph.branch eph.overlay) [])

-- The changed nodes that the base does not know.
unfoldable pub new_nodes {ℓ} :
    {E : Type ℓ} → (List String → Result E (List String)) → List String → Result E (List String)
new_nodes lookup_nodes [] = ok []
new_nodes lookup_nodes (id ∷ ids) =
    lookup_nodes (id ∷ ids) >>= λ existing. ok (keep_if (λ x. not (contains existing x)) (id ∷ ids))

abbrev pub Adjacency : Type 0
Adjacency = Dict String (List String)

abbrev pub neighbours_in : Option (List String) → List String
neighbours_in none = []
neighbours_in (some xs) = xs

-- `adj[src] = append(adj[src], tgt)`.
unfoldable pub append_at : String → String → Adjacency → Adjacency
append_at src tgt adj = insert src (neighbours_in (lookup src adj) ++ tgt ∷ []) adj

abbrev pub joins : Edge ℕ → Bool
joins e = e.resolved && (not (e.src == "") && not (e.tgt == ""))

unfoldable pub add_edges : List EdgePtr → Adjacency → Adjacency
add_edges [] adj = adj
add_edges (none ∷ es) adj = add_edges es adj
add_edges (some e ∷ es) adj =
    add_edges es (if joins e then append_at e.tgt e.src (append_at e.src e.tgt adj) else adj)

unfoldable pub add_files : Dict String File → Adjacency → Adjacency
add_files [] adj = adj
add_files ((p, f) ∷ files) adj = add_files files (add_edges f.edges adj)

-- Whether some neighbour is allowed.
unfoldable pub meets : List String → List String → Bool
meets allowed [] = false
meets allowed (n ∷ ns) = contains allowed n || meets allowed ns

module _ (adj : String → List String) where
  abbrev pub is_fresh : List String → String → Bool
  is_fresh allowed n = not (contains allowed n) && meets allowed (adj n)

  -- One pass over the new nodes: the allowed set, and whether it grew.
  unfoldable pub admit_round : List String → List String → List String × Bool
  admit_round [] allowed = (allowed, false)
  admit_round (n ∷ ns) allowed =
      let fresh = is_fresh allowed n in
      let (allowed', grew) = admit_round ns (if fresh then n ∷ allowed else allowed) in
      (allowed', fresh || grew)

  -- The loop until a pass adds nothing; `none` is out of fuel.
  unfoldable pub admit : ℕ → List String → List String → Option (List String)
  admit zero news allowed = none
  admit (suc fuel) news allowed =
      let (allowed', grew) = admit_round news allowed in
      let rest = admit fuel news allowed' in if grew then rest else some allowed'

abbrev pub or_same : List String → Option (List String) → List String
or_same allowed none = allowed
or_same allowed (some grown) = grown

abbrev pub overlay_adjacency : Ephemeral → String → List String
overlay_adjacency eph n =
    neighbours_in (lookup n (add_files (snapshot eph.repo_id eph.branch eph.overlay) []))

-- Each pass but the last admits a new node, so one more pass than there are new nodes is enough.
unfoldable pub admit_new_wired : Ephemeral → List String → List String → List String
unfolding admit
admit_new_wired eph [] allowed = allowed
admit_new_wired eph (n ∷ ns) allowed =
    or_same allowed (admit (overlay_adjacency eph) (suc (length (n ∷ ns))) (n ∷ ns) allowed)

abbrev pub is_offending : List String → String → Bool
is_offending allowed id = not (id == "") && not (contains allowed id)

abbrev pub is_none : List String → Bool
is_none [] = true
is_none (x ∷ xs) = false

module _ {ℓ} {E : Type ℓ} (radius : String → Result E Radius)
    (lookup_nodes : List String → Result E (List String)) (hasher : Hasher E) where
  abbrev pub verdict_of : String → Bool → List String → ScopeVerdict
  verdict_of anchor truncated offending = record {
    contained = is_none offending;
    anchor_node_id = anchor;
    offending = sort_by str_lt offending;
    truncated = truncated;
  }

  -- Guard.Check.
  unfoldable pub check : Ephemeral → String → Result (GuardError E) ScopeVerdict
  check eph anchor = do
    reject_if (anchor == "") empty_anchor
    r ← map_err radius_failed (radius anchor)
    let changed = changed_node_ids hasher eph
    news ← map_err lookup_failed (new_nodes lookup_nodes changed)
    let allowed = admit_new_wired eph news (anchor ∷ r.node_ids)
    ok (verdict_of anchor r.truncated (keep_if (is_offending allowed) changed))
