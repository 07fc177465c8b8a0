-- ===== src/DiffGate/Clones.antt =====
-- internal/application/diffgate/clonegate.go: whether a candidate change makes a group of nodes of
-- equal content that the base did not have. The lookup of the base by a content hash is a parameter
-- that may fail; a base without it stands as `none`.
pub mod Complete
use veska.Common.{
  ℕ, suc, ◌+◌, ◌≤◌, ◌<◌, ◌≡◌, refl, sym, ap, ◌∙◌, subst, inl, inr, Bool, true, false, not, ◌&&◌,
  ◌||◌, Option, none, some, List, [], ◌∷◌, ◌++◌, map, String, Result, ok, err, ◌>>=◌, >>=-inv, ◌==◌,
  string_eq, eq_iff, if◌then◌else◌, ltb, leb, str_lt, sort_by, length, length-sort_by, contains,
  All, All-sort_by, Bool-cases, Option-cases, arith,
}
use veska.Common.Dict.{Dict, lookup, insert, lookup-insert}
use veska.Domain.ParseResult.{NodePtr}
use veska.Domain.Node.{Node}
use veska.Staging.Area.{Area, File, snapshot}
use veska.Coverage.{NodeRef}
use veska.Duplicates.{excluded_kinds}
use veska.DiffGate.Guard.{Ephemeral}

pub record CloneMember : Type 0 where
  pub node_id : String
  pub file_path : String
  pub symbol_path : String

pub record CloneGroup : Type 0 where
  pub content_hash : String
  pub members : List CloneMember

pub record CloneVerdict : Type 0 where
  pub pass : Bool
  pub checked : Bool
  pub new_clones : List CloneGroup

abbrev pub failures : CloneVerdict → List String
failures v = if v.pass then [] else if v.checked then "new_clone" ∷ [] else "clones_unchecked" ∷ []

abbrev pub exit_code : CloneVerdict → ℕ
exit_code v = if v.pass then 0 else 1

abbrev pub hashed : String → Option String → Option String
hashed kind none = none
hashed kind (some h) =
    if contains excluded_kinds kind then none else if h == "" then none else some h

-- The hash under which a node takes part.
abbrev pub eligible_hash : NodePtr → Option String
eligible_hash none = none
eligible_hash (some n) = hashed n.kind n.content_hash

abbrev pub overlay_member : Node → CloneMember
overlay_member n = record { node_id = n.id; file_path = n.path; symbol_path = n.name }

abbrev pub base_member : NodeRef → CloneMember
base_member b = record { node_id = b.node_id; file_path = b.file_path; symbol_path = b.name }

abbrev pub ByHash : Type 0
ByHash = Dict String (List CloneMember)

abbrev pub list_at : Option (List CloneMember) → List CloneMember
list_at none = []
list_at (some ms) = ms

-- `overlayByHash[h] = append(overlayByHash[h], member)`.
abbrev pub put_at : Option String → CloneMember → ByHash → ByHash
put_at none member m = m
put_at (some h) member m = insert h (list_at (lookup h m) ++ member ∷ []) m

abbrev pub put_node : NodePtr → ByHash → ByHash
put_node none m = m
put_node (some n) m = put_at (eligible_hash (some n)) (overlay_member n) m

unfoldable pub put_nodes : List NodePtr → ByHash → ByHash
put_nodes [] m = m
put_nodes (n ∷ ns) m = put_nodes ns (put_node n m)

unfoldable pub put_files : Dict String File → ByHash → ByHash
unfolding put_nodes
put_files [] m = m
put_files ((p, f) ∷ files) m = put_files files (put_nodes f.nodes m)

unfoldable pub add_overlay : List CloneMember → Dict String CloneMember → Dict String CloneMember
add_overlay [] d = d
add_overlay (m ∷ ms) d = add_overlay ms (insert m.node_id m d)

unfoldable pub add_base :
    List String → List NodeRef → Dict String CloneMember → Dict String CloneMember
add_base touched [] d = d
add_base touched (b ∷ bs) d =
    add_base touched bs
      (if contains touched b.file_path then d else insert b.node_id (base_member b) d)

-- The members after the change: those of the overlay, and the base nodes of untouched files.
abbrev pub after_members : List String → List CloneMember → List NodeRef → Dict String CloneMember
after_members touched overlay base = add_base touched base (add_overlay overlay [])

abbrev pub member_less : CloneMember → CloneMember → Bool
member_less a b =
    if a.file_path == b.file_path
    then str_lt a.node_id b.node_id
    else str_lt a.file_path b.file_path

abbrev pub sorted_members : Dict String CloneMember → List CloneMember
sorted_members d = sort_by member_less (map (λ p. p.1) d)

abbrev pub is_new : List String → List CloneMember → List NodeRef → Bool
is_new touched overlay base =
    leb 2 (length (after_members touched overlay base)) && ltb (length base) 2

-- The base lookup by hash, without the excluded kinds.
abbrev pub HashLookup {ℓ} : Type ℓ → Type ℓ
HashLookup E = String → List String → Result E (List NodeRef)

module _ {ℓ} {E : Type ℓ} (by_hash : HashLookup E) (touched : List String) where
  unfoldable pub new_groups : ByHash → Result E (List CloneGroup)
  unfolding add_overlay add_base
  new_groups [] = ok []
  new_groups ((h, ms) ∷ m) =
      let rest = new_groups m in
      by_hash h excluded_kinds >>= λ base. rest >>= λ groups. ok (
        if is_new touched ms base
        then (record { content_hash = h; members = sorted_members (after_members touched ms base) })
          ∷ groups
        else groups)

abbrev pub is_nil : List CloneGroup → Bool
is_nil [] = true
is_nil (g ∷ gs) = false

abbrev pub verdict_of : List CloneGroup → CloneVerdict
verdict_of groups =
    let sorted = sort_by (λ a b. str_lt a.content_hash b.content_hash) groups in
    record { pass = is_nil sorted; checked = true; new_clones = sorted }

unfoldable pub evaluate {ℓ} :
    {E : Type ℓ} → Option (HashLookup E) → List String → Ephemeral → Result E CloneVerdict
unfolding new_groups put_files
evaluate none changed_files eph = ok (record { pass = false; checked = false; new_clones = [] })
evaluate (some by_hash) changed_files eph =
    new_groups by_hash changed_files (put_files (snapshot eph.repo_id eph.branch eph.overlay) [])
    >>= λ groups. ok (verdict_of groups)
