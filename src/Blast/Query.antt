-- ===== src/Blast/Query.antt =====
-- Of, DiffOf and DirtyOf of internal/application/blastradius/blastradius.go: the seeds, the walk
-- and the hydration of its nodes. The lookups are parameters that may fail.
use veska.Common.{
  ℕ, ◌≤◌, ◌≡◌, refl, ap, Bool, true, false, not, ◌&&◌, Option, none, some, List, [], ◌∷◌, ◌++◌, map,
  String, Result, ok, err, ◌>>=◌, ◌>>◌, >>=-inv, reject_if, ◌==◌, string_eq, if◌then◌else◌, length,
  contains, keep_if, IsDistinct, ℤ, arith,
}
use veska.Common.Dict.{Dict, lookup, insert, is_present}
use veska.Domain.ParseResult.{NodePtr}
use veska.Staging.Area.{Area, File, snapshot}
use veska.Blast.{applied, Options, Found, EdgeReader, walk, has_elements}
use veska.Blast.Bounds.{walk-InBounds, applied_bounds}

pub record NodeMeta : Type 0 where
  pub node_id : String
  pub symbol_path : String
  pub file_path : String
  pub kind : String
  pub line_start : ℤ
  pub line_end : ℤ
  pub snippet : String

-- The metadata of a node that the lookup does not know is the zero value.
pub record Entry : Type 0 where
  pub node_id : String
  pub distance : ℕ
  pub meta : Option NodeMeta
  pub is_hub : Bool
  pub pending : Bool

pub record Response : Type 0 where
  pub entries : List Entry
  pub truncated : Bool
  pub included_staging : Bool

pub data BlastError {ℓ} (E : Type ℓ) : Type ℓ where
  failed : E → BlastError E
  seed_not_found root_empty : BlastError E

abbrev pub lift {ℓ κ} : {E : Type ℓ} {A : Type κ} → Result E A → Result (BlastError E) A
lift (ok a) = ok a
lift (err e) = err (failed e)

lift-ok {ℓ κ} : {E : Type ℓ} {A : Type κ} (m : Result E A) {a : A} → lift m ≡ ok a → m ≡ ok a
lift-ok (ok a) h = cc
lift-ok (err e) h = cc

-- `byID[m.NodeID] = m` over the hydrated rows.
unfoldable pub by_id : List NodeMeta → Dict String NodeMeta → Dict String NodeMeta
by_id [] d = d
by_id (m ∷ ms) d = by_id ms (insert m.node_id m d)

abbrev pub distance_at : Option ℕ → ℕ
distance_at none = 0
distance_at (some d) = d

abbrev pub entry_for : Found → Dict String NodeMeta → String → Entry
entry_for w metas id = record {
  node_id = id;
  distance = distance_at (lookup id w.visited);
  meta = lookup id metas;
  is_hub = contains w.hubs id;
  pending = not (is_present (lookup id metas));
}

abbrev pub clean : List String → List String
clean = keep_if (λ id. not (id == ""))

abbrev pub is_nil : List NodeMeta → Bool
is_nil [] = true
is_nil (m ∷ ms) = false

-- The ids that are not among the seeds yet, put at their end.
unfoldable pub add_new : List String → List String → List String
add_new [] seeds = seeds
add_new (id ∷ ids) seeds = add_new ids (if contains seeds id then seeds else seeds ++ id ∷ [])

abbrev pub no_entries : Response
no_entries = record { entries = []; truncated = false; included_staging = false }

module _ {ℓ} {E : Type ℓ} (reader : EdgeReader E)
    (lookup_nodes : List String → Result E (List NodeMeta)) where
  -- Some seed must be known, if there is one.
  unfoldable pub check_seeds : List String → Result (BlastError E) (Unit {0})
  check_seeds [] = ok tt
  check_seeds (id ∷ ids) = do
    metas ← lift (lookup_nodes (id ∷ ids))
    reject_if (is_nil metas) seed_not_found

  check_seeds_unknown :
      (ids : List String)
      → lookup_nodes ids ≡ ok []
      → has_elements ids ≡ true
      → check_seeds ids ≡ err seed_not_found
  unfolding check_seeds
  check_seeds_unknown [] h e = cc
  check_seeds_unknown (id ∷ ids) h e = rw h

  unfoldable pub of_seeds : ℤ → List String → Options → Result (BlastError E) Response
  unfolding check_seeds
  of_seeds default_hub seeds opts = do
    check_seeds (clean seeds)
    w ← lift (walk reader (applied default_hub opts) seeds)
    hydrated ← lift (lookup_nodes w.order)
    ok (record {
      entries = map (entry_for w (by_id hydrated [])) w.order;
      truncated = w.truncated;
      included_staging = false;
    })

  -- The nodes of the changed files, each once, in the order of the files.
  unfoldable pub collect_seeds :
      (String → Result E (List String)) → List String → List String → Result E (List String)
  unfolding add_new
  collect_seeds nodes_in_file [] seeds = ok seeds
  collect_seeds nodes_in_file (f ∷ fs) seeds = do
    ids ← nodes_in_file f
    collect_seeds nodes_in_file fs (add_new ids seeds)

  -- DiffOf. `relative` maps an absolute path below the root to its path in the repository.
  unfoldable pub diff_of :
      (relative : String → String → String)
      → (changed_files : String → Result E (List String))
      → (nodes_in_file : String → Result E (List String)) → ℤ
      → String
      → Options
      → Result (BlastError E) Response
  unfolding of_seeds collect_seeds
  diff_of relative changed_files nodes_in_file default_hub repo_root opts = do
    reject_if (repo_root == "") root_empty
    files ← lift (changed_files repo_root)
    seeds ← lift (collect_seeds nodes_in_file (map (relative repo_root) files) [])
    if has_elements seeds then of_seeds default_hub seeds opts else ok no_entries

  -- A staged node is dirty unless its hash is that of the promoted node.
  abbrev pub same_hash : Option String → Option (Result E String) → Bool
  same_hash (some h) (some (ok promoted)) = not (promoted == "") && promoted == h
  same_hash _ _ = false

  unfoldable pub dirty_seeds : Option (String → Result E String) → List NodePtr → List String
  dirty_seeds hasher [] = []
  dirty_seeds hasher (none ∷ ns) = dirty_seeds hasher ns
  dirty_seeds hasher (some n ∷ ns) =
      let rest = dirty_seeds hasher ns in
      if same_hash n.content_hash (elim hasher [ none ↦ none | some f ↦ some (f n.id) ])
      then rest
      else n.id ∷ rest

  unfoldable pub snapshot_seeds : Option (String → Result E String) → Dict String File → List String
  unfolding dirty_seeds
  snapshot_seeds hasher [] = []
  snapshot_seeds hasher ((p, f) ∷ files) = dirty_seeds hasher f.nodes ++ snapshot_seeds hasher files

  unfoldable pub dirty_of :
      Option (String → Result E String)
      → ℤ
      → String
      → String
      → Option Area
      → Options
      → Result (BlastError E) Response
  unfolding of_seeds snapshot_seeds
  dirty_of hasher default_hub repo_id branch none opts = ok no_entries
  dirty_of hasher default_hub repo_id branch (some s) opts =
      let seeds = snapshot_seeds hasher (snapshot repo_id branch s) in
      of_seeds default_hub seeds opts >>= λ r.
      ok (record r { included_staging = has_elements seeds })

  ids-entry_for :
      (w : Found) (d : Dict String NodeMeta) (ids : List String)
      → map (λ e. e.node_id) (map (entry_for w d) ids) ≡ ids
  ids-entry_for w d [] = refl
  ids-entry_for w d (id ∷ ids) = ap (λ xs. id ∷ xs) (ids-entry_for w d ids)

  -- A query that answers lists each node once, and at most 10000 nodes, whatever bounds the caller
  -- gave; its entries are the nodes of the walk in the order of their discovery.
  pub of_seeds_entries :
      (default_hub : ℤ) (seeds : List String) (opts : Options) (r : Response)
      → of_seeds default_hub seeds opts ≡ ok r
      → (w : Found) × (walk reader (applied default_hub opts) seeds ≡ ok w)
        × (map (λ e. e.node_id) r.entries ≡ w.order)
        × IsDistinct w.order
        × (length w.order ≤ 10000)
        × (r.truncated ≡ w.truncated)
  unfolding of_seeds
  of_seeds_entries default_hub seeds opts r h =
      let (_, _, rest) = >>=-inv (check_seeds (clean seeds)) _ h in
      let (w, walked, rest') =
        >>=-inv (lift (walk reader (applied default_hub opts) seeds)) _ rest in
      let (hydrated, _, last) = >>=-inv (lift (lookup_nodes w.order)) _ rest' in
      let done = lift-ok (walk reader (applied default_hub opts) seeds) walked in
      let b = walk-InBounds reader (applied default_hub opts) seeds w done in
      let a = applied_bounds default_hub opts in
      let same : r.entries ≡ map (entry_for w (by_id hydrated [])) w.order = ground arith in
      (
        w,
        done,
        rw same (ids-entry_for w (by_id hydrated []) w.order),
        b.distinct,
        ground arith,
        ground arith,
      )

  -- When no seed is known to the node lookup, and there is a seed, the query is refused.
  pub of_seeds_unknown :
      (default_hub : ℤ) (seeds : List String) (opts : Options)
      → lookup_nodes (clean seeds) ≡ ok []
      → has_elements (clean seeds) ≡ true
      → of_seeds default_hub seeds opts ≡ err seed_not_found
  unfolding of_seeds
  of_seeds_unknown default_hub seeds opts h some_seed =
      rw (check_seeds_unknown (clean seeds) h some_seed) refl
