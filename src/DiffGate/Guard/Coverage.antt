-- ===== src/DiffGate/Guard/Coverage.antt =====
-- Nothing that the candidate changes escapes the guard: from the staged files to the verdict.
use veska.Common.{
  Option, ℕ, zero, suc, ◌≡◌, refl, sym, ap, subst, ◌∙◌, ◌≢◌, inl, inr, true, false, ◌||◌, none,
  some, List, [], ◌∷◌, ◌++◌, String, Result, ok, err, ◌==◌, string_eq, eq_iff, if◌then◌else◌,
  contains, contains-append, contains-sort_by, str_lt, get_elem?, arith, Bool-cases,
}
use veska.Common.Dict.{Dict, lookup}
use veska.Domain.Node.{Node}
use veska.Domain.ParseResult.{NodePtr}
use veska.Staging.Area.{Entry, File, key_eq, snapshot, file_of}
use veska.Staging.Area.Laws.{lookup-snapshot, key_at, file_at}
use veska.DiffGate.Guard.{
  ScopeVerdict, Radius, Ephemeral, Hasher, confirmed, base_hash, collect_nodes, collect_files,
  changed_node_ids, new_nodes, is_none, check, admit_new_wired,
}
use veska.DiffGate.Guard.Verdict.{Allowed, admit_new_wired_lem, check_lem}

module _ {ℓ} {E : Type ℓ} (hasher : Hasher E) where
  collect_nodes_keeps :
      (ns : List NodePtr) (ids : List String) (x : String)
      → contains ids x ≡ true
      → contains (collect_nodes hasher ns ids) x ≡ true
  unfolding collect_nodes
  collect_nodes_keeps [] ids x h = h
  collect_nodes_keeps (none ∷ ns) ids x h = collect_nodes_keeps ns ids x h
  collect_nodes_keeps (some n ∷ ns) ids x h =
      collect_nodes_keeps ns _ x
        (elim (Bool-cases (contains ids n.id || confirmed n.content_hash (base_hash hasher n.id))) [
          | inl skip ↦ rw skip h
          | inr new ↦ rw (new, contains-append ids (n.id ∷ []) x, h) refl
        ])

  adds_self :
      (ids : List String) (m : Node)
      → confirmed m.content_hash (base_hash hasher m.id) ≡ false
      → contains
          (if contains ids m.id || confirmed m.content_hash (base_hash hasher m.id)
            then ids
            else ids ++ m.id ∷ [])
          m.id
        ≡ true
  unfolding contains
  adds_self ids m c = ground (arith, contains-append ids (m.id ∷ []) m.id, eq_iff m.id m.id)

  collect_nodes_has :
      (ns : List NodePtr) (ids : List String) (i : ℕ) (n : Node)
      → get_elem? ns i ≡ some (some n)
      → confirmed n.content_hash (base_hash hasher n.id) ≡ false
      → contains (collect_nodes hasher ns ids) n.id ≡ true
  unfolding collect_nodes
  collect_nodes_has [] ids i n g c = cc
  collect_nodes_has (none ∷ ns) ids zero n g c = cc
  collect_nodes_has (none ∷ ns) ids (suc i) n g c = collect_nodes_has ns ids i n g c
  collect_nodes_has (some m ∷ ns) ids (suc i) n g c = collect_nodes_has ns _ i n g c
  collect_nodes_has (some m ∷ ns) ids zero n g c =
      let same : m ≡ n = cc in
      subst
        (λ k.
          confirmed k.content_hash (base_hash hasher k.id) ≡ false
          → contains (collect_nodes hasher (some m ∷ ns) ids) k.id ≡ true)
        same (λ c'. collect_nodes_keeps ns _ m.id (adds_self ids m c')) c

  collect_files_keeps :
      (files : Dict String File) (ids : List String) (x : String)
      → contains ids x ≡ true
      → contains (collect_files hasher files ids) x ≡ true
  unfolding collect_files
  collect_files_keeps [] ids x h = h
  collect_files_keeps ((p, f) ∷ files) ids x h =
      collect_files_keeps files (collect_nodes hasher f.nodes ids) x
        (collect_nodes_keeps f.nodes ids x h)

  collect_files_has :
      (files : Dict String File) (ids : List String) (path : String) (f : File) (i : ℕ) (n : Node)
      → lookup path files ≡ some f
      → get_elem? f.nodes i ≡ some (some n)
      → confirmed n.content_hash (base_hash hasher n.id) ≡ false
      → contains (collect_files hasher files ids) n.id ≡ true
  unfolding collect_files lookup
  collect_files_has [] ids path f i n l g c = cc
  collect_files_has ((p, f') ∷ files) ids path f i n l g c = elim (Bool-cases (path == p)) [
    | inl here ↦
        let same : f' ≡ f = cc (rw here at l) in
        collect_files_keeps files (collect_nodes hasher f'.nodes ids) n.id
          (collect_nodes_has f'.nodes ids i n (ap (λ h. get_elem? h.nodes i) same ∙ g) c)
    | inr later ↦
        collect_files_has files (collect_nodes hasher f'.nodes ids) path f i n (rw later at l) g c
  ]

  -- Every staged node that the base does not confirm as unchanged is a changed node.
  changed_node_ids_has :
      (eph : Ephemeral) (path : String) (e : Entry) (i : ℕ) (n : Node)
      → lookup (key_at eph.repo_id eph.branch path) eph.overlay ≡ some e
      → get_elem? e.nodes i ≡ some (some n)
      → confirmed n.content_hash (base_hash hasher n.id) ≡ false
      → contains (changed_node_ids hasher eph) n.id ≡ true
  unfolding changed_node_ids
  changed_node_ids_has eph path e i n l g c =
      contains-sort_by str_lt n.id _
      ∙ collect_files_has (snapshot eph.repo_id eph.branch eph.overlay) [] path (file_of e) i n
          (lookup-snapshot eph.repo_id eph.branch path eph.overlay ∙ ap file_at l) g c

-- The base knows the hash of a node, it is not empty, and the candidate has the same.
abbrev pub Unchanged {ℓ} : {E : Type ℓ} → Hasher E → Node → Type ℓ
Unchanged {E = E} hasher n =
    (f : String → Result E String) × (h : String) × (hasher ≡ some f)
    × (n.content_hash ≡ some h)
    × (f n.id ≡ ok h)
    × (h ≢ "")

same_hash {ℓ} :
    {E : Type ℓ} (h : String) (r : Result E String)
    → confirmed (some h) (some r) ≡ true
    → (r ≡ ok h) × (h ≢ "")
same_hash h (err e) c = cc
same_hash h (ok base) c = ground (arith, eq_iff base h, eq_iff base "")

confirmed-Unchanged {ℓ} :
    {E : Type ℓ} (hasher : Hasher E) (content : Option String) (id : String)
    → confirmed content (base_hash hasher id) ≡ true
    → (f : String → Result E String) × (h : String) × (hasher ≡ some f)
      × (content ≡ some h)
      × (f id ≡ ok h)
      × (h ≢ "")
confirmed-Unchanged none none id c = cc
confirmed-Unchanged none (some h) id c = cc
confirmed-Unchanged (some f) none id c = cc
confirmed-Unchanged (some f) (some h) id c =
    let (known, filled) = same_hash h (f id) c in (f, h, refl, refl, known, filled)

pub nothing_listed : (xs : List String) (x : String) → is_none xs ≡ true → contains xs x ≡ true → ⊥
unfolding contains
nothing_listed [] x e h = cc
nothing_listed (y ∷ ys) x e h = cc

module _ {ℓ} {E : Type ℓ} (radius : String → Result E Radius)
    (lookup_nodes : List String → Result E (List String)) (hasher : Hasher E) where
  -- When the guard finds a change contained, every staged node that has an identifier is allowed,
  -- unless the base reports a content hash for it that is not empty and is the candidate's: it is
  -- the anchor, or in its radius, or new and joined to these by a chain of resolved edges between
  -- new nodes.
  pub contained_is_safe :
      (eph : Ephemeral) (anchor : String) (v : ScopeVerdict) (path : String) (e : Entry) (i : ℕ)
      (n : Node)
      → check radius lookup_nodes hasher eph anchor ≡ ok v
      → v.contained ≡ true
      → lookup (key_at eph.repo_id eph.branch path) eph.overlay ≡ some e
      → get_elem? e.nodes i ≡ some (some n)
      → ¬ Unchanged hasher n
      → n.id ≢ ""
      → (r : Radius) × (news : List String) × (radius anchor ≡ ok r)
        × (new_nodes lookup_nodes (changed_node_ids hasher eph) ≡ ok news)
        × Allowed eph news anchor r.node_ids n.id
  contained_is_safe eph anchor v path e i n run fine l g touched id =
      let c : confirmed n.content_hash (base_hash hasher n.id) ≡ false =
        elim (Bool-cases (confirmed n.content_hash (base_hash hasher n.id))) [
          | inl same ↦ absurd (touched (confirmed-Unchanged hasher n.content_hash n.id same))
          | inr other ↦ other
        ] in
      let (r, news, near, known, _, agrees, _, listed) =
        check_lem radius lookup_nodes hasher eph anchor n.id v run in
      let iff = admit_new_wired_lem eph news (anchor ∷ r.node_ids) n.id in
      let changed = changed_node_ids_has hasher eph path e i n l g c in
      (
        r,
        news,
        near,
        known,
        elim (Bool-cases (contains (admit_new_wired eph news (anchor ∷ r.node_ids)) n.id)) [
          | inl inside ↦ iff.0 inside
          | inr outside ↦ absurd (
              nothing_listed v.offending n.id (sym agrees ∙ fine)
                (listed.1 (changed, id, λ w. let bad : false ≡ true = sym outside ∙ iff.1 w in cc)))
        ],
      )
