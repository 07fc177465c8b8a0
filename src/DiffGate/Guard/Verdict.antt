-- ===== src/DiffGate/Guard/Verdict.antt =====
-- What the guard's verdict says of the candidate.
use veska.Common.{
  ℕ, suc, ◌≡◌, refl, ap, ◌∙◌, subst, ◌≢◌, ◌↔◌, inl, inr, Bool, true, false, ◌&&◌, ◌||◌, none, some,
  List, [], ◌∷◌, ◌++◌, String, Result, ok, err, >>=-inv, reject_if, ◌==◌, string_eq, eq_iff, length,
  contains, contains-append, keep_if, contains-keep_if, arith, Bool-cases, sort_by, str_lt,
  contains-sort_by, sym, length-sort_by,
}
use veska.Common.Dict.{Dict, lookup, lookup-insert}
use veska.Domain.Edge.{Edge}
use veska.Domain.ParseResult.{EdgePtr}
use veska.Staging.Area.{File, snapshot}
use veska.DiffGate.Guard.{
  ScopeVerdict, Radius, Ephemeral, GuardError, map_err, Hasher, changed_node_ids, new_nodes,
  neighbours_in, append_at, joins, add_edges, add_files, Adjacency, overlay_adjacency,
  admit_new_wired, is_offending, is_none, verdict_of, check,
}
use veska.DiffGate.Guard.Fixpoint.{Wired, at_start, by_edge, admit_lem}

not_new : (z : String) → contains [] z ≡ true → ⊥
unfolding contains
not_new z h = cc

pub admit_new_wired_lem :
    (eph : Ephemeral) (news start : List String) (x : String)
    → (contains (admit_new_wired eph news start) x ≡ true)
      ↔ Wired (overlay_adjacency eph) news start x
unfolding admit_new_wired
admit_new_wired_lem eph [] start x = (λ h. at_start h, λ w. only_start w)
  where
    only_start : {y : String} → Wired (overlay_adjacency eph) [] start y → contains start y ≡ true
    only_start (at_start h) = h
    only_start (by_edge new edge w) = absurd (not_new _ new)
admit_new_wired_lem eph (n ∷ ns) start x =
    let (grown, run, iff) =
      admit_lem (overlay_adjacency eph) (n ∷ ns) start (suc (length (n ∷ ns))) (omega arith) in
    rw run (iff x)

-- Two ends of an edge of the candidate, in either order.
abbrev pub ends : String → String → Edge ℕ → Bool
ends a b e = (e.src == a && e.tgt == b) || (e.tgt == a && e.src == b)

abbrev pub any_joins : String → String → List EdgePtr → Bool
any_joins a b [] = false
any_joins a b (none ∷ es) = any_joins a b es
any_joins a b (some e ∷ es) = (joins e && ends a b e) || any_joins a b es

abbrev pub files_join : String → String → Dict String File → Bool
files_join a b [] = false
files_join a b ((p, f) ∷ files) = any_joins a b f.edges || files_join a b files

has : String → String → Adjacency → Bool
has a b adj = contains (neighbours_in (lookup a adj)) b

has-append_at :
    (a b src tgt : String) (adj : Adjacency)
    → has a b (append_at src tgt adj) ≡ (has a b adj || (src == a && tgt == b))
unfolding has append_at contains
has-append_at a b src tgt adj = ground (
  arith,
  lookup-insert src a (neighbours_in (lookup src adj) ++ tgt ∷ []) adj,
  contains-append (neighbours_in (lookup src adj)) (tgt ∷ []) b,
  eq_iff a src,
  eq_iff src a,
  eq_iff b tgt,
  eq_iff tgt b,
)

has-add_edges :
    (a b : String) (es : List EdgePtr) (adj : Adjacency)
    → has a b (add_edges es adj) ≡ (has a b adj || any_joins a b es)
unfolding add_edges
has-add_edges a b [] adj = ground arith
has-add_edges a b (none ∷ es) adj = has-add_edges a b es adj
has-add_edges a b (some e ∷ es) adj = elim (Bool-cases (joins e)) [
  | inl live ↦ rw live (
      ground (
        arith,
        has-add_edges a b es (append_at e.tgt e.src (append_at e.src e.tgt adj)),
        has-append_at a b e.tgt e.src (append_at e.src e.tgt adj),
        has-append_at a b e.src e.tgt adj,
      ))
  | inr dead ↦ rw dead (has-add_edges a b es adj)
]

has-add_files :
    (a b : String) (files : Dict String File) (adj : Adjacency)
    → has a b (add_files files adj) ≡ (has a b adj || files_join a b files)
unfolding add_files
has-add_files a b [] adj = ground arith
has-add_files a b ((p, f) ∷ files) adj =
    ground (arith, has-add_files a b files (add_edges f.edges adj), has-add_edges a b f.edges adj)

-- The neighbours that the guard looks at are the other ends of the resolved edges of the candidate.
pub contains-overlay_adjacency :
    (eph : Ephemeral) (a b : String)
    → contains (overlay_adjacency eph a) b
      ≡ files_join a b (snapshot eph.repo_id eph.branch eph.overlay)
unfolding has contains lookup
contains-overlay_adjacency eph a b =
    has-add_files a b (snapshot eph.repo_id eph.branch eph.overlay) []

-- What may be touched: the anchor, its radius, and the new nodes that resolved edges of the
-- candidate chain to these.
abbrev pub Allowed : Ephemeral → List String → String → List String → String → Type 0
Allowed eph news anchor near = Wired (overlay_adjacency eph) news (anchor ∷ near)

is_none-length : (xs : List String) → length xs ≡ 0 → xs ≡ []
is_none-length [] h = refl
is_none-length (x ∷ xs) h = absurd (omega arith)

is_none-sort_by : (xs : List String) → is_none (sort_by str_lt xs) ≡ is_none xs
is_none-sort_by [] = ap is_none (is_none-length (sort_by str_lt []) (length-sort_by str_lt []))
is_none-sort_by (x ∷ xs) = filled (sort_by str_lt (x ∷ xs)) (length-sort_by str_lt (x ∷ xs))
  where
    filled : (ys : List String) → length ys ≡ suc (length xs) → is_none ys ≡ false
    filled [] h = absurd (omega arith)
    filled (y ∷ ys) h = refl

pub map_err-ok {ℓ κ μ} :
    {E : Type ℓ} {F : Type κ} {A : Type μ} (f : E → F) (m : Result E A) {a : A}
    → map_err f m ≡ ok a
    → m ≡ ok a
map_err-ok f (ok a) h = cc
map_err-ok f (err e) h = cc

module _ {ℓ} {E : Type ℓ} (radius : String → Result E Radius)
    (lookup_nodes : List String → Result E (List String)) (hasher : Hasher E) where
  offends :
      (eph : Ephemeral) (news start changed : List String) (x : String)
      → (contains
            (sort_by str_lt (keep_if (is_offending (admit_new_wired eph news start)) changed))
            x
          ≡ true)
        ↔ ((contains changed x ≡ true) × (x ≢ "") × (¬ Wired (overlay_adjacency eph) news start x))
  offends eph news start changed x =
      let allowed = admit_new_wired eph news start in
      let iff = admit_new_wired_lem eph news start x in
      let sorted = contains-sort_by str_lt x (keep_if (is_offending allowed) changed) in
      let kept = contains-keep_if (is_offending allowed) changed x in
      elim (Bool-cases (contains allowed x)) [
        | inl inside ↦
            (λ h. ground (arith, sorted, kept), λ (c, n, out). absurd (out (iff.0 inside)))
        | inr outside ↦ (
          λ h. (
            ground (arith, sorted, kept),
            ground (arith, sorted, kept, eq_iff x ""),
            λ w. let bad : false ≡ true = sym outside ∙ iff.1 w in cc,
          ),
          λ (c, n, out). ground (arith, sorted, kept, eq_iff x ""),
        )
      ]

  abbrev OffendingAre : Ephemeral → List String → List String → ScopeVerdict → String → Type 0
  OffendingAre eph news start v x = (contains v.offending x ≡ true) ↔ (
      (contains (changed_node_ids hasher eph) x ≡ true)
      × (x ≢ "")
      × (¬ Wired (overlay_adjacency eph) news start x))

  verdict_facts :
      (eph : Ephemeral) (anchor x : String) (v : ScopeVerdict) (truncated : Bool)
      (news start : List String)
      → verdict_of radius lookup_nodes hasher anchor truncated
          (keep_if (is_offending (admit_new_wired eph news start)) (changed_node_ids hasher eph))
        ≡ v
      → (v.contained ≡ is_none v.offending)
        × (v.truncated ≡ truncated)
        × OffendingAre eph news start v x
  verdict_facts eph anchor x v truncated news start same =
      subst
        (λ w.
          (w.contained ≡ is_none w.offending)
          × (w.truncated ≡ truncated)
          × OffendingAre eph news start w x)
        same (sym (is_none-sort_by _), refl, offends eph news start (changed_node_ids hasher eph) x)

  -- When the guard gives a verdict, the anchor is not empty, the radius and the lookup answered, the
  -- change is contained exactly when no node is listed as offending, and a node is listed exactly
  -- when it is a changed node with an identifier that is not allowed.
  pub check_lem :
      (eph : Ephemeral) (anchor x : String) (v : ScopeVerdict)
      → check radius lookup_nodes hasher eph anchor ≡ ok v
      → (r : Radius) × (news : List String) × (radius anchor ≡ ok r)
        × (new_nodes lookup_nodes (changed_node_ids hasher eph) ≡ ok news)
        × (anchor ≢ "")
        × (v.contained ≡ is_none v.offending)
        × (v.truncated ≡ r.truncated)
        × ((contains v.offending x ≡ true) ↔ (
            (contains (changed_node_ids hasher eph) x ≡ true)
            × (x ≢ "")
            × (¬ Allowed eph news anchor r.node_ids x)))
  unfolding check
  check_lem eph anchor x v h =
      let changed = changed_node_ids hasher eph in
      let (_, given, h1) = >>=-inv (reject_if (anchor == "") GuardError.empty_anchor) _ h in
      let (r, near, h2) = >>=-inv (map_err GuardError.radius_failed (radius anchor)) _ h1 in
      let (news, known, h3) =
        >>=-inv (map_err GuardError.lookup_failed (new_nodes lookup_nodes changed)) _ h2 in
      let (c, t, o) = verdict_facts eph anchor x v r.truncated news (anchor ∷ r.node_ids) (cc) in
      (
        r,
        news,
        map_err-ok GuardError.radius_failed (radius anchor) near,
        map_err-ok GuardError.lookup_failed (new_nodes lookup_nodes changed) known,
        ground (arith, eq_iff anchor ""),
        c,
        t,
        o,
      )
