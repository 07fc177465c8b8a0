-- ===== src/Domain/Node/Validity.antt =====
-- What every node built by NewNode satisfies.
use veska.Common.{
  ℕ, zero, suc, ◌≡◌, refl, ap, ◌≢◌, ◌≤◌, true, Option, none, some, List, [], ◌∷◌, String, ok, ◌>>=◌,
  contains, string_eq, eq_iff, pos, ◌≤ℤ◌, arith, >>=-inv,
}
use veska.Domain.Node.{
  Node, NodeSpec, NodeOption, with_lines, with_raw_content, with_content_hash, with_short_summary,
  LineRange, max_short_summary_runes, rune_count, rune_prefix, truncate_runes, heuristic_summary,
  check_pair, apply_option, apply_options, derive_hash, new_node, valid_node_kinds,
}

abbrev pub LinesValid : Option LineRange → Type 0
LinesValid none = Unit
LinesValid (some lr) = (pos 1 ≤ℤ lr.start) × (lr.start ≤ℤ lr.end)

abbrev pub SummaryValid : Option String → Type 0
SummaryValid none = Unit
SummaryValid (some s) = rune_count s ≤ max_short_summary_runes

module _ (hex_sha256 : String → String) where
  abbrev HashAgrees : Option String → Option String → Type 0
  HashAgrees (some raw) (some h) = h ≡ hex_sha256 raw
  HashAgrees _ _ = Unit

  -- What holds while the options are applied.
  record Inv (spec : NodeSpec) (n : Node) : Type 0 where
    same_id : n.id ≡ spec.id
    same_path : n.path ≡ spec.path
    same_name : n.name ≡ spec.name
    same_kind : n.kind ≡ spec.kind
    lines_ok : LinesValid n.lines
    summary_ok : SummaryValid n.short_summary
    hash_ok : HashAgrees n.raw_content n.content_hash

  check_pair-HashAgrees :
      (raw h : Option String) → check_pair hex_sha256 raw h ≡ ok tt → HashAgrees raw h
  unfolding check_pair
  check_pair-HashAgrees (some raw) (some h) e = ground (arith, eq_iff h (hex_sha256 raw))
  check_pair-HashAgrees (some raw) none e = tt
  check_pair-HashAgrees none h e = tt

  apply_option-Inv :
      (spec : NodeSpec) (o : NodeOption) (n : Node) {n' : Node}
      → Inv spec n
      → apply_option hex_sha256 o n ≡ ok n'
      → Inv spec n'
  unfolding apply_option
  apply_option-Inv spec (with_lines lr) n v e = ground arith
  apply_option-Inv spec (with_short_summary s) n v e = ground arith
  apply_option-Inv spec (with_raw_content raw) n v e =
      ground (arith, check_pair-HashAgrees (some raw) n.content_hash)
  apply_option-Inv spec (with_content_hash h) n v e =
      ground (arith, check_pair-HashAgrees n.raw_content (some h))
  apply_option-Inv spec o n v e = ground arith

  apply_options-Inv :
      (spec : NodeSpec) (os : List NodeOption) (n : Node) {n' : Node}
      → Inv spec n
      → apply_options hex_sha256 os n ≡ ok n'
      → Inv spec n'
  unfolding apply_options
  apply_options-Inv spec [] n v e = ground arith
  apply_options-Inv spec (o ∷ os) n v e =
      let (m, first, rest) = >>=-inv (apply_option hex_sha256 o n) _ e in
      apply_options-Inv spec os m (apply_option-Inv spec o n v first) rest

  -- The content hash is there whenever raw content is, and is its digest.
  abbrev pub HashDerived : Option String → Option String → Type 0
  HashDerived none h = Unit
  HashDerived (some raw) h = h ≡ some (hex_sha256 raw)

  -- The contract of a validated node.
  pub record IsValid (n : Node) : Type 0 where
    pub id_given : n.id ≢ ""
    pub path_given : n.path ≢ ""
    pub name_given : n.name ≢ ""
    pub kind_known : contains valid_node_kinds n.kind ≡ true
    pub lines_ok : LinesValid n.lines
    pub summary_ok : SummaryValid n.short_summary
    pub hash_ok : HashDerived n.raw_content n.content_hash

  derive_hash-HashDerived :
      (raw h : Option String) → HashAgrees raw h → HashDerived raw (derive_hash hex_sha256 raw h)
  unfolding derive_hash
  derive_hash-HashDerived none h a = tt
  derive_hash-HashDerived (some raw) none a = refl
  derive_hash-HashDerived (some raw) (some h) a = ap some a

  start_node : NodeSpec → Node
  start_node spec = record {
    id = spec.id;
    path = spec.path;
    name = spec.name;
    kind = spec.kind;
    signature = none;
    lines = none;
    raw_content = none;
    content_hash = none;
    structural_hash = none;
    language = none;
    exported = none;
    external = none;
    short_summary = none;
  }

  guards_hold :
      (spec : NodeSpec) (opts : List NodeOption) {n : Node}
      → new_node hex_sha256 spec opts ≡ ok n
      → (spec.id ≢ "")
        × (spec.path ≢ "")
        × (spec.name ≢ "")
        × (contains valid_node_kinds spec.kind ≡ true)
        × ((apply_options hex_sha256 opts (start_node spec) >>= λ m.
              ok (record m { content_hash = derive_hash hex_sha256 m.raw_content m.content_hash }))
            ≡ ok n)
  unfolding new_node start_node
  guards_hold spec opts e =
      ground (arith, eq_iff spec.id "", eq_iff spec.path "", eq_iff spec.name "")

  -- Every node that NewNode returns, for any options in any order, is valid: the required fields
  -- are non-empty, the kind is known, the line range starts at 1 or later and does not end before
  -- it starts, the summary has at most 280 runes, and a node with raw content carries the digest
  -- of just that content.
  pub new_node-IsValid :
      (spec : NodeSpec) (opts : List NodeOption) (n : Node)
      → new_node hex_sha256 spec opts ≡ ok n
      → IsValid n
  unfolding start_node
  new_node-IsValid spec opts n e =
      let (i, p, m, k, rest) = guards_hold spec opts e in
      let (built, run, last) = >>=-inv (apply_options hex_sha256 opts (start_node spec)) _ rest in
      let v = apply_options-Inv spec opts (start_node spec) (ground arith) run in
      ground (arith, derive_hash-HashDerived built.raw_content built.content_hash v.hash_ok)

rune_count-rune_prefix : (n : ℕ) (s : String) → rune_count (rune_prefix n s) ≤ n
unfolding rune_count rune_prefix
rune_count-rune_prefix zero s = omega arith
rune_count-rune_prefix (suc n) String.[] = omega arith
rune_count-rune_prefix (suc n) (String.◌∷◌ c s) = omega (arith, rune_count-rune_prefix n s)

rune_count-truncate_runes : (s : String) (n : ℕ) → rune_count (truncate_runes s n) ≤ n
unfolding truncate_runes
rune_count-truncate_runes s n = ground (arith, rune_count-rune_prefix n s)

rune_count-heuristic_summary :
    (trim_space : String → String) (n : Node)
    → rune_count (heuristic_summary trim_space n) ≤ max_short_summary_runes
unfolding heuristic_summary
rune_count-heuristic_summary trim_space n = rune_count-truncate_runes _ max_short_summary_runes

-- The fallback summary of any node, whatever trimming does, is short enough to be stored:
-- WithShortSummary accepts it, and sets it.
pub heuristic_summary_storable :
    (hex_sha256 trim_space : String → String) (n m : Node)
    → apply_option hex_sha256 (with_short_summary (heuristic_summary trim_space n)) m
      ≡ ok (record m { short_summary = some (heuristic_summary trim_space n) })
unfolding apply_option
heuristic_summary_storable hex_sha256 trim_space n m =
    ground (arith, rune_count-heuristic_summary trim_space n)
