-- ===== src/Domain/Node.antt =====
-- internal/core/domain/node.go. A functional option is a constructor of `NodeOption`, and applying
-- it is `apply_option`. The digest `hex(sha256(s))` is a parameter.
pub mod Validity
use Prim.Native.String.{◌++◌ as concat}
use veska.Common.{
  ℕ, zero, suc, ◌≡◌, Bool, true, false, not, Option, none, some, List, [], ◌∷◌, String, Result, ok,
  err, reject_if, ◌>>=◌, ◌>>◌, contains, ◌==◌, string_eq, ltz, ltb, leb, ℤ, pos, if◌then◌else◌,
}

abbrev pub valid_node_kinds : List String
valid_node_kinds =
    "function" ∷ "method" ∷ "type" ∷ "struct" ∷ "interface" ∷ "class" ∷ "module" ∷ "package"
    ∷ "file" ∷ "field" ∷ "test" ∷ "variable" ∷ "command" ∷ "route" ∷ "chunk" ∷ []

pub record LineRange : Type 0 where
  pub start : ℤ
  pub end : ℤ

pub record Node : Type 0 where
  pub id : String
  pub path : String
  pub name : String
  pub kind : String
  pub signature : Option String
  pub lines : Option LineRange
  pub raw_content : Option String
  pub content_hash : Option String
  pub structural_hash : Option String
  pub language : Option String
  pub exported : Option Bool
  pub external : Option Bool
  pub short_summary : Option String

abbrev pub max_short_summary_runes : ℕ
max_short_summary_runes = 280

pub data NodeOption : Type 0 where
  with_signature : String → NodeOption
  with_lines : LineRange → NodeOption
  with_raw_content : String → NodeOption
  with_content_hash : String → NodeOption
  with_structural_hash : String → NodeOption
  with_language : String → NodeOption
  with_exported : Bool → NodeOption
  with_external : Bool → NodeOption
  with_short_summary : String → NodeOption

pub data NodeError : Type 0 where
  empty_id empty_path empty_name invalid_kind : NodeError
  start_below_one end_below_one start_after_end : LineRange → NodeError
  hash_mismatch : String → NodeError
  summary_too_long : ℕ → NodeError

-- `utf8.RuneCountInString`.
unfoldable pub rune_count : String → ℕ
rune_count String.[] = 0
rune_count (String.◌∷◌ c s) = suc (rune_count s)

-- `string([]rune(s)[:n])`.
unfoldable pub rune_prefix : ℕ → String → String
rune_prefix zero s = String.[]
rune_prefix (suc n) String.[] = String.[]
rune_prefix (suc n) (String.◌∷◌ c s) = String.◌∷◌ c (rune_prefix n s)

unfoldable pub truncate_runes : String → ℕ → String
truncate_runes s n = if leb (rune_count s) n then s else rune_prefix n s

-- `strings.TrimSpace` is a parameter.
unfoldable pub heuristic_summary : (String → String) → Node → String
heuristic_summary trim_space n =
    let s = signature_text n.signature in
    truncate_runes (if s == "" then trim_space (join n.kind n.name) else s) max_short_summary_runes
  where
    signature_text : Option String → String
    signature_text none = ""
    signature_text (some sig) = trim_space sig

    join : String → String → String
    join a b = concat a (concat " " b)

pub record NodeSpec : Type 0 where
  pub id : String
  pub path : String
  pub name : String
  pub kind : String

module _ (hex_sha256 : String → String) where
  unfoldable pub validate_hash_matches_content : String → String → Result NodeError (Unit {0})
  validate_hash_matches_content h content =
      reject_if (not (h == hex_sha256 content)) (hash_mismatch h)

  -- The check that WithRawContent and WithContentHash make when the other field is set.
  unfoldable pub check_pair : Option String → Option String → Result NodeError (Unit {0})
  unfolding validate_hash_matches_content
  check_pair (some raw) (some h) = validate_hash_matches_content h raw
  check_pair (some raw) none = ok tt
  check_pair none h = ok tt

  unfoldable pub apply_option : NodeOption → Node → Result NodeError Node
  unfolding check_pair
  apply_option (with_signature sig) n = ok (record n { signature = some sig })
  apply_option (with_lines lr) n = do
    reject_if (ltz lr.start (pos 1)) (start_below_one lr)
    reject_if (ltz lr.end (pos 1)) (end_below_one lr)
    reject_if (ltz lr.end lr.start) (start_after_end lr)
    ok (record n { lines = some lr })
  apply_option (with_raw_content raw) n = do
    check_pair (some raw) n.content_hash
    ok (record n { raw_content = some raw })
  apply_option (with_content_hash h) n = do
    check_pair n.raw_content (some h)
    ok (record n { content_hash = some h })
  apply_option (with_structural_hash h) n = ok (record n { structural_hash = some h })
  apply_option (with_language lang) n = ok (record n { language = some lang })
  apply_option (with_exported b) n = ok (record n { exported = some b })
  apply_option (with_external b) n = ok (record n { external = some b })
  apply_option (with_short_summary s) n = do
    reject_if (ltb max_short_summary_runes (rune_count s)) (summary_too_long (rune_count s))
    ok (record n { short_summary = some s })

  -- `for _, opt := range opts`.
  unfoldable pub apply_options : List NodeOption → Node → Result NodeError Node
  apply_options [] n = ok n
  apply_options (o ∷ os) n = do n' ← apply_option o n; apply_options os n'

  -- The digest is derived when raw content came without one.
  unfoldable pub derive_hash : Option String → Option String → Option String
  derive_hash (some raw) none = some (hex_sha256 raw)
  derive_hash raw h = h

  unfoldable pub new_node : NodeSpec → List NodeOption → Result NodeError Node
  unfolding derive_hash
  new_node spec opts = do
    reject_if (spec.id == "") empty_id
    reject_if (spec.path == "") empty_path
    reject_if (spec.name == "") empty_name
    reject_if (not (contains valid_node_kinds spec.kind)) invalid_kind
    n ← apply_options opts (record {
      id = spec.id;
      path = spec.path;
      name = spec.name;
      kind = spec.kind;
      signature = none;
      lines = none;
      raw_content = none;
      content_hash = none;
      structural_hash = none;
      language = none;
      exported = none;
      external = none;
      short_summary = none;
    })
    ok (record n { content_hash = derive_hash n.raw_content n.content_hash })
