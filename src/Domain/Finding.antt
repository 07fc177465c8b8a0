-- ===== src/Domain/Finding.antt =====
-- internal/core/domain/finding.go. Times are instants counted by a number; the identifier's digest
-- is a parameter of three texts (rule, anchor, key).
pub mod Lifecycle
use veska.Common.{
  ℕ, ◌≡◌, Bool, true, false, not, ◌&&◌, Option, none, some, List, [], ◌∷◌, String, Result, ok, err,
  reject_if, ◌>>=◌, ◌>>◌, contains, ◌==◌, string_eq, leb,
}
use veska.Common.Dict.{Dict, lookup}
use veska.Domain.Actor.{ActorKind, is_actor_kind, human}

abbrev pub valid_source_layers : List String
valid_source_layers = "structural" ∷ "semantic" ∷ "security" ∷ "quality" ∷ []

abbrev pub Severity : Type 0
Severity = String

abbrev pub high : Severity
high = "high"

abbrev pub severity_order : Dict Severity ℕ
severity_order = ("info", 0) ∷ ("low", 1) ∷ ("medium", 2) ∷ ("high", 3) ∷ ("critical", 4) ∷ []

abbrev both_at_least : Option ℕ → Option ℕ → Bool
both_at_least (some s) (some o) = leb o s
both_at_least _ _ = false

unfoldable pub at_least : Severity → Severity → Bool
unfolding lookup
at_least s other = both_at_least (lookup s severity_order) (lookup other severity_order)

abbrev is_some {ℓ} : {A : Type ℓ} → Option A → Bool
is_some none = false
is_some (some a) = true

unfoldable pub severity_valid : Severity → Bool
unfolding lookup
severity_valid s = is_some (lookup s severity_order)

abbrev pub layer_valid : String → Bool
layer_valid l = contains valid_source_layers l

abbrev pub open_state : String
open_state = "open"

abbrev pub closed_state : String
closed_state = "closed"

pub record Finding : Type 0 where
  pub finding_id : String
  pub repo_id : String
  pub branch : String
  pub rule : String
  pub message : String
  pub severity : Severity
  pub source_layer : String
  pub state : String
  pub node_id : Option String
  pub file_path : Option String
  pub closed_at : Option ℕ
  pub closed_reason : Option String
  pub actor_id : Option String
  pub actor_kind : Option ActorKind
  pub finding_key : String
  pub anchor_content_hash : Option String

pub data FindingOption : Type 0 where
  with_node_anchor : String → FindingOption
  with_file_anchor : String → FindingOption
  with_actor_kind : ActorKind → FindingOption
  with_anchor_content_hash : String → FindingOption
  with_finding_key : String → FindingOption
  with_actor_id : String → FindingOption

pub data FindingError : Type 0 where
  empty_node_anchor empty_file_anchor invalid_actor_kind empty_hash empty_actor_id : FindingError
  empty_rule invalid_severity invalid_source_layer anchor_required : FindingError
  already_closed empty_reason human_required : FindingError

unfoldable pub apply_option : FindingOption → Finding → Result FindingError Finding
apply_option (with_node_anchor id) f = do
  reject_if (id == "") empty_node_anchor
  ok (record f { node_id = some id })
apply_option (with_file_anchor path) f = do
  reject_if (path == "") empty_file_anchor
  ok (record f { file_path = some path })
apply_option (with_actor_kind kind) f = do
  reject_if (not (is_actor_kind kind)) invalid_actor_kind
  ok (record f { actor_kind = some kind })
apply_option (with_anchor_content_hash hash) f = do
  reject_if (hash == "") empty_hash
  ok (record f { anchor_content_hash = some hash })
apply_option (with_finding_key key) f = ok (record f { finding_key = key })
apply_option (with_actor_id id) f = do
  reject_if (id == "") empty_actor_id
  ok (record f { actor_id = some id })

unfoldable pub apply_options : List FindingOption → Finding → Result FindingError Finding
apply_options [] f = ok f
apply_options (o ∷ os) f = do f' ← apply_option o f; apply_options os f'

pub record FindingSpec : Type 0 where
  pub repo_id : String
  pub branch : String
  pub severity : Severity
  pub layer : String
  pub rule : String
  pub message : String

-- The node anchor where there is one, else the file anchor.
abbrev pub anchor_of : Option String → Option String → Option String
anchor_of (some id) path = some id
anchor_of none path = path

abbrev pub blank : FindingSpec → Finding
blank spec = record {
  finding_id = "";
  repo_id = spec.repo_id;
  branch = spec.branch;
  rule = spec.rule;
  message = spec.message;
  severity = spec.severity;
  source_layer = spec.layer;
  state = open_state;
  node_id = none;
  file_path = none;
  closed_at = none;
  closed_reason = none;
  actor_id = none;
  actor_kind = none;
  finding_key = "";
  anchor_content_hash = none;
}

abbrev pub identify :
    (String → String → String → String)
    → String
    → Finding
    → Option String
    → Result FindingError Finding
identify derive rule f none = err anchor_required
identify derive rule f (some anchor) =
    ok (record f { finding_id = derive rule anchor f.finding_key })

unfoldable pub new_finding :
    (derive_finding_id : String → String → String → String)
    → FindingSpec
    → List FindingOption
    → Result FindingError Finding
new_finding derive_finding_id spec opts = do
  reject_if (spec.rule == "") empty_rule
  reject_if (not (severity_valid spec.severity)) invalid_severity
  reject_if (not (layer_valid spec.layer)) invalid_source_layer
  f ← apply_options opts (blank spec)
  identify derive_finding_id spec.rule f (anchor_of f.node_id f.file_path)

unfoldable pub close : Finding → String → ActorKind → String → ℕ → Result FindingError Finding
close f reason kind id now = do
  reject_if (f.state == closed_state) already_closed
  reject_if (reason == "") empty_reason
  reject_if (id == "") empty_actor_id
  reject_if (not (is_actor_kind kind)) invalid_actor_kind
  reject_if (at_least f.severity high && not (kind == human)) human_required
  ok (record f {
    state = closed_state;
    closed_at = some now;
    closed_reason = some reason;
    actor_kind = some kind;
    actor_id = some id;
  })
