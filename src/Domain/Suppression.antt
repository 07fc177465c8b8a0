-- ===== src/Domain/Suppression.antt =====
-- internal/core/domain/suppression.go.
use veska.Common.{
  ℕ, ◌<◌, ◌≡◌, ◌≢◌, true, not, Option, none, some, List, [], ◌∷◌, String, Result, ok, reject_if,
  ◌>>=◌, ◌>>◌, >>=-inv, contains, ◌==◌, string_eq, eq_iff, ltb, arith,
}
use veska.Domain.Actor.{ActorKind, is_actor_kind}

abbrev pub valid_suppression_scopes : List String
valid_suppression_scopes = "finding" ∷ "symbol" ∷ "file" ∷ "repo" ∷ []

pub record Suppression : Type 0 where
  pub id : String
  pub scope : String
  pub target : String
  pub reason : String
  pub actor_id : String
  pub actor_kind : ActorKind
  pub created_at : ℕ
  pub rule : Option String
  pub expires_at : Option ℕ
  pub branch : Option String

pub data SuppressionOption : Type 0 where
  with_suppression_rule with_branch : String → SuppressionOption
  with_expires_at : ℕ → SuppressionOption

pub record SuppressionSpec : Type 0 where
  pub id : String
  pub scope : String
  pub target : String
  pub reason : String
  pub actor_id : String
  pub actor_kind : ActorKind
  pub created_at : ℕ

pub data SuppressionError : Type 0 where
  empty_id empty_target empty_reason empty_actor_id invalid_scope invalid_actor_kind :
      SuppressionError
  expires_too_early : SuppressionError

-- `!t.After(s.CreatedAt)`.
unfoldable pub apply_option : SuppressionOption → Suppression → Result SuppressionError Suppression
apply_option (with_suppression_rule rule) s = ok (record s { rule = some rule })
apply_option (with_expires_at t) s = do
  reject_if (not (ltb s.created_at t)) expires_too_early
  ok (record s { expires_at = some t })
apply_option (with_branch branch) s = ok (record s { branch = some branch })

unfoldable pub apply_options :
    List SuppressionOption → Suppression → Result SuppressionError Suppression
apply_options [] s = ok s
apply_options (o ∷ os) s = do s' ← apply_option o s; apply_options os s'

abbrev pub unrestricted : SuppressionSpec → Suppression
unrestricted spec = record {
  id = spec.id;
  scope = spec.scope;
  target = spec.target;
  reason = spec.reason;
  actor_id = spec.actor_id;
  actor_kind = spec.actor_kind;
  created_at = spec.created_at;
  rule = none;
  expires_at = none;
  branch = none;
}

unfoldable pub new_suppression :
    SuppressionSpec → List SuppressionOption → Result SuppressionError Suppression
new_suppression spec opts = do
  reject_if (spec.id == "") empty_id
  reject_if (spec.target == "") empty_target
  reject_if (spec.reason == "") empty_reason
  reject_if (spec.actor_id == "") empty_actor_id
  reject_if (not (contains valid_suppression_scopes spec.scope)) invalid_scope
  reject_if (not (is_actor_kind spec.actor_kind)) invalid_actor_kind
  apply_options opts (unrestricted spec)

abbrev pub After : ℕ → Option ℕ → Type 0
After t none = Unit
After t (some e) = t < e

-- The contract of a suppression.
pub record IsValid (s : Suppression) : Type 0 where
  pub id_given : s.id ≢ ""
  pub target_given : s.target ≢ ""
  pub reason_given : s.reason ≢ ""
  pub actor_given : s.actor_id ≢ ""
  pub scope_known : contains valid_suppression_scopes s.scope ≡ true
  pub actor_known : is_actor_kind s.actor_kind ≡ true
  pub expires_later : After s.created_at s.expires_at

apply_option-IsValid :
    (o : SuppressionOption) (s : Suppression) {s' : Suppression}
    → IsValid s
    → apply_option o s ≡ ok s'
    → IsValid s'
unfolding apply_option
apply_option-IsValid (with_expires_at t) s v h = ground arith
apply_option-IsValid o s v h = ground arith

apply_options-IsValid :
    (os : List SuppressionOption) (s : Suppression) {s' : Suppression}
    → IsValid s
    → apply_options os s ≡ ok s'
    → IsValid s'
unfolding apply_options
apply_options-IsValid [] s v h = ground arith
apply_options-IsValid (o ∷ os) s v h =
    let (m, first, rest) = >>=-inv (apply_option o s) _ h in
    apply_options-IsValid os m (apply_option-IsValid o s v first) rest

-- Every suppression that NewSuppression returns has its required fields, a known scope and actor
-- kind, and expires after it was created, if it expires, whatever the options are.
pub new_suppression-IsValid :
    (spec : SuppressionSpec) (opts : List SuppressionOption) (s : Suppression)
    → new_suppression spec opts ≡ ok s
    → IsValid s
unfolding new_suppression
new_suppression-IsValid spec opts s h = ground (
  arith,
  eq_iff spec.id "",
  eq_iff spec.target "",
  eq_iff spec.reason "",
  eq_iff spec.actor_id "",
  apply_options-IsValid opts (unrestricted spec) {s' = s},
)
