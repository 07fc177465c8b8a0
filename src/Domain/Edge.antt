-- ===== src/Domain/Edge.antt =====
-- internal/core/domain/edge.go. `Confidence` is an int, so it may be out of its enum's range.
use veska.Common.{
  zero, ◌≡◌, ◌≢◌, Bool, true, false, not, ◌||◌, Option, none, some, List, [], ◌∷◌, String, Result,
  ok, reject_if, ◌>>=◌, ◌>>◌, contains, ◌==◌, string_eq, eq_iff, ltz, ℤ, pos, ◌≤ℤ◌, arith, >>=-inv,
}

abbrev pub valid_edge_kinds : List String
valid_edge_kinds =
    "CALLS" ∷ "IMPORTS" ∷ "CONTAINS" ∷ "TESTS" ∷ "DEPENDS_ON" ∷ "SIMILAR_TO" ∷ "ROUTES" ∷ []

abbrev pub unresolved : ℤ
unresolved = pos 0

abbrev pub definite : ℤ
definite = pos 3

-- A score is a float, kept abstract.
pub record Edge {ℓ} (Score : Type ℓ) : Type ℓ where
  pub id : String
  pub src : String
  pub tgt : String
  pub kind : String
  pub confidence : ℤ
  pub resolved : Bool
  pub source_line : Option ℤ
  pub score : Option Score

pub data EdgeOption {ℓ} (Score : Type ℓ) : Type ℓ where
  with_confidence : ℤ → EdgeOption Score
  with_source_line : ℤ → EdgeOption Score
  with_score : Score → EdgeOption Score

pub data EdgeError : Type 0 where
  empty_src empty_tgt invalid_kind invalid_confidence : EdgeError

pub record EdgeSpec : Type 0 where
  pub src : String
  pub tgt : String
  pub kind : String

-- `c != Unresolved`.
abbrev pub is_resolved : ℤ → Bool
is_resolved (pos zero) = false
is_resolved _ = true

module _ {ℓ} {Score : Type ℓ} where
  unfoldable pub apply_option : EdgeOption Score → Edge Score → Result EdgeError (Edge Score)
  apply_option (with_confidence c) e = do
    reject_if (ltz c unresolved || ltz definite c) invalid_confidence
    ok (record e { confidence = c; resolved = is_resolved c })
  apply_option (with_source_line line) e = ok (record e { source_line = some line })
  apply_option (with_score s) e = ok (record e { score = some s })

  unfoldable pub apply_options :
      List (EdgeOption Score) → Edge Score → Result EdgeError (Edge Score)
  apply_options [] e = ok e
  apply_options (o ∷ os) e = do e' ← apply_option o e; apply_options os e'

  abbrev pub new_blank : (String → String → String → String) → EdgeSpec → Edge Score
  new_blank edge_id spec = record {
    id = edge_id spec.src spec.kind spec.tgt;
    src = spec.src;
    tgt = spec.tgt;
    kind = spec.kind;
    confidence = unresolved;
    resolved = false;
    source_line = none;
    score = none;
  }

  -- `edge_id` stands for the digest of source, kind and target.
  unfoldable pub new_edge :
      (edge_id : String → String → String → String)
      → EdgeSpec
      → List (EdgeOption Score)
      → Result EdgeError (Edge Score)
  new_edge edge_id spec opts = do
    reject_if (spec.src == "") empty_src
    reject_if (spec.tgt == "") empty_tgt
    reject_if (not (contains valid_edge_kinds spec.kind)) invalid_kind
    apply_options opts (new_blank edge_id spec)

  -- What the identity of an edge is, and how its confidence and its resolved flag agree.
  pub record IsValid (edge_id : String → String → String → String) (e : Edge Score) : Type ℓ where
    pub src_given : e.src ≢ ""
    pub tgt_given : e.tgt ≢ ""
    pub kind_known : contains valid_edge_kinds e.kind ≡ true
    pub id_derived : e.id ≡ edge_id e.src e.kind e.tgt
    pub confidence_low : unresolved ≤ℤ e.confidence
    pub confidence_high : e.confidence ≤ℤ definite
    pub resolved_agrees : e.resolved ≡ is_resolved e.confidence

  apply_option-IsValid :
      (edge_id : String → String → String → String) (o : EdgeOption Score) (e : Edge Score)
      {e' : Edge Score}
      → IsValid edge_id e
      → apply_option o e ≡ ok e'
      → IsValid edge_id e'
  unfolding apply_option
  apply_option-IsValid edge_id (with_confidence c) e v h = ground arith
  apply_option-IsValid edge_id o e v h = ground arith

  apply_options-IsValid :
      (edge_id : String → String → String → String) (os : List (EdgeOption Score)) (e : Edge Score)
      {e' : Edge Score}
      → IsValid edge_id e
      → apply_options os e ≡ ok e'
      → IsValid edge_id e'
  unfolding apply_options
  apply_options-IsValid edge_id [] e v h = ground arith
  apply_options-IsValid edge_id (o ∷ os) e v h =
      let (m, first, rest) = >>=-inv (apply_option o e) _ h in
      apply_options-IsValid edge_id os m (apply_option-IsValid edge_id o e v first) rest

  -- Every edge that NewEdge returns has non-empty ends, a known kind, the identifier derived from
  -- its ends and kind, a confidence in the enum, and is resolved exactly when its confidence is
  -- not Unresolved, whatever options were given.
  pub new_edge-IsValid :
      (edge_id : String → String → String → String) (spec : EdgeSpec)
      (opts : List (EdgeOption Score)) (e : Edge Score)
      → new_edge edge_id spec opts ≡ ok e
      → IsValid edge_id e
  unfolding new_edge
  new_edge-IsValid edge_id spec opts e h = ground (
    arith,
    eq_iff spec.src "",
    eq_iff spec.tgt "",
    apply_options-IsValid edge_id opts (new_blank edge_id spec) {e' = e},
  )
