-- ===== src/DiffGate/Untested.antt =====
-- internal/application/diffgate/coveragegate.go: whether a changed node is among the untested ones.
use veska.Common.{
  ℕ, ◌≡◌, refl, ◌∙◌, inl, inr, Bool, false, ◌&&◌, Option, none, some, List, [], ◌∷◌, ◌++◌, map,
  String, ◌==◌, string_eq, eq_iff, if◌then◌else◌, str_lt, sort_by, some_of, some_of-sort_by,
  some_of-append, is_nil, contains, contains-map, Bool-cases, arith,
}
use veska.Domain.Finding.{Finding}

pub record UntestedSymbol : Type 0 where
  pub node_id : String
  pub message : String

pub record CoverageVerdict : Type 0 where
  pub pass : Bool
  pub untested_changed : List UntestedSymbol

abbrev pub failures : CoverageVerdict → List String
failures v = if v.pass then [] else "untested_changed_symbol" ∷ []

abbrev pub exit_code : CoverageVerdict → ℕ
exit_code v = if v.pass then 0 else 1

-- A finding counts when its anchor is a changed node.
abbrev pub counted : List String → Option String → String → List UntestedSymbol
counted changed none message = []
counted changed (some id) message =
    if contains changed id then (record { node_id = id; message = message }) ∷ [] else []

unfoldable pub intersect : List String → List (Option Finding) → List UntestedSymbol
intersect changed [] = []
intersect changed (none ∷ fs) = intersect changed fs
intersect changed (some f ∷ fs) = counted changed f.node_id f.message ++ intersect changed fs

unfoldable pub evaluate : List String → List (Option Finding) → CoverageVerdict
unfolding intersect
evaluate changed untested =
    let out = sort_by (λ a b. str_lt a.node_id b.node_id) (intersect changed untested) in
    record { pass = is_nil out; untested_changed = out }

abbrev anchored : String → Option String → Bool
anchored id none = false
anchored id (some at) = id == at

abbrev pub names : String → Option Finding → Bool
names id none = false
names id (some f) = anchored id f.node_id

counted-some_of :
    (changed : List String) (anchor : Option String) (message id : String)
    → some_of (λ u. id == u.node_id) (counted changed anchor message)
      ≡ (contains changed id && anchored id anchor)
unfolding some_of
counted-some_of changed none message id = ground arith
counted-some_of changed (some at) message id = elim (Bool-cases (id == at)) [
  | inl same ↦ rw ((eq_iff id at).0 same) (ground (arith, eq_iff at at))
  | inr other ↦ ground arith
]

intersect-some_of :
    (changed : List String) (fs : List (Option Finding)) (id : String)
    → some_of (λ u. id == u.node_id) (intersect changed fs)
      ≡ (contains changed id && some_of (names id) fs)
unfolding some_of intersect
intersect-some_of changed [] id = ground arith
intersect-some_of changed (none ∷ fs) id = intersect-some_of changed fs id
intersect-some_of changed (some f ∷ fs) id = ground (
  arith,
  some_of-append (λ u. id == u.node_id) (counted changed f.node_id f.message)
      (intersect changed fs),
  counted-some_of changed f.node_id f.message id,
  intersect-some_of changed fs id,
)

-- The verdict lists exactly the changed nodes that a finding of an untested node is anchored at, and
-- passes when there is none.
pub evaluate_untested :
    (changed : List String) (untested : List (Option Finding)) (id : String)
    → let v = evaluate changed untested in
      (contains (map (λ u. u.node_id) v.untested_changed) id
        ≡ (contains changed id && some_of (names id) untested))
      × (v.pass ≡ is_nil v.untested_changed)
unfolding evaluate
evaluate_untested changed untested id = (
  contains-map (λ u. u.node_id) _ id
      ∙ some_of-sort_by _ (λ u. id == u.node_id) (intersect changed untested)
      ∙ intersect-some_of changed untested id,
  refl,
)
