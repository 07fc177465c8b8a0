-- ===== src/Revalidate.antt =====
-- internal/application/revalidate/decide.go: what becomes of a finding whose anchor changed. The
-- predicates of the graph are parameters that may fail.
pub mod Sweep
use veska.Common.{
  subst, ◌⊎◌, inl, inr, Bool-cases, true, false, >>=-inv, Bool, not, ◌&&◌, String, Result, ok,
  ◌>>=◌, ◌==◌, string_eq, if◌then◌else◌, ◌≡◌, eq_iff, refl,
}

pub record StaleFinding : Type 0 where
  pub finding_id : String
  pub node_id : String
  pub rule : String
  pub anchor_hash : String
  pub current_hash : String

pub data DecisionKind : Type 0 where
  refresh close : DecisionKind

pub record FindingDecision : Type 0 where
  pub finding_id : String
  pub kind : DecisionKind
  pub new_hash : String

-- The graph predicates, at a repository and a branch.
pub record PredicateSource {ℓ} (E : Type ℓ) : Type ℓ where
  pub has_inbound_call_edges : String → Result E Bool
  pub node_signature_pair : String → Result E (String × String)
  pub has_test_caller : String → Result E Bool

abbrev pub closing : StaleFinding → FindingDecision
closing s = record { finding_id = s.finding_id; kind = close; new_hash = "" }

abbrev pub refreshing : StaleFinding → FindingDecision
refreshing s = record { finding_id = s.finding_id; kind = refresh; new_hash = s.current_hash }

abbrev pub is_drifting : String × String → Bool
is_drifting (prev, cur) = not (prev == "") && not (prev == cur)

abbrev pub close_if : StaleFinding → Bool → FindingDecision
close_if s gone = if gone then closing s else refreshing s

unfoldable pub decide {ℓ} :
    {E : Type ℓ} → StaleFinding → PredicateSource E → Result E FindingDecision
decide s src =
    if s.rule == "dead-code"
    then (src.has_inbound_call_edges s.node_id >>= (λ has_in. ok (close_if s has_in)))
    else if s.rule == "contract-drift"
    then (src.node_signature_pair s.node_id >>= (λ pair. ok (close_if s (not (is_drifting pair)))))
    else if s.rule == "untested-symbol"
    then (src.has_test_caller s.node_id >>= (λ has_test. ok (close_if s has_test)))
    else ok (closing s)

pub decide-dead-code {ℓ} :
    {E : Type ℓ} (s : StaleFinding) (src : PredicateSource E)
    → s.rule ≡ "dead-code"
    → decide s src ≡ (src.has_inbound_call_edges s.node_id >>= λ has_in. ok (close_if s has_in))
unfolding decide
decide-dead-code s src e = rw ((eq_iff s.rule "dead-code").1 e) refl

pub closes_or_refreshes :
    (s : StaleFinding) (gone : Bool)
    → (close_if s gone ≡ closing s) ⊎ (close_if s gone ≡ refreshing s)
closes_or_refreshes s true = inl refl
closes_or_refreshes s false = inr refl

asked {ℓ κ} :
    {E : Type ℓ} {A : Type κ} (s : StaleFinding) (r : Result E A) (gone : A → Bool)
    (d : FindingDecision)
    → (r >>= λ a. ok (close_if s (gone a))) ≡ ok d
    → (d ≡ closing s) ⊎ (d ≡ refreshing s)
asked s r gone d h =
    let (a, answered, last) = >>=-inv r _ h in
    let same : close_if s (gone a) ≡ d = cc in
    subst (λ z. (z ≡ closing s) ⊎ (z ≡ refreshing s)) same (closes_or_refreshes s (gone a))

-- A decision closes the finding, or refreshes it with the current hash.
pub decide_cases {ℓ} :
    {E : Type ℓ} (s : StaleFinding) (src : PredicateSource E) (d : FindingDecision)
    → decide s src ≡ ok d
    → (d ≡ closing s) ⊎ (d ≡ refreshing s)
unfolding decide
decide_cases s src d h = elim (Bool-cases (s.rule == "dead-code")) [
  | inl dead ↦ asked s (src.has_inbound_call_edges s.node_id) (λ b. b) d (rw dead at h)
  | inr not_dead ↦ elim (Bool-cases (s.rule == "contract-drift")) [
    | inl drift ↦
        asked s (src.node_signature_pair s.node_id) (λ p. not (is_drifting p)) d
          (rw (not_dead, drift) at h)
    | inr no_drift ↦ elim (Bool-cases (s.rule == "untested-symbol")) [
      | inl test ↦
          asked s (src.has_test_caller s.node_id) (λ b. b) d (rw (not_dead, no_drift, test) at h)
      | inr other ↦
          let same : ok (closing s) ≡ ok d = rw (not_dead, no_drift, other) at h in inl (cc)
    ]
  ]
]
