-- ===== src/DiffGate/Verify.antt =====
-- internal/application/diffgate/verify.go: whether the candidate resolves its target finding, and
-- which findings it brings. The callers that the base knows are a parameter that may fail.
use veska.Common.{
  ◌≡◌, refl, sym, ◌∙◌, inl, inr, Bool, true, false, not, ◌&&◌, ◌||◌, Option, none, some, List, [],
  ◌∷◌, String, Result, ok, ◌>>=◌, >>=-inv, ◌==◌, string_eq, eq_iff, if◌then◌else◌, contains,
  sort_by, str_lt, arith, Bool-cases,
}
use veska.Common.Dict.{Dict}
use veska.Domain.Finding.{Finding}
use veska.Domain.ParseResult.{EdgePtr}
use veska.Staging.Area.{File, snapshot}
use veska.Revalidate.{
  StaleFinding, DecisionKind, refresh, close, PredicateSource, decide, close_if, decide-dead-code,
}
use veska.DiffGate.Guard.{Ephemeral}

pub record VerifyVerdict : Type 0 where
  pub rule : String
  pub resolution_checked : Bool
  pub target_resolved : Bool
  pub new_findings_checked : Bool
  pub new_findings : List String
  pub new_findings_covered_rules : List String

pub record Discovery : Type 0 where
  pub ran : Bool
  pub base_ids : List String
  pub candidate_ids : List String
  pub covered_rules : List String

abbrev pub resolvable_rules : List String
resolvable_rules = "dead-code" ∷ []

abbrev pub calls : String → EdgePtr → Bool
calls id none = false
calls id (some e) = e.resolved && (e.kind == "CALLS" && e.tgt == id)

unfoldable pub any_call : String → List EdgePtr → Bool
any_call id [] = false
any_call id (e ∷ es) = calls id e || any_call id es

unfoldable pub overlay_calls : String → Dict String File → Bool
unfolding any_call
overlay_calls id [] = false
overlay_calls id ((p, f) ∷ files) = any_call id f.edges || overlay_calls id files

abbrev pub is_nil : List String → Bool
is_nil [] = true
is_nil (x ∷ xs) = false

-- The findings of the candidate that are neither empty, nor the base's, nor taken already.
unfoldable pub fresh_findings : List String → List String → List String → List String
fresh_findings base [] seen = []
fresh_findings base (id ∷ ids) seen =
    let skip = id == "" || (contains base id || contains seen id) in
    let rest = fresh_findings base ids (if skip then seen else id ∷ seen) in
    if skip then rest else id ∷ rest

pub contains-fresh_findings :
    (base ids seen : List String) (x : String)
    → contains (fresh_findings base ids seen) x
      ≡ (contains ids x && (not (x == "") && (not (contains base x) && not (contains seen x))))
unfolding fresh_findings contains
contains-fresh_findings base [] seen x = refl
contains-fresh_findings base (id ∷ ids) seen x =
    elim (Bool-cases (id == "" || (contains base id || contains seen id))) [
      | inl skip ↦ rw skip (ground (arith, contains-fresh_findings base ids seen x, eq_iff x id))
      | inr fresh ↦
          rw fresh (ground (arith, contains-fresh_findings base ids (id ∷ seen) x, eq_iff x id))
    ]

abbrev pub is_close : DecisionKind → Bool
is_close close = true
is_close refresh = false

module _ {ℓ} {E : Type ℓ} (base_callers : String → Result E (List String)) where
  -- `ephemeralPredicates`, with the stubs of the two rules that are never run.
  unfoldable pub has_inbound_call_edges : Ephemeral → String → Result E Bool
  unfolding overlay_calls
  has_inbound_call_edges eph id = do
    callers ← base_callers id
    ok (not (is_nil callers) || overlay_calls id (snapshot eph.repo_id eph.branch eph.overlay))

  abbrev pub predicates : Ephemeral → PredicateSource E
  predicates eph = record {
    has_inbound_call_edges = has_inbound_call_edges eph;
    node_signature_pair = λ id. ok ("", "");
    has_test_caller = λ id. ok false;
  }

  abbrev pub stale : Finding → String → StaleFinding
  stale target id = record {
    finding_id = target.finding_id;
    node_id = id;
    rule = target.rule;
    anchor_hash = "";
    current_hash = "";
  }

  -- Whether resolution was checked, and whether the target is resolved.
  abbrev pub resolve_at : Ephemeral → Finding → Option String → Result E (Bool × Bool)
  resolve_at eph target none = ok (false, false)
  resolve_at eph target (some id) =
      decide (stale target id) (predicates eph) >>= λ d. ok (true, is_close d.kind)

  unfoldable pub resolve : Ephemeral → Finding → Result E (Bool × Bool)
  resolve eph target =
      if contains resolvable_rules target.rule
      then resolve_at eph target target.node_id
      else ok (false, false)

  abbrev pub verdict_with : Finding → Discovery → Bool × Bool → VerifyVerdict
  verdict_with target disc (checked, resolved) = record {
    rule = target.rule;
    resolution_checked = checked;
    target_resolved = resolved;
    new_findings_checked = disc.ran;
    new_findings =
        if disc.ran
        then sort_by str_lt (fresh_findings disc.base_ids disc.candidate_ids [])
        else [];
    new_findings_covered_rules = if disc.ran then disc.covered_rules else [];
  }

  unfoldable pub verify : Ephemeral → Finding → Discovery → Result E VerifyVerdict
  unfolding resolve
  verify eph target disc = do r ← resolve eph target; ok (verdict_with target disc r)

  closes_when : (s : StaleFinding) (gone : Bool) → is_close (close_if s gone).kind ≡ gone
  closes_when s true = refl
  closes_when s false = refl

  resolve_at-true :
      (eph : Ephemeral) (target : Finding) (o : Option String)
      → target.rule ≡ "dead-code"
      → resolve_at eph target o ≡ ok (true, true)
      → (id : String) × (o ≡ some id) × (has_inbound_call_edges eph id ≡ ok true)
  resolve_at-true eph target none rule h = cc
  resolve_at-true eph target (some id) rule h =
      let (d, decided, closed) = >>=-inv (decide (stale target id) (predicates eph)) _ h in
      let (has_in, asked, made) =
        >>=-inv (has_inbound_call_edges eph id) _
          (sym (decide-dead-code (stale target id) (predicates eph) rule) ∙ decided) in
      let same : has_in ≡ true = cc (closes_when (stale target id) has_in) in
      (id, refl, rw same at asked)

  -- The target counts as resolved only when it is a dead-code finding anchored at a node, and that
  -- node has a caller in the base or in the candidate.
  pub resolve-true :
      (eph : Ephemeral) (target : Finding)
      → resolve eph target ≡ ok (true, true)
      → (id : String) × (target.node_id ≡ some id)
        × (target.rule ≡ "dead-code")
        × (has_inbound_call_edges eph id ≡ ok true)
  unfolding resolve contains
  resolve-true eph target h = elim (Bool-cases (contains resolvable_rules target.rule)) [
    | inl known ↦
        let rule : target.rule ≡ "dead-code" = ground (arith, eq_iff target.rule "dead-code") in
        let (id, anchored, has) = resolve_at-true eph target target.node_id rule (rw known at h) in
        (id, anchored, rule, has)
    | inr other ↦
        let unchecked : ◌≡◌ {A = Result E (Bool × Bool)} (ok (false, false)) (ok (true, true)) =
          rw other at h in
        cc
  ]
