-- ===== src/DiffGate/Gate.antt =====
-- internal/application/diffgate/gate.go: the verifier and the guard composed into one verdict.
pub mod Passing
use veska.Common.{
  ℕ, Bool, true, false, not, Option, none, some, List, [], ◌∷◌, ◌++◌, String, Result, ok, err,
  ◌>>=◌, if◌then◌else◌,
}
use veska.Domain.Finding.{Finding}
use veska.Blast.Query.{BlastError, seed_not_found}
use veska.DiffGate.Guard.{
  ScopeVerdict, Radius, Ephemeral, GuardError, radius_failed, lookup_failed, Hasher, check, map_err,
  is_none,
}
use veska.DiffGate.Verify.{VerifyVerdict, Discovery, verify}

pub record GateVerdict : Type 0 where
  pub pass : Bool
  pub failures : List String
  pub verify : VerifyVerdict
  pub scope : ScopeVerdict

pub data GateError {ℓ} (E : Type ℓ) : Type ℓ where
  verify_failed : E → GateError E
  guard_failed : GuardError (BlastError E) → GateError E

abbrev pub exit_code : GateVerdict → ℕ
exit_code v = if v.pass then 0 else 1

-- `errors.Is(err, blastradius.ErrSeedNotFound)`.
abbrev pub is_seed_not_found {ℓ} : {E : Type ℓ} → GuardError (BlastError E) → Bool
is_seed_not_found (radius_failed seed_not_found) = true
is_seed_not_found (lookup_failed seed_not_found) = true
is_seed_not_found _ = false

abbrev pub resolution_failures : VerifyVerdict → List String
resolution_failures v =
    if not v.resolution_checked
    then "resolution_unchecked" ∷ []
    else if not v.target_resolved
    then "unresolved" ∷ []
    else []

abbrev pub discovery_failures : VerifyVerdict → List String
discovery_failures v =
    if not v.new_findings_checked
    then "discovery_unchecked" ∷ []
    else if not (is_none v.new_findings)
    then "new_findings" ∷ []
    else []

abbrev pub unscoped : String → ScopeVerdict
unscoped anchor = record {
  contained = false;
  anchor_node_id = anchor;
  offending = [];
  truncated = false;
}

-- The guard's answer as a scope verdict with its failures, or an error.
abbrev pub scope_of {ℓ} :
    {E : Type ℓ}
    → String
    → Result (GuardError (BlastError E)) ScopeVerdict
    → Result (GateError E) (ScopeVerdict × List String)
scope_of anchor (ok sv) = ok (sv, if not sv.contained then "blast_radius_exceeded" ∷ [] else [])
scope_of anchor (err e) =
    if is_seed_not_found e
    then ok (unscoped anchor, "anchor_not_resolved" ∷ [])
    else err (guard_failed e)

module _ {ℓ} {E : Type ℓ} (base_callers : String → Result E (List String))
    (radius : String → Result (BlastError E) Radius)
    (lookup_nodes : List String → Result (BlastError E) (List String))
    (hasher : Hasher (BlastError E)) where
  -- A file-anchored target is not checked for its scope.
  abbrev pub scope_at :
      Ephemeral → Option String → Result (GateError E) (ScopeVerdict × List String)
  scope_at eph none = ok (unscoped "", [])
  scope_at eph (some id) = scope_of id (check radius lookup_nodes hasher eph id)

  abbrev pub composed : VerifyVerdict → ScopeVerdict × List String → GateVerdict
  composed vv (sv, more) =
      let failures = (resolution_failures vv ++ discovery_failures vv) ++ more in
      record { pass = is_none failures; failures = failures; verify = vv; scope = sv }

  -- Gate.Evaluate.
  unfoldable pub evaluate : Ephemeral → Finding → Discovery → Result (GateError E) GateVerdict
  evaluate eph target disc = do
    vv ← map_err verify_failed (verify base_callers eph target disc)
    s ← scope_at eph target.node_id
    ok (composed vv s)
