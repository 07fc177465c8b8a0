-- ===== src/DiffGate/Gate/Passing.antt =====
-- What a passing verdict of the gate means.
use veska.Common.{
  ◌≡◌, refl, sym, ap, subst, ◌∙◌, inl, inr, Bool, true, false, not, ◌&&◌, some, List, [], ◌∷◌, ◌++◌,
  String, Result, ok, err, >>=-inv, ◌==◌, string_eq, contains, arith, Bool-cases, sort_by, str_lt,
  contains-sort_by,
}
use veska.Domain.Finding.{Finding}
use veska.Blast.Query.{BlastError}
use veska.DiffGate.Guard.{
  ScopeVerdict, Radius, Ephemeral, GuardError, Hasher, check, map_err, is_none,
}
use veska.DiffGate.Guard.Verdict.{map_err-ok}
use veska.DiffGate.Guard.Coverage.{nothing_listed}
use veska.DiffGate.Verify.{
  VerifyVerdict, Discovery, verify, resolve, resolve-true, verdict_with, has_inbound_call_edges,
  fresh_findings, contains-fresh_findings,
}
use veska.DiffGate.Gate.{
  GateVerdict, verify_failed, resolution_failures, discovery_failures, scope_of, scope_at, composed,
  evaluate, is_seed_not_found,
}

none-append : (xs ys : List String) → is_none (xs ++ ys) ≡ (is_none xs && is_none ys)
none-append [] ys = refl
none-append (x ∷ xs) ys = refl

-- No failure of the verifier: all was checked and is clean.
verify_clean :
    (v : VerifyVerdict)
    → is_none (resolution_failures v ++ discovery_failures v) ≡ true
    → (v.resolution_checked ≡ true)
      × (v.target_resolved ≡ true)
      × (v.new_findings_checked ≡ true)
      × (is_none v.new_findings ≡ true)
verify_clean v h = ground (arith, none-append (resolution_failures v) (discovery_failures v))

scope_clean {ℓ} :
    {E : Type ℓ} (anchor : String) (r : Result (GuardError (BlastError E)) ScopeVerdict)
    {sv : ScopeVerdict} {more : List String}
    → scope_of anchor r ≡ ok (sv, more)
    → is_none more ≡ true
    → (r ≡ ok sv) × (sv.contained ≡ true)
scope_clean anchor (ok v) {sv} {more} h n = ground arith
scope_clean anchor (err e) {sv} {more} h n = elim (Bool-cases (is_seed_not_found e)) [
  | inl degraded ↦
      let filled : more ≡ "anchor_not_resolved" ∷ [] = cc (rw degraded at h) in
      let bad : false ≡ true = sym (ap is_none filled) ∙ n in cc
  | inr other ↦ cc (rw other at h)
]

module _ {ℓ} {E : Type ℓ} (base_callers : String → Result E (List String))
    (radius : String → Result (BlastError E) Radius)
    (lookup_nodes : List String → Result (BlastError E) (List String))
    (hasher : Hasher (BlastError E)) where
  verified :
      (eph : Ephemeral) (target : Finding) (disc : Discovery) (vv : VerifyVerdict)
      → verify base_callers eph target disc ≡ ok vv
      → (r : Bool × Bool) × (resolve base_callers eph target ≡ ok r)
        × (verdict_with base_callers target disc r ≡ vv)
  unfolding verify
  verified eph target disc vv h =
      let (r, run, last) = >>=-inv (resolve base_callers eph target) _ h in (r, run, cc)

  -- The checks of a clean verdict, read back from the discovery and the resolution.
  clean_parts :
      (target : Finding) (disc : Discovery) (r : Bool × Bool) (vv : VerifyVerdict)
      → verdict_with base_callers target disc r ≡ vv
      → is_none (resolution_failures vv ++ discovery_failures vv) ≡ true
      → (r.0 ≡ true)
        × (r.1 ≡ true)
        × (disc.ran ≡ true)
        × (is_none (sort_by str_lt (fresh_findings disc.base_ids disc.candidate_ids [])) ≡ true)
  clean_parts target disc r vv made h =
      let parts =
        subst (λ w. is_none (resolution_failures w ++ discovery_failures w) ≡ true) (sym made) h in
      ground (arith, verify_clean (verdict_with base_callers target disc r) parts)

  composed_clean :
      (vv : VerifyVerdict) (s : ScopeVerdict × List String) (v : GateVerdict)
      → composed base_callers radius lookup_nodes hasher vv s ≡ v
      → v.pass ≡ true
      → (is_none (resolution_failures vv ++ discovery_failures vv) ≡ true)
        × (is_none s.1 ≡ true)
        × (s.0 ≡ v.scope)
  composed_clean vv s v same p =
      let all : is_none ((resolution_failures vv ++ discovery_failures vv) ++ s.1) ≡ true =
        ap (λ w. w.pass) same ∙ p in
      let both = none-append (resolution_failures vv ++ discovery_failures vv) s.1 in
      (ground arith, ground arith, ap (λ w. w.scope) same)

  no_fresh :
      (base ids : List String) (x : String)
      → is_none (sort_by str_lt (fresh_findings base ids [])) ≡ true
      → (contains ids x && (not (x == "") && not (contains base x))) ≡ false
  unfolding contains
  no_fresh base ids x h =
      elim (Bool-cases (contains (sort_by str_lt (fresh_findings base ids [])) x)) [
        | inl listed ↦ absurd (nothing_listed _ x h listed)
        | inr free ↦ ground (
          arith,
          contains-sort_by str_lt x (fresh_findings base ids []),
          contains-fresh_findings base ids [] x,
        )
      ]

  -- A passing verdict means that the target is a dead-code finding at a node which has a caller in
  -- the base or in the candidate, that discovery ran and every finding of the candidate is empty or
  -- one of the base, and that the guard ran at that node and found the change contained.
  pub pass_means :
      (eph : Ephemeral) (target : Finding) (disc : Discovery) (v : GateVerdict) (x : String)
      → evaluate base_callers radius lookup_nodes hasher eph target disc ≡ ok v
      → v.pass ≡ true
      → (id : String) × (target.node_id ≡ some id)
        × (target.rule ≡ "dead-code")
        × (has_inbound_call_edges base_callers eph id ≡ ok true)
        × (disc.ran ≡ true)
        × ((contains disc.candidate_ids x && (not (x == "") && not (contains disc.base_ids x)))
            ≡ false)
        × (check radius lookup_nodes hasher eph id ≡ ok v.scope)
        × (v.scope.contained ≡ true)
  unfolding evaluate
  pass_means eph target disc v x h p =
      let (vv, ran, h1) =
        >>=-inv (map_err verify_failed (verify base_callers eph target disc)) _ h in
      let (s, scoped, last) =
        >>=-inv (scope_at base_callers radius lookup_nodes hasher eph target.node_id) _ h1 in
      let (clean, quiet, scope) = composed_clean vv s v (cc) p in
      let (r, resolved, made) = verified eph target disc vv (map_err-ok verify_failed _ ran) in
      let (checked, gone, discovered, none_new) = clean_parts target disc r vv made clean in
      let both : r ≡ (true, true) = ground arith in
      let (id, anchored, rule, has) = resolve-true base_callers eph target (rw both at resolved) in
      let (guarded, contained) =
        scope_clean id (check radius lookup_nodes hasher eph id) {sv = s.0} {more = s.1}
          (rw anchored at scoped) quiet in
      (
        id,
        anchored,
        rule,
        has,
        discovered,
        no_fresh disc.base_ids disc.candidate_ids x none_new,
        guarded ∙ ap ok scope,
        sym (ap (λ w. w.contained) scope) ∙ contained,
      )
