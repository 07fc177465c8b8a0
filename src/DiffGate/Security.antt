-- ===== src/DiffGate/Security.antt =====
-- internal/application/diffgate/securitygate.go: whether a candidate change adds a secret or a
-- vulnerable dependency. The scanners, the readers of the manifests and the reads at a ref are
-- parameters that may fail.
use veska.Common.{
  ℕ, ◌≡◌, refl, ◌⊎◌, ap, ◌∙◌, subst, inl, inr, Bool, true, false, not, ◌&&◌, ◌||◌, Option, none,
  some, List, [], ◌∷◌, ◌++◌, map, String, Result, Result-cases, ok, err, ◌>>=◌, >>=-inv, string_eq,
  if◌then◌else◌, str_lt, sort_by, length, length-sort_by, keep_if, contains, All, append-nil-inv,
  map-nil-inv, is_nil, is_nil-inv, none-kept, length-nil, Option-cases, arith,
}
use veska.Common.Dict.{Dict}
use veska.Domain.Finding.{Finding}

pub record SecurityFinding : Type 0 where
  pub rule : String
  pub finding_id : String
  pub message : String

pub record SecurityVerdict : Type 0 where
  pub pass : Bool
  pub new_secret_leaks : List SecurityFinding
  pub new_vuln_deps : List SecurityFinding
  pub vuln_applicable : Bool
  pub vuln_checked : Bool

-- Failures: the names of the failing checks.
abbrev pub failures : SecurityVerdict → List String
failures v =
    if v.pass
    then []
    else ((if is_nil v.new_secret_leaks then [] else "new_secret_leak" ∷ [])
        ++ (if v.vuln_applicable && not v.vuln_checked then "vuln_unchecked" ∷ [] else []))
      ++ (if v.vuln_applicable && (v.vuln_checked && not (is_nil v.new_vuln_deps))
          then "new_vulnerable_dependency" ∷ []
          else [])

abbrev pub exit_code : SecurityVerdict → ℕ
exit_code v = if v.pass then 0 else 1

abbrev pub to_security_finding : Finding → SecurityFinding
to_security_finding f = record { rule = f.rule; finding_id = f.finding_id; message = f.message }

abbrev pub sort_findings : List SecurityFinding → List SecurityFinding
sort_findings = sort_by λ a b. str_lt a.finding_id b.finding_id

-- The findings of the candidate whose ids the base does not have.
abbrev pub new_findings : List Finding → List Finding → List Finding
new_findings base = keep_if λ f. not (contains (map (λ g. g.finding_id) base) f.finding_id)

-- The content of a manifest at a ref, `none` when it is absent there.
abbrev pub RefContent {ℓ} : Type ℓ → Type ℓ
RefContent E = String → String → Result E (Option (List ℕ))

some-inj {ℓ} : {A : Type ℓ} {x y : A} → some x ≡ some y → x ≡ y
some-inj e = cc

sort_findings-nil : (fs : List SecurityFinding) → is_nil (sort_findings fs) ≡ true → fs ≡ []
sort_findings-nil fs h = length-nil fs (
    omega (
      arith,
      length-sort_by (λ a b. str_lt a.finding_id b.finding_id) fs,
      ap length (is_nil-inv (sort_findings fs) h),
    ))

module _ {ℓ κ} {E : Type ℓ} {Dep : Type κ} (read_at_ref : RefContent E)
    (scan_deps : String → List Dep → Result E (List Finding)) (base_ref cand_ref : String) where
  abbrev pub Reader : Type (ℓ ⊔ κ)
  Reader = List ℕ → Result E (List Dep)

  abbrev parsed : String → Reader → Option (List ℕ) → Result E (List Finding)
  parsed path reader none = ok []
  parsed path reader (some []) = ok []
  parsed path reader (some (b ∷ bs)) = reader (b ∷ bs) >>= λ deps. scan_deps path deps

  abbrev pub scan_ref : String → String → Reader → Result E (List Finding)
  scan_ref path ref reader = read_at_ref path ref >>= λ content. parsed path reader content

  abbrev pub diff_manifest : String → Reader → Result E (List Finding × List Finding)
  diff_manifest path reader = scan_ref path base_ref reader >>= λ base.
      scan_ref path cand_ref reader >>= λ cand. ok (base, cand)

  -- The loop over the manifests; `none` stands for a scan that could not run.
  unfoldable pub scan_manifests : Dict String Reader → Option (List SecurityFinding)
  scan_manifests [] = some []
  scan_manifests ((path, reader) ∷ readers) = elim (diff_manifest path reader) [
    | err e ↦ none
    | ok (base, cand) ↦ elim (scan_manifests readers) [
      | none ↦ none
      | some later ↦ some (map to_security_finding (new_findings base cand) ++ later)
    ]
  ]

  abbrev verdict : Bool → Bool → List SecurityFinding → List SecurityFinding → SecurityVerdict
  verdict enabled checked leaks vulns = record {
    pass = is_nil leaks && (not enabled || (checked && is_nil vulns));
    new_secret_leaks = leaks;
    new_vuln_deps = vulns;
    vuln_applicable = enabled;
    vuln_checked = checked;
  }

  abbrev with_vulns : List SecurityFinding → Option (List SecurityFinding) → SecurityVerdict
  with_vulns leaks none = verdict true false leaks (sort_findings [])
  with_vulns leaks (some vulns) = verdict true true leaks (sort_findings vulns)

  unfoldable pub evaluate :
      Bool → Dict String Reader → Result E (List Finding) → Result E SecurityVerdict
  unfolding scan_manifests
  evaluate enabled readers (err e) = err e
  evaluate enabled readers (ok secrets) =
      let leaks = sort_findings (map to_security_finding secrets) in
      ok (
        if enabled
        then with_vulns leaks (scan_manifests readers)
        else verdict false false leaks (sort_findings []))

  -- What the manifest has at both refs: nothing at the candidate that the base does not have.
  pub record NothingNew (path : String) (reader : Reader) : Type (ℓ ⊔ κ) where
    pub base : List Finding
    pub cand : List Finding
    pub base_scanned : scan_ref path base_ref reader ≡ ok base
    pub cand_scanned : scan_ref path cand_ref reader ≡ ok cand
    pub known : All (λ f. contains (map (λ g. g.finding_id) base) f.finding_id ≡ true) cand

  scan_manifests_none_new :
      (readers : Dict String Reader)
      → scan_manifests readers ≡ some []
      → All (λ p. NothingNew p.0 p.1) readers
  unfolding scan_manifests
  scan_manifests_none_new [] h = tt
  scan_manifests_none_new ((path, reader) ∷ readers) h =
      elim (Result-cases (diff_manifest path reader)) [
        | inl (e, failed) ↦ absurd (cc (rw (scan_manifests, failed) at h))
        | inr ((base, cand), scanned) ↦ elim (Option-cases (scan_manifests readers)) [
          | inl stopped ↦ absurd (cc (rw (scan_manifests, scanned, stopped) at h))
          | inr (later, went_on) ↦
              let (b, got_b, rest) = >>=-inv (scan_ref path base_ref reader) _ scanned in
              let (c, got_c, last) = >>=-inv (scan_ref path cand_ref reader) _ rest in
              let pair : ◌≡◌ {A = Result E (List Finding × List Finding)} (ok (b, c))
                  (ok (base, cand)) =
                last in
              let b_base : b ≡ base = cc in
              let c_cand : c ≡ cand = cc in
              let (none_here, none_later) =
                append-nil-inv (map to_security_finding (new_findings base cand)) later
                  (some-inj (rw (scan_manifests, scanned, went_on) at h)) in
              (
                record {
                  base = base;
                  cand = cand;
                  base_scanned = got_b ∙ ap ok b_base;
                  cand_scanned = got_c ∙ ap ok c_cand;
                  known =
                      none-kept _ cand
                        (map-nil-inv to_security_finding (new_findings base cand) none_here);
                },
                scan_manifests_none_new readers (went_on ∙ ap some none_later),
              )
        ]
      ]

  no_secrets :
      (secrets : List Finding)
      → is_nil (sort_findings (map to_security_finding secrets)) ≡ true
      → ◌≡◌ {A = Result E (List Finding)} (ok secrets) (ok [])
  no_secrets secrets h = ap ok (map-nil-inv to_security_finding secrets (sort_findings-nil _ h))

  -- A change passes only when the scan of secrets found nothing and either the scan of dependencies
  -- is disabled, or every manifest was scanned at both refs and has no finding that the base has not.
  pub evaluate_security :
      (enabled : Bool) (readers : Dict String Reader) (secrets : Result E (List Finding))
      (v : SecurityVerdict)
      → evaluate enabled readers secrets ≡ ok v
      → v.pass ≡ true
      → (secrets ≡ ok []) × ((enabled ≡ false) ⊎ All (λ p. NothingNew p.0 p.1) readers)
  unfolding evaluate
  evaluate_security enabled readers (err e) v came passed = absurd cc
  evaluate_security false readers (ok secrets) v came passed =
      let leaks = sort_findings (map to_security_finding secrets) in
      let same : verdict false false leaks (sort_findings []) ≡ v = cc in
      (no_secrets secrets (ground (arith, ap (λ z. z.pass) same)), inl refl)
  evaluate_security true readers (ok secrets) v came passed =
      let leaks = sort_findings (map to_security_finding secrets) in
      elim (Option-cases (scan_manifests readers)) [
        | inl stopped ↦
            let same : ok (verdict true false leaks (sort_findings [])) ≡ ok v =
              rw stopped at came in
            let same' : verdict true false leaks (sort_findings []) ≡ v = cc in
            absurd (ground (arith, ap (λ z. z.pass) same'))
        | inr (vulns, scanned) ↦
            let same : ok (verdict true true leaks (sort_findings vulns)) ≡ ok v =
              rw scanned at came in
            let same' : verdict true true leaks (sort_findings vulns) ≡ v = cc in
            let none_new : vulns ≡ [] =
              sort_findings-nil vulns (ground (arith, ap (λ z. z.pass) same')) in
            (
              no_secrets secrets (ground (arith, ap (λ z. z.pass) same')),
              inr (scan_manifests_none_new readers (scanned ∙ ap some none_new)),
            )
      ]

  verdict-failures :
      (enabled checked : Bool) (leaks vulns : List SecurityFinding)
      → is_nil (failures (verdict enabled checked leaks vulns))
        ≡ (verdict enabled checked leaks vulns).pass
  verdict-failures enabled checked [] vulns = ground arith
  verdict-failures enabled checked (x ∷ leaks) vulns = ground arith

  -- The verdict names a failing check exactly when it does not pass.
  pub failures_security :
      (enabled : Bool) (readers : Dict String Reader) (secrets : Result E (List Finding))
      (v : SecurityVerdict)
      → evaluate enabled readers secrets ≡ ok v
      → is_nil (failures v) ≡ v.pass
  unfolding evaluate
  failures_security enabled readers (err e) v came = absurd cc
  failures_security false readers (ok secrets) v came =
      let same : verdict false false (sort_findings (map to_security_finding secrets))
            (sort_findings [])
          ≡ v =
        cc in
      subst (λ z. is_nil (failures z) ≡ z.pass) same
        (verdict-failures false false (sort_findings (map to_security_finding secrets))
          (sort_findings []))
  failures_security true readers (ok secrets) v came =
      let leaks = sort_findings (map to_security_finding secrets) in
      let same : with_vulns leaks (scan_manifests readers) ≡ v = cc in
      subst (λ z. is_nil (failures z) ≡ z.pass) same
        (elim (Option-cases (scan_manifests readers)) [
          | inl stopped ↦ rw stopped (verdict-failures true false leaks (sort_findings []))
          | inr (vulns, scanned) ↦
              rw scanned (verdict-failures true true leaks (sort_findings vulns))
        ])
