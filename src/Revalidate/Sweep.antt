-- ===== src/Revalidate/Sweep.antt =====
-- internal/application/revalidate/handler.go: the sweep of one saved file. The reads and the one
-- transaction of the repository are parameters; a failed transaction writes nothing.
use veska.Common.{
  ℕ, suc, ◌+◌, ◌≡◌, refl, subst, ap, Bool, true, false, not, Option, none, some, List, [], ◌∷◌,
  ◌++◌, String, Result, ok, err, ◌>>=◌, >>=-inv, ◌==◌, string_eq, eq_iff, if◌then◌else◌, length,
  arith, Bool-cases, inl, inr, ◌⊎◌,
}
use veska.Queue.{Row}
use veska.Revalidate.{
  StaleFinding, refresh, close, FindingDecision, PredicateSource, decide, closing, refreshing,
  decide_cases,
}

-- RevalidateQuerier, at a repository and a branch.
pub record RevalidateQuerier {ℓ} (E : Type ℓ) : Type ℓ where
  pub stale_findings_for_file : String → Result E (List StaleFinding)
  pub predicates : PredicateSource E
  pub apply_decisions : List FindingDecision → Option E

-- The batches that were committed, and the two counters.
pub record Swept : Type 0 where
  pub applied : List (List FindingDecision)
  pub refreshed : ℕ
  pub closed : ℕ

pub data HandleError {ℓ} (E : Type ℓ) : Type ℓ where
  unexpected_kind : String → HandleError E
  failed : E → HandleError E

abbrev pub is_refresh : FindingDecision → Bool
is_refresh d = elim d.kind [ refresh ↦ true | close ↦ false ]

abbrev pub count_if : (FindingDecision → Bool) → List FindingDecision → ℕ
count_if p [] = 0
count_if p (d ∷ ds) = (if p d then 1 else 0) + count_if p ds

module _ {ℓ} {E : Type ℓ} (repo : RevalidateQuerier E) where
  unfoldable pub decide_all : List StaleFinding → Result E (List FindingDecision)
  decide_all [] = ok []
  decide_all (f ∷ fs) = do d ← decide f repo.predicates; ds ← decide_all fs; ok (d ∷ ds)

  abbrev pub committed : List FindingDecision → Option E → Swept → Swept × Option (HandleError E)
  committed ds (some e) s = (s, some (failed e))
  committed ds none s = (
    record {
      applied = s.applied ++ ds ∷ [];
      refreshed = s.refreshed + count_if is_refresh ds;
      closed = s.closed + count_if (λ d. not (is_refresh d)) ds;
    },
    none,
  )

  abbrev pub apply_all : Result E (List FindingDecision) → Swept → Swept × Option (HandleError E)
  apply_all (err e) s = (s, some (failed e))
  apply_all (ok ds) s = committed ds (repo.apply_decisions ds) s

  abbrev pub sweep_stale : Result E (List StaleFinding) → Swept → Swept × Option (HandleError E)
  sweep_stale (err e) s = (s, some (failed e))
  sweep_stale (ok []) s = (s, none)
  sweep_stale (ok (f ∷ fs)) s = apply_all (decide_all (f ∷ fs)) s

  -- Handler.Handle.
  unfoldable pub handle : Row → Swept → Swept × Option (HandleError E)
  handle row s =
      if not (row.kind == "revalidate")
      then (s, some (unexpected_kind row.kind))
      else if row.payload == ""
      then (s, none)
      else sweep_stale (repo.stale_findings_for_file row.payload) s

  -- Each finding with its decision: what Decide answers, a close or a refresh with the current hash.
  pub data AllDecided : List StaleFinding → List FindingDecision → Type ℓ where
    none_stale : AllDecided [] []
    one_decided :
        {f : StaleFinding} {d : FindingDecision} {fs : List StaleFinding}
        {ds : List FindingDecision}
        → decide f repo.predicates ≡ ok d
        → (d ≡ closing f) ⊎ (d ≡ refreshing f)
        → AllDecided fs ds
        → AllDecided (f ∷ fs) (d ∷ ds)

  decide_all-AllDecided :
      (fs : List StaleFinding) (ds : List FindingDecision)
      → decide_all fs ≡ ok ds
      → AllDecided fs ds
  unfolding decide_all
  decide_all-AllDecided [] ds h = let same : [] ≡ ds = cc in subst (AllDecided []) same none_stale
  decide_all-AllDecided (f ∷ fs) ds h =
      let (d, decided, h1) = >>=-inv (decide f repo.predicates) _ h in
      let (rest, later, last) = >>=-inv (decide_all fs) _ h1 in
      let same : d ∷ rest ≡ ds = cc in
      subst (AllDecided (f ∷ fs)) same (
        one_decided decided (decide_cases f repo.predicates d decided)
          (decide_all-AllDecided fs rest later))

  -- How a sweep can end.
  pub data Outcome (row : Row) (s : Swept) : Swept → Option (HandleError E) → Type ℓ where
    failed_clean : {e : HandleError E} → Outcome row s s (some e)
    no_file : row.payload ≡ "" → Outcome row s s none
    nothing_stale : repo.stale_findings_for_file row.payload ≡ ok [] → Outcome row s s none
    swept :
        (fs : List StaleFinding) (ds : List FindingDecision) {s' : Swept}
        → repo.stale_findings_for_file row.payload ≡ ok fs
        → AllDecided fs ds
        → s'.applied ≡ s.applied ++ ds ∷ []
        → s'.refreshed + s'.closed ≡ s.refreshed + s.closed + length fs
        → Outcome row s s' none

  count_all :
      (p : FindingDecision → Bool) (ds : List FindingDecision)
      → count_if p ds + count_if (λ d. not (p d)) ds ≡ length ds
  count_all p [] = omega arith
  count_all p (d ∷ ds) = ground (arith, count_all p ds)

  AllDecided-length :
      {fs : List StaleFinding} {ds : List FindingDecision}
      → AllDecided fs ds
      → length ds ≡ length fs
  AllDecided-length none_stale = refl
  AllDecided-length (one_decided c k rest) = ap suc (AllDecided-length rest)

  apply_all-Outcome :
      (row : Row) (s : Swept) (fs : List StaleFinding) (r : Result E (List FindingDecision))
      → repo.stale_findings_for_file row.payload ≡ ok fs
      → ((ds : List FindingDecision) → r ≡ ok ds → AllDecided fs ds)
      → Outcome row s (apply_all r s).0 (apply_all r s).1
  apply_all-Outcome row s fs (err e) found decided = failed_clean
  apply_all-Outcome row s fs (ok ds) found decided = by_answer (repo.apply_decisions ds)
    where
      by_answer : (o : Option E) → Outcome row s (committed ds o s).0 (committed ds o s).1
      by_answer (some e) = failed_clean
      by_answer none =
          swept fs ds found (decided ds refl) refl
            (omega (arith, count_all is_refresh ds, AllDecided-length (decided ds refl)))

  sweep_stale-Outcome :
      (row : Row) (s : Swept) (r : Result E (List StaleFinding))
      → repo.stale_findings_for_file row.payload ≡ r
      → Outcome row s (sweep_stale r s).0 (sweep_stale r s).1
  sweep_stale-Outcome row s (err e) found = failed_clean
  sweep_stale-Outcome row s (ok []) found = nothing_stale found
  sweep_stale-Outcome row s (ok (f ∷ fs)) found =
      apply_all-Outcome row s (f ∷ fs) (decide_all (f ∷ fs)) found (decide_all-AllDecided (f ∷ fs))

  -- A sweep either fails and changes nothing, or has no file or no stale finding and changes nothing,
  -- or commits one batch, with the decision of Decide for every stale finding of the file in order,
  -- and counts each of them as closed or refreshed.
  pub handle-Outcome : (row : Row) (s : Swept) → Outcome row s (handle row s).0 (handle row s).1
  unfolding handle
  handle-Outcome row s = elim (Bool-cases (row.kind == "revalidate")) [
    | inr wrong ↦ rw wrong failed_clean
    | inl right ↦ elim (Bool-cases (row.payload == "")) [
      | inl empty ↦ rw (right, empty) (no_file ((eq_iff row.payload "").0 empty))
      | inr given ↦
          rw (right, given)
            (sweep_stale-Outcome row s (repo.stale_findings_for_file row.payload) refl)
    ]
  ]
