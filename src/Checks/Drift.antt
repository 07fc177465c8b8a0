-- ===== src/Checks/Drift.antt =====
-- internal/application/checks/contractdrift.go: the findings on nodes whose signature changed. The
-- query and the wording of a message are parameters.
use veska.Common.{
  ◌≡◌, refl, ap, false, not, List, [], ◌∷◌, map, String, Result, ok, err, ◌==◌, string_eq, keep_if,
}
use veska.Domain.Finding.{Finding, severity_valid}
use veska.DiffGate.Exported.{DriftedNode}
use veska.Checks.{Anchor, report, report_lem, finding_on}

module _ {ℓ} {E : Type ℓ} (derive_finding_id : String → String → String → String)
    (message : DriftedNode → String → String)
    (drifted_nodes_in_files : String → String → List String → Result E (List DriftedNode)) where
  abbrev pub anchor_on : String → DriftedNode → Anchor
  anchor_on branch d = record {
    node_id = d.node_id;
    content_hash = d.content_hash;
    message = message d branch;
  }

  abbrev reported : String → String → Result E (List DriftedNode) → Result E (List Finding)
  reported repo_id branch (err e) = err e
  reported repo_id branch (ok drifted) = ok (
      report derive_finding_id "contract-drift" "medium" repo_id branch (anchor_on branch)
        (λ d. false) drifted)

  unfoldable pub run : String → String → List String → Result E (List Finding)
  run repo_id branch [] = ok []
  run repo_id branch (f ∷ files) =
      reported repo_id branch (drifted_nodes_in_files repo_id branch (f ∷ files))

  -- The check reports, in the order of the query, one finding for each drifted node with an id.
  pub run_drift :
      (repo_id branch file : String) (files : List String) (drifted : List DriftedNode)
      → drifted_nodes_in_files repo_id branch (file ∷ files) ≡ ok drifted
      → run repo_id branch (file ∷ files)
        ≡ ok (
            map
              (λ d.
                finding_on derive_finding_id "contract-drift" "medium" repo_id branch
                  (anchor_on branch d))
              (keep_if (λ d. not (d.node_id == "")) drifted))
  unfolding run severity_valid
  run_drift repo_id branch file files drifted asked =
      rw (run, asked)
        (ap ok (
          report_lem derive_finding_id "contract-drift" "medium" repo_id branch refl refl
            (anchor_on branch) (λ d. false) drifted))
