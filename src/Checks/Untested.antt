-- ===== src/Checks/Untested.antt =====
-- internal/application/checks/untested.go: the findings on nodes without a caller in a test file. The
-- queries and the wording of a message are parameters.
use veska.Common.{
  ◌≡◌, refl, ap, Bool, false, not, ◌&&◌, ◌||◌, Option, none, some, List, [], ◌∷◌, map, String,
  Result, ok, err, ◌==◌, string_eq, if◌then◌else◌, keep_if, some_of,
}
use veska.Domain.Finding.{Finding, severity_valid}
use veska.PathFilter.{is_test_file, is_vendored}
use veska.Coverage.{NodeRef}
use veska.Checks.{is_ephemeral, names_or_none, report, report_lem, finding_on}
use veska.Checks.DeadCode.{is_dead_code_candidate, is_interface_method_impl, anchor_on}

-- core/ports/coverage.go: a node with the files of its callers.
pub record NodeCallers : Type 0 where
  pub node : NodeRef
  pub caller_files : List String

abbrev pub has_test_caller : List String → Bool
has_test_caller = some_of is_test_file

-- Whether the loop skips a node.
abbrev pub is_skipped : List String → NodeCallers → Bool
is_skipped methods nc =
    not (is_dead_code_candidate nc.node)
    || is_test_file nc.node.file_path
    || is_vendored nc.node.file_path
    || (nc.node.name == "main" || nc.node.name == "init")
    || (nc.node.kind == "method" && is_interface_method_impl nc.node.name methods)
    || has_test_caller nc.caller_files

module _ {ℓ} {E : Type ℓ} (derive_finding_id message : String → String → String → String)
    (repo_kind : Option (String → Result E String))
    (candidate_callers_in_files : String → String → List String → Result E (List NodeCallers))
    (interface_method_names : Option (String → String → Result E (List String))) where
  abbrev kind_of : String → Option (Result E String)
  kind_of repo_id = elim repo_kind [ none ↦ none | some f ↦ some (f repo_id) ]

  abbrev pub methods_of : String → String → List String
  methods_of repo_id branch = elim interface_method_names [
    | none ↦ []
    | some f ↦ names_or_none (f repo_id branch)
  ]

  abbrev reported : String → String → Result E (List NodeCallers) → Result E (List Finding)
  reported repo_id branch (err e) = err e
  reported repo_id branch (ok rows) = ok (
      report derive_finding_id "untested-symbol" "low" repo_id branch
        (λ nc. anchor_on message branch nc.node) (is_skipped (methods_of repo_id branch)) rows)

  unfoldable pub run : String → String → List String → Result E (List Finding)
  run repo_id branch [] = ok []
  run repo_id branch (f ∷ files) =
      if is_ephemeral (kind_of repo_id)
      then ok []
      else reported repo_id branch (candidate_callers_in_files repo_id branch (f ∷ files))

  -- On a repository that is not known as ephemeral the check reports, in the order of the query, one
  -- finding for each node with an id that no filter skips, and no others.
  pub run_untested :
      (repo_id branch file : String) (files : List String) (rows : List NodeCallers)
      → is_ephemeral (kind_of repo_id) ≡ false
      → candidate_callers_in_files repo_id branch (file ∷ files) ≡ ok rows
      → run repo_id branch (file ∷ files)
        ≡ ok (
            map
              (λ nc.
                finding_on derive_finding_id "untested-symbol" "low" repo_id branch
                  (anchor_on message branch nc.node))
              (keep_if
                (λ nc.
                  not (is_skipped (methods_of repo_id branch) nc) && not (nc.node.node_id == ""))
                rows))
  unfolding run severity_valid
  run_untested repo_id branch file files rows tracked asked =
      rw (run, tracked, asked)
        (ap ok (
          report_lem derive_finding_id "untested-symbol" "low" repo_id branch refl refl
            (λ nc. anchor_on message branch nc.node) (is_skipped (methods_of repo_id branch)) rows))
