-- ===== src/Checks/DeadCode.antt =====
-- internal/application/checks/deadcode.go: the findings on nodes that nothing calls. The queries are
-- parameters that may fail, and so are the wording of a message and the test for a capital letter.
use Prim.Native.String.{char_at}
use Prim.Native.Char.{Char, code}
use veska.Common.{
  ◌≡◌, refl, ap, Bool, false, not, ◌&&◌, ◌||◌, Option, none, some, List, [], ◌∷◌, map, String,
  Result, ok, err, ◌==◌, string_eq, nat_eq, if◌then◌else◌, keep_if, contains,
}
use veska.Domain.Finding.{Finding, severity_valid}
use veska.PathFilter.{is_test_file, is_vendored, has_prefix}
use veska.Coverage.{NodeRef}
use veska.Checks.{Anchor, is_ephemeral, names_or_none, report, report_lem, finding_on}

abbrev pub dead_code_kinds : List String
dead_code_kinds = "function" ∷ "method" ∷ "class" ∷ []

abbrev pub is_dead_code_candidate : NodeRef → Bool
is_dead_code_candidate n = contains dead_code_kinds n.kind

-- What follows the last dot, if there is one.
unfoldable pub after_dot : String → Option String
after_dot String.[] = none
after_dot (String.◌∷◌ c s) = elim (after_dot s) [
  | some suffix ↦ some suffix
  | none ↦ if code c == 46 then some s else none
]

abbrev suffix_in : List String → Option String → Bool
suffix_in methods none = false
suffix_in methods (some suffix) = not (suffix == "") && contains methods suffix

abbrev pub is_interface_method_impl : String → List String → Bool
is_interface_method_impl name methods = suffix_in methods (after_dot name)

abbrev pub anchor_on : (String → String → String → String) → String → NodeRef → Anchor
anchor_on message branch n = record {
  node_id = n.node_id;
  content_hash = n.content_hash;
  message = message n.name n.file_path branch;
}

module _ (is_upper : Char → Bool) where
  abbrev pub is_external_entry : NodeRef → Bool
  is_external_entry n =
      n.name == ""
      || (n.name == "main" || n.name == "init")
      || (has_prefix n.name "Test" || has_prefix n.name "Example" || has_prefix n.name "Benchmark")
      || (not (code (char_at n.name 0) == 65533) && is_upper (char_at n.name 0))

  -- Whether the loop skips a node.
  abbrev pub is_skipped : List String → NodeRef → Bool
  is_skipped methods n =
      not (is_dead_code_candidate n)
      || is_external_entry n
      || is_test_file n.file_path
      || is_vendored n.file_path
      || (n.kind == "method" && is_interface_method_impl n.name methods)

  module _ {ℓ} {E : Type ℓ} (derive_finding_id message : String → String → String → String)
      (repo_kind : Option (String → Result E String))
      (dead_nodes_in_files : String → String → List String → Result E (List NodeRef))
      (interface_method_names : String → String → Result E (List String)) where
    abbrev kind_of : String → Option (Result E String)
    kind_of repo_id = elim repo_kind [ none ↦ none | some f ↦ some (f repo_id) ]

    abbrev reported : String → String → Result E (List NodeRef) → Result E (List Finding)
    reported repo_id branch (err e) = err e
    reported repo_id branch (ok dead) =
        let methods = names_or_none (interface_method_names repo_id branch) in
        ok (
          report derive_finding_id "dead-code" "low" repo_id branch (anchor_on message branch)
            (is_skipped methods) dead)

    unfoldable pub run : String → String → List String → Result E (List Finding)
    run repo_id branch [] = ok []
    run repo_id branch (f ∷ files) =
        if is_ephemeral (kind_of repo_id)
        then ok []
        else reported repo_id branch (dead_nodes_in_files repo_id branch (f ∷ files))

    -- On a repository that is not known as ephemeral the check reports, in the order of the query, one
    -- finding for each dead node with an id that no filter skips, and no others; when the names of the
    -- interface methods cannot be read, none are assumed.
    pub run_dead_code :
        (repo_id branch file : String) (files : List String) (dead : List NodeRef)
        → is_ephemeral (kind_of repo_id) ≡ false
        → dead_nodes_in_files repo_id branch (file ∷ files) ≡ ok dead
        → run repo_id branch (file ∷ files)
          ≡ ok (
              map
                (λ n.
                  finding_on derive_finding_id "dead-code" "low" repo_id branch
                    (anchor_on message branch n))
                (keep_if
                  (λ n.
                    not (is_skipped (names_or_none (interface_method_names repo_id branch)) n)
                    && not (n.node_id == ""))
                  dead))
    unfolding run severity_valid
    run_dead_code repo_id branch file files dead tracked asked =
        rw (run, tracked, asked)
          (ap ok (
            report_lem derive_finding_id "dead-code" "low" repo_id branch refl refl
              (anchor_on message branch)
              (is_skipped (names_or_none (interface_method_names repo_id branch))) dead))
