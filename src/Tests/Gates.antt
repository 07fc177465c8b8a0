-- ===== src/Tests/Gates.antt =====
-- The gates of clones, secrets, exported symbols and tests on small changes.
use veska.Common.{
  ℕ, ◌≡◌, ◌<◌, ◌⊎◌, refl, Bool, true, false, none, some, List, [], ◌∷◌, String, Result, ok,
  string_eq, contains, length, keep_if, sort_by, insert_by, All, arith,
}
use veska.Common.Dict.{Dict, lookup, insert}
use veska.Domain.Finding
use veska.Staging.Area
use veska.Staging.Area.{key_eq}
use veska.Coverage.{NodeRef}
use veska.DiffGate.Clones
use veska.DiffGate.Clones.Complete.{evaluate_clones, members_in}
use veska.DiffGate.Security
use veska.DiffGate.Exported
use veska.DiffGate.Untested
use veska.Tests.DiffGate.{candidate, dead}

-- The base has no node of the hash.
abbrev no_twins : Clones.HashLookup String
no_twins hash kinds = ok []

abbrev clone_verdict : Clones.CloneVerdict
clone_verdict = record { pass = true; checked = true; new_clones = [] }

clones-small : Clones.evaluate (some no_twins) ("a.go" ∷ []) candidate ≡ ok clone_verdict
unfolding Clones.evaluate Clones.new_groups Clones.put_files Clones.put_nodes Clones.add_overlay
    Clones.add_base Area.snapshot sort_by insert_by lookup insert contains
clones-small = refl

abbrev no_rows : List NodeRef
no_rows = []

evaluate_clones_example :
    length (
      Clones.after_members
        ("a.go" ∷ [])
        (members_in "h" (Area.snapshot candidate.repo_id candidate.branch candidate.overlay))
        no_rows)
    < 2
evaluate_clones_example =
    evaluate_clones no_twins ("a.go" ∷ []) candidate clone_verdict "h" no_rows clones-small refl
      refl (omega arith)

-- The manifest has the same content, and the same finding, at both refs.
abbrev same_content : Security.RefContent String
same_content path ref = ok (some (65 ∷ []))

abbrev one_dep : List ℕ → Result String (List String)
one_dep content = ok ("dep" ∷ [])

abbrev scan_one : String → List String → Result String (List Finding.Finding)
scan_one path deps = ok (dead ∷ [])

abbrev readers : Dict String (List ℕ → Result String (List String))
readers = ("go.mod", one_dep) ∷ []

abbrev no_findings : Result String (List Finding.Finding)
no_findings = ok []

abbrev security_verdict : Security.SecurityVerdict
security_verdict = record {
  pass = true;
  new_secret_leaks = [];
  new_vuln_deps = [];
  vuln_applicable = true;
  vuln_checked = true;
}

abbrev switched_on : Bool
switched_on = true

security-small :
    Security.evaluate same_content scan_one "base" "head" true readers no_findings
    ≡ ok security_verdict
unfolding Security.evaluate Security.scan_manifests keep_if sort_by insert_by contains
security-small = refl

evaluate_security_example :
    (no_findings ≡ ok [])
    × ((switched_on ≡ false)
        ⊎ All (λ p. Security.NothingNew same_content scan_one "base" "head" p.0 p.1) readers)
evaluate_security_example =
    Security.evaluate_security same_content scan_one "base" "head" switched_on readers no_findings
      security_verdict security-small refl

abbrev exported_at : String → String → Exported.ExportedSymbol
exported_at file name = record { node_id = "n"; file_path = file; kind = "function"; name = name }

abbrev same_dir : String → String
same_dir path = "pkg"

-- A move within a directory is no removal, a rename is one.
abbrev base_symbols : List Exported.ExportedSymbol
base_symbols = exported_at "pkg/a.go" "F" ∷ exported_at "pkg/a.go" "G" ∷ []

abbrev candidate_symbols : List Exported.ExportedSymbol
candidate_symbols = exported_at "pkg/b.go" "F" ∷ exported_at "pkg/a.go" "H" ∷ []

abbrev no_drift : List Exported.DriftedNode
no_drift = []

renamed : Exported.evaluate same_dir no_drift base_symbols candidate_symbols ≡ record {
  pass = false;
  breaking_changes = [];
  removed_symbols = Exported.to_removal (exported_at "pkg/a.go" "G") ∷ [];
}
unfolding Exported.evaluate keep_if sort_by insert_by contains
renamed = refl

abbrev changed_ids : List String
changed_ids = "n1" ∷ "n2" ∷ []

untested-small : Untested.evaluate changed_ids (some dead ∷ none ∷ []) ≡ record {
  pass = false;
  untested_changed = record { node_id = "n2"; message = dead.message } ∷ [];
}
unfolding Untested.evaluate Untested.intersect sort_by insert_by contains
untested-small = refl
