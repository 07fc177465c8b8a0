-- ===== src/Tests/DiffGate.antt =====
-- The diff gate on a candidate that calls a dead symbol from a new function.
use veska.Common.{
  ◌≡◌, ◌↔◌, refl, true, false, not, ◌&&◌, none, some, List, [], ◌∷◌, String, Result, ok, ◌==◌,
  string_eq, if◌then◌else◌, contains, arith, sort_by, keep_if,
}
use veska.Common.Dict.{lookup, insert}
use veska.Domain.Finding
use veska.Staging.Area
use veska.Staging.Area.{key_eq}
use veska.Staging.Area.Laws.{key_at}
use veska.Blast.Query.{BlastError}
use veska.DiffGate.Guard
use veska.DiffGate.Guard.Fixpoint
use veska.DiffGate.Guard.Verdict
use veska.DiffGate.Guard.Coverage
use veska.DiffGate.Verify
use veska.DiffGate.Gate
use veska.DiffGate.Gate.Passing
use veska.Revalidate.{decide}
use veska.Tests.Domain.{main_node, call_edge, todo_spec}

abbrev pub staged : Area.Entry
staged = record {
  nodes = some main_node ∷ [];
  edges = some call_edge ∷ [];
  unresolved = [];
  imports = [];
}

abbrev pub candidate : Guard.Ephemeral
candidate = record {
  repo_id = "r";
  branch = "main";
  overlay = (key_at "r" "main" "a.go", staged) ∷ [];
}

abbrev no_callers : String → Result String (List String)
no_callers id = ok []

abbrev itself : String → Result (BlastError String) Guard.Radius
itself id = ok (record { node_ids = id ∷ []; truncated = false })

abbrev all_new : List String → Result (BlastError String) (List String)
all_new ids = ok []

abbrev no_hasher : Guard.Hasher (BlastError String)
no_hasher = none

abbrev pub dead : Finding.Finding
dead = record (Finding.blank todo_spec) {
  node_id = some "n2";
  rule = "dead-code";
  finding_id = "f";
}

abbrev discovery : Verify.Discovery
discovery = record { ran = true; base_ids = "f" ∷ []; candidate_ids = "f" ∷ []; covered_rules = [] }

abbrev inside : Guard.ScopeVerdict
inside = record { contained = true; anchor_node_id = "n2"; offending = []; truncated = false }

abbrev verified : Verify.VerifyVerdict
verified = record {
  rule = "dead-code";
  resolution_checked = true;
  target_resolved = true;
  new_findings_checked = true;
  new_findings = [];
  new_findings_covered_rules = [];
}

abbrev passing : Gate.GateVerdict
passing = record { pass = true; failures = []; verify = verified; scope = inside }

check-candidate : Guard.check itself all_new no_hasher candidate "n2" ≡ ok inside
unfolding Guard.check Guard.changed_node_ids Guard.new_nodes Guard.admit_new_wired Guard.admit
    Guard.admit_round Guard.meets Guard.add_files Guard.add_edges Guard.append_at contains lookup
    insert sort_by Area.snapshot keep_if
check-candidate = refl

resolve-dead : Verify.resolve no_callers candidate dead ≡ ok (true, true)
unfolding Verify.resolve Verify.has_inbound_call_edges Verify.overlay_calls Verify.any_call decide
    contains lookup insert Area.snapshot
resolve-dead = refl

evaluate-candidate :
    Gate.evaluate no_callers itself all_new no_hasher candidate dead discovery ≡ ok passing
unfolding Gate.evaluate Verify.verify Verify.fresh_findings sort_by contains
evaluate-candidate = rw (resolve-dead, check-candidate) refl

abbrev listed : String
listed = "f"

pass_means_example :
    (id : String) × (dead.node_id ≡ some id)
    × (dead.rule ≡ "dead-code")
    × (Verify.has_inbound_call_edges no_callers candidate id ≡ ok true)
    × (discovery.ran ≡ true)
    × ((contains discovery.candidate_ids listed
          && (not (listed == "") && not (contains discovery.base_ids listed)))
        ≡ false)
    × (Guard.check itself all_new no_hasher candidate id ≡ ok inside)
    × (inside.contained ≡ true)
pass_means_example =
    Passing.pass_means no_callers itself all_new no_hasher candidate dead discovery passing listed
      evaluate-candidate refl

abbrev anchor : String
anchor = "n2"

staged_at : lookup (key_at "r" "main" "a.go") candidate.overlay ≡ some staged
unfolding lookup
staged_at = refl

contained_is_safe_example :
    (r : Guard.Radius) × (news : List String) × (itself "n2" ≡ ok r)
    × (Guard.new_nodes all_new (Guard.changed_node_ids no_hasher candidate) ≡ ok news)
    × Verdict.Allowed candidate news "n2" r.node_ids main_node.id
contained_is_safe_example =
    Coverage.contained_is_safe itself all_new no_hasher candidate "n2" inside "a.go" staged 0
      main_node check-candidate refl staged_at refl (λ (f, h, e, c, k, n). cc) (λ e. cc)

abbrev line : String → List String
line x = if x == "a" then "b" ∷ [] else if x == "b" then "c" ∷ [] else []

admit_lem_example :
    (grown : List String) × (Guard.admit line 3 ("a" ∷ "b" ∷ []) ("c" ∷ []) ≡ some grown)
    × ((x : String) → (contains grown x ≡ true) ↔ Fixpoint.Wired line ("a" ∷ "b" ∷ []) ("c" ∷ []) x)
admit_lem_example = Fixpoint.admit_lem line ("a" ∷ "b" ∷ []) ("c" ∷ []) 3 (omega arith)
