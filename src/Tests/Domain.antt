-- ===== src/Tests/Domain.antt =====
-- The domain types on concrete values: a small function, a call edge, findings and tasks.
use veska.Common.{
  Bool, ℕ, zero, suc, ◌≡◌, refl, ◌↔◌, true, false, none, some, List, [], ◌∷◌, String, ok, err,
  contains, pos, string_eq,
}
use veska.Common.Dict.{lookup, insert}
use veska.Domain.Actor.{human, agent, is_actor_kind}
use veska.Domain.Node
use veska.Domain.Node.Validity
use veska.Domain.Edge
use veska.Domain.Finding
use veska.Domain.Finding.Lifecycle
use veska.Domain.TaskSet
use veska.Domain.TaskSet.Active
use veska.Domain.Graph
use veska.Domain.Graph.Projection
use veska.Domain.Suppression

abbrev digest : String → String
digest s = s

abbrev main_spec : Node.NodeSpec
main_spec = record { id = "n1"; path = "a.go"; name = "Main"; kind = "function" }

abbrev main_options : List Node.NodeOption
main_options =
    Node.with_signature "func Main()"
    ∷ Node.with_lines (record { start = pos 3; end = pos 7 })
    ∷ Node.with_raw_content "body"
    ∷ []

abbrev pub main_node : Node.Node
main_node = record {
  id = "n1";
  path = "a.go";
  name = "Main";
  kind = "function";
  signature = some "func Main()";
  lines = some (record { start = pos 3; end = pos 7 });
  raw_content = some "body";
  content_hash = some "body";
  structural_hash = none;
  language = none;
  exported = none;
  external = none;
  short_summary = none;
}

new_node_main : Node.new_node digest main_spec main_options ≡ ok main_node
unfolding Node.new_node Node.apply_options Node.apply_option contains
new_node_main = refl

new_node-IsValid_example : Validity.IsValid digest main_node
new_node-IsValid_example =
    Validity.new_node-IsValid digest main_spec main_options main_node new_node_main

-- A line range that ends before it starts is refused.
new_node_bad_lines :
    Node.new_node digest main_spec (Node.with_lines (record { start = pos 9; end = pos 4 }) ∷ [])
    ≡ err (Node.start_after_end (record { start = pos 9; end = pos 4 }))
unfolding Node.new_node Node.apply_options Node.apply_option contains
new_node_bad_lines = refl

abbrev join_id : String → String → String → String
join_id src kind tgt = src

abbrev call_spec : Edge.EdgeSpec
call_spec = record { src = "n1"; tgt = "n2"; kind = "CALLS" }

abbrev call_options : List (Edge.EdgeOption ℕ)
call_options = Edge.with_confidence (pos 2) ∷ Edge.with_source_line (pos 5) ∷ []

abbrev pub call_edge : Edge.Edge ℕ
call_edge = record {
  id = "n1";
  src = "n1";
  tgt = "n2";
  kind = "CALLS";
  confidence = pos 2;
  resolved = true;
  source_line = some (pos 5);
  score = none;
}

new_edge_call : Edge.new_edge join_id call_spec call_options ≡ ok call_edge
unfolding Edge.new_edge Edge.apply_options Edge.apply_option contains
new_edge_call = refl

abbrev pub todo_spec : Finding.FindingSpec
todo_spec = record {
  repo_id = "r";
  branch = "main";
  severity = "high";
  layer = "structural";
  rule = "todo";
  message = "m";
}

abbrev other_spec : Finding.FindingSpec
other_spec = record todo_spec { branch = "dev"; severity = "low"; message = "n" }

abbrev todo_finding : Finding.Finding
todo_finding = record (Finding.blank todo_spec) { file_path = some "a.go"; finding_id = "todo" }

abbrev other_finding : Finding.Finding
other_finding = record (Finding.blank other_spec) { file_path = some "a.go"; finding_id = "todo" }

abbrev on_file : List Finding.FindingOption
on_file = Finding.with_file_anchor "a.go" ∷ []

new_finding_todo : Finding.new_finding join_id todo_spec on_file ≡ ok todo_finding
unfolding Finding.new_finding Finding.apply_options Finding.apply_option Finding.severity_valid
    contains lookup
new_finding_todo = refl

new_finding_other : Finding.new_finding join_id other_spec on_file ≡ ok other_finding
unfolding Finding.new_finding Finding.apply_options Finding.apply_option Finding.severity_valid
    contains lookup
new_finding_other = refl

known : (Finding.severity_valid "high" ≡ true) × (Finding.layer_valid "structural" ≡ true)
unfolding Finding.severity_valid contains lookup
known = (refl, refl)

new_finding_both_anchors_example :
    (f : Finding.Finding) × (Finding.new_finding join_id todo_spec
        (Finding.with_node_anchor "n1" ∷ Finding.with_file_anchor "a.go" ∷ [])
      ≡ ok f)
    × (f.node_id ≡ some "n1")
    × (f.file_path ≡ some "a.go")
new_finding_both_anchors_example =
    Lifecycle.new_finding_both_anchors join_id todo_spec "n1" "a.go" (λ e. cc) known.0 known.1
      (λ e. cc) (λ e. cc)

abbrev todo_closed : Finding.Finding
todo_closed = Lifecycle.closed_by todo_finding "fixed" human "jo" 12

close_todo : Finding.close todo_finding "fixed" human "jo" 12 ≡ ok todo_closed
unfolding Finding.close Finding.at_least is_actor_kind contains lookup
close_todo = refl

close_iff_example : (Finding.close todo_finding "fixed" human "jo" 12 ≡ ok todo_closed) ↔ (
    Lifecycle.CanClose todo_finding "fixed" human "jo"
    × (todo_closed ≡ Lifecycle.closed_by todo_finding "fixed" human "jo" 12))
close_iff_example = Lifecycle.close_iff todo_finding "fixed" human "jo" 12 todo_closed

-- An agent cannot close a finding of high severity.
close_by_agent : Finding.close todo_finding "fixed" agent "bot" 12 ≡ err Finding.human_required
unfolding Finding.close Finding.at_least is_actor_kind contains lookup
close_by_agent = refl

-- Two active tasks of one repository, and one idle.
abbrev task : String → Bool → TaskSet.Task
task id active = record {
  id = id;
  repo_id = "r";
  tracker = none;
  tracker_ref = none;
  title = "a";
  active = active;
  created_at = 1;
}

-- An active task built by NewTask.
new_task_first :
    TaskSet.new_task 1 (record { id = "t0"; repo_id = "r"; title = "a" }) (TaskSet.with_active ∷ [])
    ≡ ok (task "t0" true)
unfolding TaskSet.new_task TaskSet.apply_options TaskSet.apply_option
new_task_first = refl

abbrev task_store : TaskSet.Store
task_store zero = task "t0" true
task_store (suc zero) = task "t1" true
task_store _ = task "t2" false

abbrev one_task : TaskSet.TaskSet
one_task = record { tasks = ("t0", 0) ∷ []; active_by_repo = ("r", 0) ∷ [] }

empty-IsConsistent : Active.IsConsistent task_store TaskSet.new_task_set
unfolding lookup
empty-IsConsistent = record { own_key = λ k p h. cc; known = λ k p h a. cc }

add_first : TaskSet.add (some 0) task_store TaskSet.new_task_set ≡ ok one_task
unfolding TaskSet.add lookup insert
add_first = refl

-- A second active task of the repository is refused.
add_second : TaskSet.add (some 1) task_store one_task ≡ err TaskSet.duplicate_active_task
unfolding TaskSet.add lookup
add_second = refl

one_task-IsConsistent : Active.IsConsistent task_store one_task
one_task-IsConsistent =
    Active.add-IsConsistent (some 0) task_store TaskSet.new_task_set one_task empty-IsConsistent
      add_first

one_active_example : ◌≡◌ {A = ℕ} 0 0
unfolding lookup
one_active_example =
    Active.one_active task_store one_task one_task-IsConsistent "t0" "t0" 0 0 refl refl refl refl
      refl

-- A graph of two nodes and the call between them.
abbrev callee : Node.Node
callee = record main_node { id = "n2" }

abbrev two_nodes : Graph.Graph
two_nodes = record {
  repo_id = "r";
  branch = "main";
  nodes = ("n1", main_node) ∷ ("n2", callee) ∷ [];
  outgoing = [];
  incoming = [];
}

abbrev one_node : Graph.Graph
one_node = record two_nodes { nodes = ("n1", main_node) ∷ [] }

abbrev called : Graph.Graph
called = record two_nodes {
  outgoing = ("n1", call_edge ∷ []) ∷ [];
  incoming = ("n2", call_edge ∷ []) ∷ [];
}

one_node-IsProjection : Projection.IsProjection one_node
unfolding Graph.outgoing_edges Graph.incoming_edges lookup
one_node-IsProjection = record { sources = λ id. tt; targets = λ id. tt; agree = λ src tgt. refl }

add_node_second : Graph.add_node (some callee) one_node ≡ ok two_nodes
unfolding Graph.add_node lookup insert
add_node_second = refl

two_nodes-IsProjection : Projection.IsProjection two_nodes
two_nodes-IsProjection =
    (Projection.add_node_lem callee one_node two_nodes main_node.id one_node-IsProjection
      add_node_second).0

add_edge_call : Graph.add_edge (some call_edge) two_nodes ≡ ok called
unfolding Graph.add_edge lookup insert
add_edge_call = refl

abbrev mute_spec : Suppression.SuppressionSpec
mute_spec = record {
  id = "s";
  scope = "file";
  target = "a.go";
  reason = "noise";
  actor_id = "jo";
  actor_kind = human;
  created_at = 5;
}

abbrev muted : Suppression.Suppression
muted = record (Suppression.unrestricted mute_spec) { rule = some "todo"; expires_at = some 9 }

new_suppression-muted :
    Suppression.new_suppression mute_spec
      (Suppression.with_suppression_rule "todo" ∷ Suppression.with_expires_at 9 ∷ [])
    ≡ ok muted
unfolding Suppression.new_suppression Suppression.apply_options Suppression.apply_option
    is_actor_kind contains
new_suppression-muted = refl
