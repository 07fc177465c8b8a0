-- ===== src/Tests/Services.antt =====
-- The symbol diff, the scan tracker, the sweep of stale findings and the retention sweep on small inputs.
use veska.Common.{
  ◌≡◌, refl, true, false, not, ◌&&◌, none, some, List, [], ◌∷◌, String, Result, ok, ◌==◌, string_eq,
  contains, length, sort_by, pos, All, take,
}
use veska.Common.Dict.{lookup, insert, is_present}
use veska.Domain.Node.{Node}
use veska.ChangedSymbols
use veska.ChangedSymbols.Classes
use veska.ScanTracker
use veska.Backup
use veska.Backup.Retention
use veska.Queue.{Row, in_progress}
use veska.Revalidate.{refresh, close, decide}
use veska.Revalidate.Sweep
use veska.Tests.Domain.{main_node}

abbrev digest : String → String
digest s = s

abbrev renamed : Node
renamed = record main_node { name = "Run" }

abbrev edited : Node
edited = record main_node { content_hash = some "other" }

abbrev main_key : String
main_key = "a.go::Main"

classify_file_lem_example :
    let a = ChangedSymbols.keyed (main_node ∷ []) [] in
    let b = ChangedSymbols.keyed (edited ∷ renamed ∷ []) [] in
    let res = ChangedSymbols.classify_file digest "a.go" a b ChangedSymbols.no_changes in
    (contains (Classes.paths res.added) main_key
      ≡ (is_present (lookup main_key b) && not (is_present (lookup main_key a))))
    × (contains (Classes.paths res.removed) main_key
        ≡ (is_present (lookup main_key a) && not (is_present (lookup main_key b))))
    × (contains (Classes.paths res.modified) main_key
        ≡ Classes.differ digest (lookup main_key a) (lookup main_key b))
classify_file_lem_example =
    Classes.classify_file_lem digest "a.go" main_key (main_node ∷ []) (edited ∷ renamed ∷ [])

-- One symbol is edited, and one is new.
abbrev file_nodes : List Node
file_nodes = edited ∷ renamed ∷ []

abbrev all_files : String → String → Result String (List String)
all_files a b = ok ("a.go" ∷ [])

abbrev read_text : String → String → Result ChangedSymbols.ReadError String
read_text ref path = elim (ref == "old") [ true ↦ ok "one" | false ↦ ok "two" ]

abbrev parse_text : String → String → Result String (List Node)
parse_text path content = elim (content == "one") [
  | true ↦ ok (main_node ∷ [])
  | false ↦ ok file_nodes
]

abbrev shown : ChangedSymbols.SymbolDiff
shown = record {
  added = ChangedSymbols.to_change "a.go" renamed ChangedSymbols.added_symbol ∷ [];
  removed = [];
  modified = ChangedSymbols.to_change "a.go" edited ChangedSymbols.modified_symbol ∷ [];
  degraded_reasons = [];
}

diff_old_new : ChangedSymbols.diff digest all_files read_text parse_text "old" "new" ≡ ok shown
unfolding ChangedSymbols.diff ChangedSymbols.parse_at_ref ChangedSymbols.keyed
    ChangedSymbols.symbol_key ChangedSymbols.classify_file ChangedSymbols.classify_new
    ChangedSymbols.classify_gone ChangedSymbols.compare_symbol ChangedSymbols.compare_gone
    ChangedSymbols.content_hash ChangedSymbols.with_reasons ChangedSymbols.sort_changes lookup
    insert sort_by
diff_old_new = refl

diff_old_old :
    ChangedSymbols.diff digest all_files read_text parse_text "old" "old"
    ≡ ok (record ChangedSymbols.no_changes { degraded_reasons = "non_symbol_changes_only" ∷ [] })
unfolding ChangedSymbols.diff ChangedSymbols.parse_at_ref ChangedSymbols.keyed
    ChangedSymbols.symbol_key ChangedSymbols.classify_file ChangedSymbols.classify_new
    ChangedSymbols.classify_gone ChangedSymbols.compare_symbol ChangedSymbols.compare_gone
    ChangedSymbols.content_hash ChangedSymbols.with_reasons ChangedSymbols.sort_changes lookup
    insert sort_by
diff_old_old = refl

abbrev unchanged : ChangedSymbols.SymbolDiff
unchanged = record ChangedSymbols.no_changes { degraded_reasons = "non_symbol_changes_only" ∷ [] }

abbrev scan_ops : List ScanTracker.Op
scan_ops =
    ScanTracker.do_start "r" 3
    ∷ ScanTracker.do_end "r"
    ∷ ScanTracker.do_progress "r" (pos 1) (pos 2)
    ∷ []

abbrev scanned : String
scanned = "r"

abbrev keep_one : Backup.PruneOptions
keep_one = record { keep_min_count = 1; max_age = 5; now = 20 }

-- The oldest backup goes, and other files are no backups.
abbrev backups : List Backup.DirEntry
backups =
    record { name = "veska-backup-1.tar.gz"; is_dir = false; mod_time = some 2 }
    ∷ record { name = "notes.txt"; is_dir = false; mod_time = none }
    ∷ record { name = "veska-backup-2.tar.gz"; is_dir = false; mod_time = some 1 }
    ∷ []

prune-backups :
    Backup.prune Retention.none_fail (ok backups) keep_one
    ≡ (record { deleted = "veska-backup-1.tar.gz" ∷ []; kept = 1 }, none)
unfolding Backup.prune sort_by
prune-backups = refl

abbrev backup_files : List Backup.BackupFile
backup_files =
    record { name = "veska-backup-1.tar.gz"; mod_time = 2 }
    ∷ record { name = "veska-backup-2.tar.gz"; mod_time = 1 }
    ∷ []

collect-backups : Backup.collect backups ≡ ok backup_files
unfolding Backup.collect
collect-backups = refl

prune_lem_example :
    let sorted = Retention.sorted backup_files in
    let left = Retention.survivors keep_one 1 sorted in
    (Backup.prune Retention.none_fail (ok backups) keep_one ≡ (
      record { deleted = Retention.names (Retention.doomed keep_one 1 sorted); kept = length left },
      none,
    ))
    × All (Retention.IsExpired keep_one (take 1 sorted)) (Retention.doomed keep_one 1 sorted)
    × (Backup.sweep Retention.none_fail keep_one 0 left Backup.nothing_pruned
        ≡ (record { deleted = []; kept = length left }, none))
prune_lem_example = Retention.prune_lem keep_one backups backup_files collect-backups

-- One dead symbol that has a caller again, and one that has none.
abbrev two_stale : Sweep.RevalidateQuerier String
two_stale = record {
  stale_findings_for_file = λ path. ok (
      record {
        finding_id = "f1";
        node_id = "n1";
        rule = "dead-code";
        anchor_hash = "h";
        current_hash = "k";
      }
      ∷ record {
        finding_id = "f2";
        node_id = "n2";
        rule = "dead-code";
        anchor_hash = "h";
        current_hash = "k";
      }
      ∷ []);
  predicates = record {
    has_inbound_call_edges = λ id. ok (id == "n1");
    node_signature_pair = λ id. ok ("", "");
    has_test_caller = λ id. ok false;
  };
  apply_decisions = λ ds. none;
}

abbrev sweep_row : Row
sweep_row = record {
  seq = 1;
  promotion_id = "p";
  repo_id = "r";
  branch = "main";
  git_sha = "c1";
  kind = "revalidate";
  payload = "a.go";
  state = in_progress;
  attempts = 1;
  enqueued_at = 1;
  available_at = 1;
  completed_at = none;
  error = none;
}

abbrev no_sweeps : Sweep.Swept
no_sweeps = record { applied = []; refreshed = 0; closed = 0 }

handle-two_stale : Sweep.handle two_stale sweep_row no_sweeps ≡ (
  record {
    applied =
        (record { finding_id = "f1"; kind = close; new_hash = "" }
          ∷ record { finding_id = "f2"; kind = refresh; new_hash = "k" }
          ∷ [])
        ∷ [];
    refreshed = 1;
    closed = 1;
  },
  none,
)
unfolding Sweep.handle Sweep.decide_all decide
handle-two_stale = refl

handle-Outcome_example :
    Sweep.Outcome two_stale sweep_row no_sweeps
      (Sweep.handle two_stale sweep_row no_sweeps).0
      (Sweep.handle two_stale sweep_row no_sweeps).1
handle-Outcome_example = Sweep.handle-Outcome two_stale sweep_row no_sweeps
