-- ===== src/Tests/ColdScan.antt =====
-- A cold scan of a small working tree.
use veska.Common.{
  ◌≡◌, refl, Bool, true, false, Option, none, some, [], ◌∷◌, ◌++◌, String, Result, ok, err, ◌==◌,
  string_eq, contains, if◌then◌else◌,
}
use veska.Common.Dict.{lookup, insert, delete, delete_if}
use veska.ScanTracker.{start, progress, set_phase, end_scan, update, new_scan_tracker}
use veska.ColdScan
use veska.ColdScan.Walk

abbrev go_files : ColdScan.Config
go_files = record {
  repo_id = "r";
  branch = "main";
  should_ignore = λ path. false;
  extensions = ".go" ∷ [];
  extension = λ name. if name == "a.go" then ".go" else "";
}

abbrev no_vendor : String → Bool
no_vendor path = path == "vendor/"

-- A source file, a binary one, and an ignored directory.
abbrev small_tree : ColdScan.Tree String
small_tree = ColdScan.file "a.go" true (some (65 ∷ [])) (
    ColdScan.file "go.mod" true (some (0 ∷ [])) (
      ColdScan.dir "pkg" (ColdScan.file "a.go" true (some (66 ∷ [])) ColdScan.done) (
        ColdScan.dir "vendor" (ColdScan.file "a.go" true (some (67 ∷ [])) ColdScan.done)
          ColdScan.done)))

abbrev idle : ColdScan.Scan
idle = record { log = []; tracker = new_scan_tracker; files_saved = 0 }

abbrev scanned : ColdScan.Scan
scanned = record {
  log =
      ColdScan.saved "r" "main" "a.go" (65 ∷ [])
      ∷ ColdScan.saved "r" "main" "pkg/a.go" (66 ∷ [])
      ∷ ColdScan.promoted "r" "main" "c1" ColdScan.cold_scan_actor
      ∷ [];
  tracker = [];
  files_saved = 2;
}

abbrev no_error : Option String
no_error = none

run_cold_scan-small_tree :
    ColdScan.run_cold_scan go_files 5 (ok "c1") (ok no_vendor) small_tree no_error idle
    ≡ (scanned, none)
unfolding ColdScan.run_cold_scan ColdScan.walk_phase ColdScan.walk_and_save ColdScan.staged_source
    contains start progress set_phase end_scan update lookup insert delete delete_if
run_cold_scan-small_tree = refl

run_cold_scan_lem_example :
    (sha : String) × (ignore : String → Bool) × (◌≡◌ {A = Result String String} (ok "c1") (ok sha))
    × (◌≡◌ {A = Result String (String → Bool)} (ok no_vendor) (ok ignore))
    × (scanned.log
        ≡ []
          ++ (Walk.eligible (record go_files { should_ignore = ignore }) "" small_tree
              ++ ColdScan.promoted "r" "main" sha ColdScan.cold_scan_actor ∷ []))
run_cold_scan_lem_example =
    Walk.run_cold_scan_lem go_files 5 (ok "c1") (ok no_vendor) small_tree no_error idle scanned
      run_cold_scan-small_tree

abbrev repo_name : String
repo_name = "r"

abbrev no_head : Result String String
no_head = err "no HEAD"
