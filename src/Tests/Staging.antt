-- ===== src/Tests/Staging.antt =====
-- The staging area and its gate with one staged file and one save.
use veska.Common.{
  ◌≡◌, ◌≢◌, refl, Option, none, some, List, [], ◌∷◌, ◌++◌, String, string_eq, nat_eq, arith,
}
use veska.Common.Dict.{delete_if, lookup}
use veska.Staging.Area
use veska.Staging.Area.{key_eq}
use veska.Staging.Gate
use veska.Staging.Gate.Interleaving

abbrev file_key : Area.Key
file_key = record { repo_id = "r"; branch = "main"; file_path = "a.go" }

abbrev dev_key : Area.Key
dev_key = record file_key { branch = "dev" }

abbrev some_file : Area.File
some_file = record { nodes = none ∷ []; edges = []; unresolved_calls = []; imports = [] }

abbrev two_branches : Area.Area
two_branches = (file_key, Area.entry_of some_file) ∷ (dev_key, Area.entry_of some_file) ∷ []

-- Clearing one branch keeps the other.
clear_main : Area.staged_files "r" "dev" (Area.clear "r" "main" two_branches) ≡ "a.go" ∷ []
unfolding Area.staged_files Area.clear delete_if
clear_main = refl

abbrev before_check : Interleaving.World
before_check = record { area = two_branches; gate = Gate.new_gate; pc = Interleaving.loaded 0 }

abbrev late_schedule : List Interleaving.Action
late_schedule =
    Interleaving.do_resume
    ∷ Interleaving.save_step
    ∷ Interleaving.save_step
    ∷ Interleaving.other_write dev_key some_file
    ∷ []

stale_save_kept_out_example :
    lookup file_key
      (Interleaving.run file_key some_file
        (Interleaving.switch_to_clear file_key ++ late_schedule)
        before_check).area
    ≡ none
stale_save_kept_out_example =
    Interleaving.stale_save_kept_out file_key some_file late_schedule before_check (omega arith)
      refl (omega arith) refl

abbrev at_gate : Interleaving.World
at_gate = record { area = []; gate = Gate.new_gate; pc = Interleaving.waiting }

late_write_escapes_example :
    (lookup file_key
        (Interleaving.run file_key some_file
          (Interleaving.save_step
            ∷ Interleaving.save_step
            ∷ Interleaving.save_step
            ∷ (Interleaving.switch_to_clear file_key
                ++ Interleaving.do_resume ∷ Interleaving.save_step ∷ []))
          at_gate).area
      ≡ some (Area.entry_of some_file))
    × ((Interleaving.run file_key some_file
          (Interleaving.save_step
            ∷ Interleaving.save_step
            ∷ Interleaving.save_step
            ∷ (Interleaving.switch_to_clear file_key
                ++ Interleaving.do_resume ∷ Interleaving.save_step ∷ []))
          at_gate).gate.gen
        ≢ 0)
late_write_escapes_example =
    Interleaving.late_write_escapes file_key some_file at_gate (omega arith) refl refl

abbrev paused_world : Interleaving.World
paused_world = record at_gate { gate = Gate.pause Gate.new_gate }

abbrev drain_error : Option String
drain_error = some "drain"
