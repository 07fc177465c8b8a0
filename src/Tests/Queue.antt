-- ===== src/Tests/Queue.antt =====
-- A queue of three rows, and a handler that never succeeds.
use veska.Common.{
  ℕ, ◌<◌, ◌≡◌, refl, false, ◌||◌, none, some, List, [], ◌∷◌, map, String, string_eq, nat_eq,
  if◌then◌else◌, arith, All, get_elem?,
}
use veska.Common.Dict.{is_present}
use veska.Queue.{
  Row, State, pending, in_progress, failed, Answer, succeeded, failed_with, fetch_pending,
  no_faults, process_one, process_row, update_seq, affects, claim, record_answer,
}
use veska.Queue.Rows
use veska.Queue.Drain

abbrev row : ℕ → String → State → ℕ → Row
row seq kind state attempts = record {
  seq = seq;
  promotion_id = "p";
  repo_id = "r";
  branch = "main";
  git_sha = "c0";
  kind = kind;
  payload = "";
  state = state;
  attempts = attempts;
  enqueued_at = 0;
  available_at = 10;
  completed_at = none;
  error = none;
}

abbrev table : List Row
table = row 1 "embed" in_progress 1 ∷ row 2 "fts" pending 0 ∷ row 3 "embed" pending 2 ∷ []

abbrev refuse : Row → Answer
refuse r = failed_with "offline"

table-DistinctSeq : Rows.DistinctSeq table
table-DistinctSeq = ground arith

table-RowValid : All Rows.RowValid table
table-RowValid = ground arith

-- The third attempt of the only ready row fails: the row is failed for good.
last_attempt :
    map (λ r. r.state) (process_one no_faults refuse 20 "embed" 20 table).0
    ≡ in_progress ∷ pending ∷ failed ∷ []
unfolding process_one process_row fetch_pending update_seq affects claim record_answer
last_attempt = refl

process_one-replace_first_example : process_one no_faults refuse 20 "embed" 20 table ≡ (
    if no_faults.fetch || no_faults.claiming then (table, false) else (
      Rows.replace_first no_faults refuse 20 "embed" 20 table,
      is_present (fetch_pending "embed" 20 table),
    ))
process_one-replace_first_example =
    Rows.process_one-replace_first no_faults refuse 20 "embed" 20 table table-DistinctSeq

process_one-RowValid_example :
    All Rows.RowValid (process_one no_faults refuse 20 "embed" 20 table).0
process_one-RowValid_example =
    Rows.process_one-RowValid no_faults refuse 20 "embed" 20 table table-DistinctSeq table-RowValid

process_one-settled_example :
    get_elem? (process_one no_faults refuse 20 "embed" 20 table).0 0
    ≡ some (row 1 "embed" in_progress 1)
process_one-settled_example =
    Rows.process_one-settled no_faults refuse 20 "embed" 20 table 0 (row 1 "embed" in_progress 1)
      table-DistinctSeq refl (λ e. cc)

work_left : Drain.work refuse "embed" 20 table < 2
unfolding Drain.work
work_left = omega arith

drain_ends_example :
    (rows : List Row) × (Drain.drain refuse "embed" 20 2 table ≡ some rows)
    × (fetch_pending "embed" 20 rows ≡ none)
    × All Rows.RowValid rows
drain_ends_example =
    Drain.drain_ends refuse "embed" 20 2 table table-DistinctSeq table-RowValid work_left

succeed_left : Drain.work (λ r. succeeded) "embed" 20 table < 2
unfolding Drain.work
succeed_left = omega arith

drain_marks_done_example :
    Drain.drain (λ r. succeeded) "embed" 20 2 table ≡ some (map (Drain.finished "embed" 20) table)
drain_marks_done_example =
    Drain.drain_marks_done "embed" 20 2 table table-DistinctSeq table-RowValid succeed_left
