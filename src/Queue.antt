-- ===== src/Queue.antt =====
-- internal/infrastructure/sqlite/queue/queue.go and internal/core/ports/queue.go: the poller of the
-- post-promotion work queue. The table is a list of rows in ascending `seq`; the handler, the clock
-- and the failures of the database are parameters.
pub mod Rows
pub mod Drain
use veska.Common.{
  ℕ, zero, suc, ◌+◌, ◌-◌, Bool, true, false, not, ◌&&◌, ◌||◌, Option, none, some, List, [], ◌∷◌,
  String, ◌==◌, string_eq, nat_eq, leb, if◌then◌else◌,
}

pub data State : Type 0 where
  pending in_progress done failed : State

pub record Row : Type 0 where
  pub seq : ℕ
  pub promotion_id : String
  pub repo_id : String
  pub branch : String
  pub git_sha : String
  pub kind : String
  pub payload : String
  pub state : State
  pub attempts : ℕ
  pub enqueued_at : ℕ
  pub available_at : ℕ
  pub completed_at : Option ℕ
  pub error : Option String

abbrev pub is_pending : State → Bool
is_pending pending = true
is_pending _ = false

-- The WHERE clause of fetchPending.
abbrev pub is_ready : String → ℕ → Row → Bool
is_ready kind now r = is_pending r.state && (r.kind == kind && leb r.available_at now)

-- `ORDER BY seq LIMIT 1`.
unfoldable pub fetch_pending : String → ℕ → List Row → Option Row
fetch_pending kind now [] = none
fetch_pending kind now (r ∷ rows) =
    if is_ready kind now r then some r else fetch_pending kind now rows

-- `UPDATE … WHERE seq = ?`: every row of that number.
unfoldable pub update_seq : ℕ → (Row → Row) → List Row → List Row
update_seq seq f [] = []
update_seq seq f (r ∷ rows) = (if r.seq == seq then f r else r) ∷ update_seq seq f rows

-- RowsAffected of the claim, as a test against 0.
unfoldable pub affects : ℕ → List Row → Bool
affects seq [] = false
affects seq (r ∷ rows) = (r.seq == seq && is_pending r.state) || affects seq rows

unfoldable pub claim : Row → Row
claim r =
    if is_pending r.state then record r { state = in_progress; attempts = r.attempts + 1 } else r

-- What a handler answers: success, a deferral, or an error.
pub data Answer : Type 0 where
  succeeded deferred : Answer
  failed_with : String → Answer

abbrev pub defer_backoff_secs : ℕ
defer_backoff_secs = 1

abbrev pub max_attempts : ℕ
max_attempts = 3

-- The last UPDATE of processOne; `attempts` is that of the local row, after its increment.
unfoldable pub record_answer : Answer → ℕ → ℕ → Row → Row
record_answer deferred attempts now r = record r {
  state = pending;
  attempts = r.attempts - 1;
  available_at = now + defer_backoff_secs;
}
record_answer succeeded attempts now r = record r { state = done; completed_at = some now }
record_answer (failed_with e) attempts now r =
    if leb max_attempts attempts
    then record r { state = failed; error = some e }
    else record r { state = pending; error = some e }

-- Which statements of one pass the database refuses; `counting` is RowsAffected of the claim.
pub record Faults : Type 0 where
  pub fetch : Bool
  pub claiming : Bool
  pub counting : Bool
  pub recording : Bool

abbrev pub no_faults : Faults
no_faults = record { fetch = false; claiming = false; counting = false; recording = false }

module _ (faults : Faults) (handle : Row → Answer) (later : ℕ) where
  -- The pass after its fetch.
  unfoldable pub process_row : Option Row → List Row → List Row × Bool
  unfolding claim
  process_row none rows = (rows, false)
  process_row (some r) rows =
      let attempts = r.attempts + 1 in
      let claimed = update_seq r.seq claim rows in
      let answer = handle (record r { attempts = attempts }) in
      if faults.claiming || not (affects r.seq rows)
      then (rows, false)
      else if faults.counting
      then (claimed, false)
      else if faults.recording
      then (claimed, true)
      else (update_seq r.seq (record_answer answer attempts later) claimed, true)

  -- One pass for a kind: the new table, and whether a row was processed. `now` is the clock at the
  -- fetch, and `later` the clock when the handler has returned.
  unfoldable pub process_one : String → ℕ → List Row → List Row × Bool
  unfolding process_row
  process_one kind now rows =
      if faults.fetch then (rows, false) else process_row (fetch_pending kind now rows) rows
