-- ===== src/Queue/Rows.antt =====
-- The life of a row: its attempts are bounded, and finished rows never change.
use veska.Common.{
  ℕ, zero, suc, ◌+◌, ◌≤◌, ◌<◌, ◌≡◌, refl, sym, subst, ◌≢◌, inl, inr, true, false, not, ◌&&◌, ◌||◌,
  Option, none, some, List, [], ◌∷◌, String, string_eq, nat_eq, if◌then◌else◌, arith, All,
  get_elem?, Bool-cases,
}
use veska.Common.Dict.{is_present}
use veska.Queue.{
  Row, pending, in_progress, failed, is_ready, fetch_pending, update_seq, affects, claim, Answer,
  succeeded, deferred, failed_with, max_attempts, record_answer, Faults, process_row, process_one,
}

-- A row's attempts against its state: at most three are charged, a pending row has one left, and a
-- row fails only when all are used.
pub record RowValid (r : Row) : Type 0 where
  pub capped : r.attempts ≤ max_attempts
  pub pending_left : r.state ≡ pending → r.attempts < max_attempts
  pub running_charged : r.state ≡ in_progress → 0 < r.attempts
  pub failed_spent : r.state ≡ failed → r.attempts ≡ max_attempts

claim-RowValid : (r : Row) → RowValid r → RowValid (claim r)
unfolding claim
claim-RowValid r v = ground arith

pub claim-seq : (r : Row) → (claim r).seq ≡ r.seq
unfolding claim
claim-seq r = ground arith

pub claim_pending :
    (r : Row)
    → r.state ≡ pending
    → claim r ≡ record r { state = in_progress; attempts = r.attempts + 1 }
unfolding claim
claim_pending r p = ground arith

-- Numbers are distinct, so an UPDATE by number reaches one row.
abbrev pub Unseen : ℕ → List Row → Type 0
Unseen seq = All (λ r. r.seq ≢ seq)

abbrev pub DistinctSeq : List Row → Type 0
DistinctSeq [] = Unit
DistinctSeq (r ∷ rows) = Unseen r.seq rows × DistinctSeq rows

update_seq-Unseen :
    (seq : ℕ) (f : Row → Row) (rows : List Row) → Unseen seq rows → update_seq seq f rows ≡ rows
unfolding update_seq
update_seq-Unseen seq f [] u = refl
update_seq-Unseen seq f (r ∷ rows) u = ground (arith, update_seq-Unseen seq f rows u.1)

update_seq-head :
    (seq : ℕ) (f : Row → Row) (x : Row) (rows : List Row)
    → x.seq ≡ seq
    → Unseen seq rows
    → update_seq seq f (x ∷ rows) ≡ f x ∷ rows
unfolding update_seq
update_seq-head seq f x rows e u = ground (arith, update_seq-Unseen seq f rows u)

pub fetch_pending-All :
    (P : Row → Type 0) (kind : String) (now : ℕ) (rows : List Row) (r : Row)
    → All P rows
    → fetch_pending kind now rows ≡ some r
    → P r
unfolding fetch_pending
fetch_pending-All P kind now [] r a e = cc
fetch_pending-All P kind now (x ∷ rows) r a e = elim (Bool-cases (is_ready kind now x)) [
  | inl ready ↦ subst P (ground arith) a.0
  | inr other ↦ fetch_pending-All P kind now rows r a.1 (rw other at e)
]

-- What a pass does to the row that it fetched.
abbrev pub processed : Faults → Answer → ℕ → Row → Row
processed faults answer later r =
    if faults.counting || faults.recording
    then claim r
    else record_answer answer (r.attempts + 1) later (claim r)

record_answer-RowValid :
    (answer : Answer) (attempts later : ℕ) (r : Row)
    → RowValid r
    → r.state ≡ in_progress
    → r.attempts ≡ attempts
    → RowValid (record_answer answer attempts later r)
unfolding record_answer
record_answer-RowValid succeeded attempts later r v p e = ground arith
record_answer-RowValid deferred attempts later r v p e = ground arith
record_answer-RowValid (failed_with x) attempts later r v p e = ground arith

processed-RowValid :
    (faults : Faults) (answer : Answer) (later : ℕ) (r : Row)
    → RowValid r
    → r.state ≡ pending
    → RowValid (processed faults answer later r)
processed-RowValid faults answer later r v p = ground (
  arith,
  claim-RowValid r v,
  record_answer-RowValid answer (r.attempts + 1) later (claim r),
  claim_pending r,
)

module _ (faults : Faults) (handle : Row → Answer) (later : ℕ) where
  abbrev pub swapped : Row → Row
  swapped r = processed faults (handle (record r { attempts = r.attempts + 1 })) later r

  -- The first ready row replaced by what its answer makes of it.
  unfoldable pub replace_first : String → ℕ → List Row → List Row
  replace_first kind now [] = []
  replace_first kind now (r ∷ rows) =
      if is_ready kind now r then swapped r ∷ rows else r ∷ replace_first kind now rows

  pub replace_first-RowValid :
      (kind : String) (now : ℕ) (rows : List Row)
      → All RowValid rows
      → All RowValid (replace_first kind now rows)
  unfolding replace_first
  replace_first-RowValid kind now [] v = tt
  replace_first-RowValid kind now (r ∷ rows) v = elim (Bool-cases (is_ready kind now r)) [
    | inl ready ↦ rw ready (
      processed-RowValid faults (handle (record r { attempts = r.attempts + 1 })) later r v.0
          (ground arith),
      v.1,
    )
    | inr other ↦ rw other (v.0, replace_first-RowValid kind now rows v.1)
  ]

  -- The UPDATEs of a pass, as a change of the row with a given number.
  abbrev updates : Row → List Row → List Row
  updates r rows =
      let claimed = update_seq r.seq claim rows in
      if faults.counting || faults.recording
      then claimed
      else update_seq r.seq
          (record_answer (handle (record r { attempts = r.attempts + 1 })) (r.attempts + 1) later)
          claimed

  updates-head :
      (r : Row) (rows : List Row) → Unseen r.seq rows → updates r (r ∷ rows) ≡ swapped r ∷ rows
  updates-head r rows u = rw (update_seq-head r.seq claim r rows refl u) (
      ground (
        arith,
        update_seq-head r.seq
            (record_answer (handle (record r { attempts = r.attempts + 1 })) (r.attempts + 1) later)
            (claim r) rows (claim-seq r) u,
      ))

  updates-skip :
      (r x : Row) (rows : List Row) → x.seq ≢ r.seq → updates r (x ∷ rows) ≡ x ∷ updates r rows
  unfolding update_seq
  updates-skip r x rows u = ground arith

  updates-replace_first :
      (kind : String) (now : ℕ) (rows : List Row) (r : Row)
      → DistinctSeq rows
      → fetch_pending kind now rows ≡ some r
      → (updates r rows ≡ replace_first kind now rows) × (affects r.seq rows ≡ true)
  unfolding replace_first fetch_pending affects
  updates-replace_first kind now [] r d e = cc
  updates-replace_first kind now (x ∷ rows) r d e = elim (Bool-cases (is_ready kind now x)) [
    | inl ready ↦
        let same : x ≡ r = ground arith in
        rw (ready, ← same) (updates-head x rows d.0, ground arith)
    | inr other ↦
        let later_row : fetch_pending kind now rows ≡ some r = rw other at e in
        let apart : r.seq ≢ x.seq =
          fetch_pending-All (λ y. y.seq ≢ x.seq) kind now rows r d.0 later_row in
        let (rest, hit) = updates-replace_first kind now rows r d.1 later_row in
        rw (other, updates-skip r x rows (λ q. apart (sym q)), rest, hit) (refl, ground arith)
  ]

  pub replace_first-none :
      (kind : String) (now : ℕ) (rows : List Row)
      → fetch_pending kind now rows ≡ none
      → replace_first kind now rows ≡ rows
  unfolding replace_first fetch_pending
  replace_first-none kind now [] e = refl
  replace_first-none kind now (x ∷ rows) e = ground (arith, replace_first-none kind now rows)

  process_row-replace_first :
      (kind : String) (now : ℕ) (rows : List Row) (o : Option Row)
      → DistinctSeq rows
      → fetch_pending kind now rows ≡ o
      → process_row faults handle later o rows ≡ (
          if faults.claiming
          then (rows, false)
          else (replace_first kind now rows, not faults.counting && is_present o))
  unfolding process_row
  process_row-replace_first kind now rows none d e =
      ground (arith, replace_first-none kind now rows e)
  process_row-replace_first kind now rows (some r) d e =
      ground (arith, updates-replace_first kind now rows r d e)

  -- Where the rows have distinct numbers, a pass with no failing fetch or claim replaces the first
  -- row that is pending, of the kind and available, by what its answer makes of it (by the claim
  -- alone, if RowsAffected or the last UPDATE fails), changes no other row, and reports whether there
  -- was such a row, or no work if RowsAffected fails. A pass whose fetch or claim fails changes
  -- nothing and reports no work.
  pub process_one-replace_first :
      (kind : String) (now : ℕ) (rows : List Row)
      → DistinctSeq rows
      → process_one faults handle later kind now rows ≡ (
          if faults.fetch || faults.claiming then (rows, false) else (
            replace_first kind now rows,
            not faults.counting && is_present (fetch_pending kind now rows),
          ))
  unfolding process_one
  process_one-replace_first kind now rows d =
      ground (arith, process_row-replace_first kind now rows (fetch_pending kind now rows) d refl)

  -- Where the rows have distinct numbers, no pass breaks a row, whatever fails and whatever the
  -- handler answers: three attempts at most
  -- are charged, a pending row has one left, and a row fails only when all are used.
  pub process_one-RowValid :
      (kind : String) (now : ℕ) (rows : List Row)
      → DistinctSeq rows
      → All RowValid rows
      → All RowValid (process_one faults handle later kind now rows).0
  process_one-RowValid kind now rows d v =
      rw (process_one-replace_first kind now rows d)
        (elim (Bool-cases (faults.fetch || faults.claiming)) [
          | inl broken ↦ rw broken v
          | inr fine ↦ rw fine (replace_first-RowValid kind now rows v)
        ])

  replace_first-settled :
      (kind : String) (now : ℕ) (rows : List Row) (i : ℕ) (r : Row)
      → get_elem? rows i ≡ some r
      → r.state ≢ pending
      → get_elem? (replace_first kind now rows) i ≡ some r
  unfolding replace_first
  replace_first-settled kind now [] i r g p = g
  replace_first-settled kind now (x ∷ rows) zero r g p = ground arith
  replace_first-settled kind now (x ∷ rows) (suc i) r g p =
      ground (arith, replace_first-settled kind now rows i r g p)

  -- Where the rows have distinct numbers, a pass leaves a row that is not pending alone: done and
  -- failed rows stay so, and so does a row left in progress by a pass whose last UPDATE failed,
  -- which no later pass takes up.
  pub process_one-settled :
      (kind : String) (now : ℕ) (rows : List Row) (i : ℕ) (r : Row)
      → DistinctSeq rows
      → get_elem? rows i ≡ some r
      → r.state ≢ pending
      → get_elem? (process_one faults handle later kind now rows).0 i ≡ some r
  process_one-settled kind now rows i r d g p =
      rw (process_one-replace_first kind now rows d)
        (elim (Bool-cases (faults.fetch || faults.claiming)) [
          | inl broken ↦ rw broken g
          | inr fine ↦ rw fine (replace_first-settled kind now rows i r g p)
        ])
