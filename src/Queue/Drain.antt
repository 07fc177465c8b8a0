-- ===== src/Queue/Drain.antt =====
-- internal/platform/pollloop/pollloop.go and the step of runKind: the greedy drain between two
-- idle intervals, with the clock standing still. The drain takes fuel, and `none` is out of fuel.
use veska.Common.{
  ℕ, zero, suc, ◌+◌, ◌-◌, ◌<◌, ◌≡◌, refl, sym, ap, ◌∙◌, inl, inr, Bool, true, false, ◌||◌, Option,
  none, some, List, [], ◌∷◌, map, String, string_eq, nat_eq, if◌then◌else◌, arith, All, Bool-cases,
  Option-cases,
}
use veska.Common.Dict.{is_present}
use veska.Queue.{
  Row, done, is_ready, fetch_pending, Answer, succeeded, max_attempts, record_answer, no_faults,
  process_one,
}
use veska.Queue.Rows.{
  RowValid, DistinctSeq, Unseen, claim_pending, claim-seq, replace_first-none,
  replace_first-RowValid, swapped, replace_first, process_one-replace_first,
}

module _ (handle : Row → Answer) (kind : String) (t : ℕ) where
  -- The step that runKind hands to the poll loop: both pausers come first.
  unfoldable pub kind_step : (paused kind_paused : Bool) → List Row → List Row × Bool
  kind_step paused kind_paused rows =
      if paused || kind_paused then (rows, false) else process_one no_faults handle t kind t rows

  -- `for step(ctx) { }`.
  unfoldable pub drain : ℕ → List Row → Option (List Row)
  drain zero rows = none
  drain (suc fuel) rows =
      let (rows', again) = kind_step false false rows in
      let rest = drain fuel rows' in if again then rest else some rows'

  -- The attempts left in a row, if it is ready, and in all ready rows.
  unfoldable pub weight : Row → ℕ
  weight r = if is_ready kind t r then max_attempts - r.attempts else 0

  unfoldable pub work : List Row → ℕ
  unfolding weight
  work [] = 0
  work (r ∷ rows) = weight r + work rows

  -- A handled row is out of the way at the frozen clock, or has one attempt less.
  swapped_work :
      (r : Row)
      → RowValid r
      → is_ready kind t r ≡ true
      → weight (swapped no_faults handle t r) < weight r
  unfolding weight record_answer
  swapped_work r v ready = ground (arith, claim_pending r)

  swapped-seq : (r : Row) → (swapped no_faults handle t r).seq ≡ r.seq
  unfolding record_answer
  swapped-seq r = ground (arith, claim-seq r)

  replace_first-Unseen :
      (n : ℕ) (rows : List Row)
      → Unseen n rows
      → Unseen n (replace_first no_faults handle t kind t rows)
  unfolding replace_first
  replace_first-Unseen n [] u = tt
  replace_first-Unseen n (r ∷ rows) u =
      ground (arith, swapped-seq r, replace_first-Unseen n rows u.1)

  replace_first-DistinctSeq :
      (rows : List Row)
      → DistinctSeq rows
      → DistinctSeq (replace_first no_faults handle t kind t rows)
  unfolding replace_first
  replace_first-DistinctSeq [] d = tt
  replace_first-DistinctSeq (r ∷ rows) d = elim (Bool-cases (is_ready kind t r)) [
    | inl ready ↦ rw (ready, swapped-seq r) d
    | inr other ↦ rw other (replace_first-Unseen r.seq rows d.0, replace_first-DistinctSeq rows d.1)
  ]

  work-cons : (r : Row) (rows : List Row) → work (r ∷ rows) ≡ weight r + work rows
  unfolding work
  work-cons r rows = refl

  work-replace_first :
      (rows : List Row) (r : Row)
      → All RowValid rows
      → fetch_pending kind t rows ≡ some r
      → work (replace_first no_faults handle t kind t rows) < work rows
  unfolding replace_first fetch_pending
  work-replace_first [] r v e = cc
  work-replace_first (x ∷ rows) r v e = elim (Bool-cases (is_ready kind t x)) [
    | inl ready ↦
        let x' = swapped no_faults handle t x in
        rw ready (omega (arith, swapped_work x v.0 ready, work-cons x' rows, work-cons x rows))
    | inr other ↦
        let rows' = replace_first no_faults handle t kind t rows in
        let less = work-replace_first rows r v.1 (rw other at e) in
        rw other (omega (arith, less, work-cons x rows', work-cons x rows))
  ]

  -- One turn of the drain, without its bookkeeping.
  drain-suc :
      (fuel : ℕ) (rows : List Row)
      → DistinctSeq rows
      → drain (suc fuel) rows ≡ (
          if is_present (fetch_pending kind t rows)
          then drain fuel (replace_first no_faults handle t kind t rows)
          else some (replace_first no_faults handle t kind t rows))
  unfolding drain kind_step
  drain-suc fuel rows d = rw (process_one-replace_first no_faults handle t kind t rows d) refl

  -- Whatever the handler answers, a drain comes to its end, when the rows are valid with distinct
  -- numbers, nothing pauses the kind, no statement fails and the clock stands still: with more fuel
  -- than attempts are left in the ready rows it returns a table of valid rows in which no row of
  -- the kind is ready.
  pub drain_ends :
      (fuel : ℕ) (rows : List Row)
      → DistinctSeq rows
      → All RowValid rows
      → work rows < fuel
      → (rows' : List Row) × (drain fuel rows ≡ some rows')
        × (fetch_pending kind t rows' ≡ none)
        × All RowValid rows'
  drain_ends zero rows d v h = absurd (omega arith)
  drain_ends (suc fuel) rows d v h = elim (Option-cases (fetch_pending kind t rows)) [
    | inl idle ↦ (
      rows,
      rw (drain-suc fuel rows d, idle, replace_first-none no_faults handle t kind t rows idle) refl,
      idle,
      v,
    )
    | inr (r, found) ↦
        let rows' = replace_first no_faults handle t kind t rows in
        let less = work-replace_first rows r v found in
        let (end, run, idle, ok) =
          drain_ends fuel rows' (replace_first-DistinctSeq rows d)
            (replace_first-RowValid no_faults handle t kind t rows v) (omega arith) in
        (end, rw (drain-suc fuel rows d, found) run, idle, ok)
  ]

-- What becomes of a row when the handler succeeds on every row.
unfoldable pub finished : String → ℕ → Row → Row
finished kind t r =
    if is_ready kind t r
    then record r { state = done; attempts = r.attempts + 1; completed_at = some t }
    else r

abbrev always : Row → Answer
always r = succeeded

finished-swapped :
    (kind : String) (t : ℕ) (r : Row)
    → is_ready kind t r ≡ true
    → finished kind t (swapped no_faults always t r) ≡ finished kind t r
unfolding record_answer finished
finished-swapped kind t r h = ground (arith, claim_pending r)

finished-replace_first :
    (kind : String) (t : ℕ) (rows : List Row)
    → map (finished kind t) (replace_first no_faults always t kind t rows)
      ≡ map (finished kind t) rows
unfolding replace_first
finished-replace_first kind t [] = refl
finished-replace_first kind t (r ∷ rows) = elim (Bool-cases (is_ready kind t r)) [
  | inl ready ↦
      rw (ready) (ap (λ x. x ∷ map (finished kind t) rows) (finished-swapped kind t r ready))
  | inr other ↦ rw other (ap (λ x. finished kind t r ∷ x) (finished-replace_first kind t rows))
]

finished_idle :
    (kind : String) (t : ℕ) (rows : List Row)
    → fetch_pending kind t rows ≡ none
    → map (finished kind t) rows ≡ rows
unfolding fetch_pending finished
finished_idle kind t [] e = refl
finished_idle kind t (r ∷ rows) e = ground (arith, finished_idle kind t rows)

drain-finished :
    (kind : String) (t fuel : ℕ) (rows rows' : List Row)
    → DistinctSeq rows
    → drain always kind t fuel rows ≡ some rows'
    → map (finished kind t) rows' ≡ map (finished kind t) rows
unfolding drain
drain-finished kind t zero rows rows' d e = cc
drain-finished kind t (suc fuel) rows rows' d e = elim (Option-cases (fetch_pending kind t rows)) [
  | inl idle ↦
      let e' : some (replace_first no_faults always t kind t rows) ≡ some rows' =
        rw (drain-suc always kind t fuel rows d, idle) at e in
      let same : replace_first no_faults always t kind t rows ≡ rows' = cc in
      ap (map (finished kind t)) (sym same) ∙ finished-replace_first kind t rows
  | inr (r, found) ↦
      let next = replace_first no_faults always t kind t rows in
      let e' : drain always kind t fuel next ≡ some rows' =
        rw (drain-suc always kind t fuel rows d, found) at e in
      drain-finished kind t fuel next rows' (replace_first-DistinctSeq always kind t rows d) e'
      ∙ finished-replace_first kind t rows
]

-- When the handler always succeeds, nothing pauses the kind, no statement fails, the clock stands
-- still and the rows are valid with distinct numbers, a drain with that much fuel marks every row
-- of the kind that was pending and available as done, with its attempt charged and its time, and
-- leaves every other row alone.
pub drain_marks_done :
    (kind : String) (t fuel : ℕ) (rows : List Row)
    → DistinctSeq rows
    → All RowValid rows
    → work always kind t rows < fuel
    → drain (λ r. succeeded) kind t fuel rows ≡ some (map (finished kind t) rows)
drain_marks_done kind t fuel rows d v h =
    let (rows', run, idle, _) = drain_ends always kind t fuel rows d v h in
    run
    ∙ ap some (sym (finished_idle kind t rows' idle) ∙ drain-finished kind t fuel rows rows' d run)
