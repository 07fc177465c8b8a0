-- ===== src/ScanTracker.antt =====
-- internal/application/scan_tracker.go: the registry of cold scans in flight. Each method holds the
-- lock for its whole effect, so it is one function on the map. The tracker is not nil.
use veska.Common.{
  ℕ, ◌≡◌, refl, sym, ap, ◌∙◌, Bool, true, false, Option, none, some, List, [], ◌∷◌, map, String,
  ◌==◌, string_eq, eq_iff, if◌then◌else◌, sort_by, str_lt, ℤ, pos, arith, Bool-cases, inl, inr,
}
use veska.Common.Dict.{Dict, lookup, insert, delete, is_present, lookup-insert, lookup-delete}

pub record ScanState : Type 0 where
  pub repo_id : String
  pub phase : String
  pub started_at : ℕ
  pub files_seen : ℤ
  pub files_total : ℤ

abbrev pub Scans : Type 0
Scans = Dict String ScanState

abbrev pub new_scan_tracker : Scans
new_scan_tracker = []

abbrev pub started : String → ℕ → ScanState
started repo_id now = record {
  repo_id = repo_id;
  phase = "running";
  started_at = now;
  files_seen = pos 0;
  files_total = pos 0;
}

unfoldable pub start : String → ℕ → Scans → Scans
start repo_id now t = insert repo_id (started repo_id now) t

-- Progress and SetPhase write back a scan that is there, and change nothing otherwise.
unfoldable pub update : String → (ScanState → ScanState) → Option ScanState → Scans → Scans
update repo_id f none t = t
update repo_id f (some st) t = insert repo_id (f st) t

unfoldable pub progress : String → ℤ → ℤ → Scans → Scans
unfolding update
progress repo_id seen total t =
    update repo_id (λ st. record st { files_seen = seen; files_total = total }) (lookup repo_id t) t

unfoldable pub set_phase : String → String → Scans → Scans
unfolding update
set_phase repo_id phase t = update repo_id (λ st. record st { phase = phase }) (lookup repo_id t) t

unfoldable pub end_scan : String → Scans → Scans
end_scan repo_id t = delete repo_id t

unfoldable pub is_any_scan_running : Scans → Bool
is_any_scan_running [] = false
is_any_scan_running (s ∷ t) = true

unfoldable pub snapshot : Scans → List ScanState
snapshot t = sort_by (λ a b. str_lt a.repo_id b.repo_id) (map (λ p. p.1) t)

pub data Op : Type 0 where
  do_start : String → ℕ → Op
  do_progress : String → ℤ → ℤ → Op
  do_set_phase : String → String → Op
  do_end : String → Op

unfoldable pub step : Op → Scans → Scans
step (do_start r now) t = start r now t
step (do_progress r seen total) t = progress r seen total t
step (do_set_phase r phase) t = set_phase r phase t
step (do_end r) t = end_scan r t

unfoldable pub run : List Op → Scans → Scans
unfolding step
run [] t = t
run (o ∷ os) t = run os (step o t)

-- Whether a scan is in flight, read off the operations alone: the last start or end decides.
unfoldable pub in_flight : String → Bool → List Op → Bool
in_flight r before [] = before
in_flight r before (do_start r' now ∷ os) = in_flight r (if r == r' then true else before) os
in_flight r before (do_end r' ∷ os) = in_flight r (if r == r' then false else before) os
in_flight r before (do_progress r' seen total ∷ os) = in_flight r before os
in_flight r before (do_set_phase r' phase ∷ os) = in_flight r before os

update-is_present :
    (r r' : String) (f : ScanState → ScanState) (t : Scans)
    → is_present (lookup r (update r' f (lookup r' t) t)) ≡ is_present (lookup r t)
unfolding update
update-is_present r r' f t = by_state (lookup r' t) refl
  where
    by_state :
        (o : Option ScanState)
        → lookup r' t ≡ o
        → is_present (lookup r (update r' f o t)) ≡ is_present (lookup r t)
    by_state none h = refl
    by_state (some st) h = elim (Bool-cases (r == r')) [
      | inl same ↦
          rw (lookup-insert r' r (f st) t, same)
            (sym (ap (λ z. is_present (lookup z t)) ((eq_iff r r').0 same) ∙ ap is_present h))
      | inr other ↦ rw (lookup-insert r' r (f st) t, other) refl
    ]

pub step-is_present :
    (o : Op) (r : String) (t : Scans)
    → is_present (lookup r (step o t)) ≡ in_flight r (is_present (lookup r t)) (o ∷ [])
unfolding step in_flight start progress set_phase end_scan
step-is_present (do_start r' now) r t = ground (arith, lookup-insert r' r (started r' now) t)
step-is_present (do_progress r' seen total) r t = update-is_present r r' _ t
step-is_present (do_set_phase r' phase) r t = update-is_present r r' _ t
step-is_present (do_end r') r t = ground (arith, lookup-delete r' r t, eq_iff r r', eq_iff r' r)

in_flight-step :
    (o : Op) (os : List Op) (r : String) (b : Bool)
    → in_flight r b (o ∷ os) ≡ in_flight r (in_flight r b (o ∷ [])) os
unfolding in_flight
in_flight-step (do_start r' now) os r b = refl
in_flight-step (do_progress r' seen total) os r b = refl
in_flight-step (do_set_phase r' phase) os r b = refl
in_flight-step (do_end r') os r b = refl

-- After any sequence of operations, a repository has a scan in flight exactly when the last Start or
-- End of it is a Start, or there is neither and it had one before: reports of progress and phase
-- never bring back a scan that has ended.
pub is_present-run :
    (os : List Op) (r : String) (t : Scans)
    → is_present (lookup r (run os t)) ≡ in_flight r (is_present (lookup r t)) os
unfolding run in_flight
is_present-run [] r t = refl
is_present-run (o ∷ os) r t =
    is_present-run os r (step o t)
    ∙ ap (λ b. in_flight r b os) (step-is_present o r t)
    ∙ sym (in_flight-step o os r (is_present (lookup r t)))
