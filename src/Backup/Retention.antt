-- ===== src/Backup/Retention.antt =====
-- Which backups a sweep removes, and that it leaves nothing for another.
use veska.Common.{
  past_first, ℕ, zero, suc, ◌+◌, ◌-◌, ◌≡◌, refl, ap, ◌∙◌, Bool, true, false, not, Option, none,
  List, [], ◌∷◌, ◌++◌, map, String, ltb, length, keep_if, take, arith, Bool-cases, All, All-map,
  All-always, All-keep_if, first-IsSorted, sort_by, sort_by-IsSorted, str_lt, str_lt_asymm,
  str_lt_neg_trans, ok, inl, inr,
}
use veska.Backup.{
  PruneOptions, PruneResult, PruneError, BackupFile, DirEntry, newest_first, collect, prune,
  is_recent, sweep, nothing_pruned,
}
use mathlib.Core.List.{append_assoc, append-nil}

-- The files that are too old, past the newest ones.
abbrev pub doomed : PruneOptions → ℕ → List BackupFile → List BackupFile
doomed o keep fs = keep_if (λ f. not (is_recent o f)) (past_first keep fs)

abbrev pub survivors : PruneOptions → ℕ → List BackupFile → List BackupFile
survivors o keep fs = take keep fs ++ keep_if (is_recent o) (past_first keep fs)

abbrev pub names : List BackupFile → List String
names = map λ f. f.name

abbrev pub none_fail : String → Bool
none_fail name = false

-- What a sweep answers when it removes some files and keeps others.
answer : PruneResult → List String → ℕ → PruneResult × Option PruneError
answer r gone count = (record { deleted = r.deleted ++ gone; kept = r.kept + count }, none)

answer_kept :
    (r : PruneResult) (gone : List String) (count : ℕ)
    → answer (record r { kept = r.kept + 1 }) gone count ≡ answer r gone (suc count)
unfolding answer
answer_kept r gone count =
    let more : r.kept + 1 + count ≡ r.kept + suc count = omega arith in rw more refl

answer_deleted :
    (r : PruneResult) (name : String) (gone : List String) (count : ℕ)
    → answer (record r { deleted = r.deleted ++ name ∷ [] }) gone count
      ≡ answer r (name ∷ gone) count
unfolding answer
answer_deleted r name gone count = rw (append_assoc r.deleted (name ∷ []) gone) refl

answer-none : (r : PruneResult) → (r, none) ≡ answer r [] 0
unfolding answer
answer-none r = let same : r.kept + 0 ≡ r.kept = omega arith in rw (same, append-nil r.deleted) refl

sweep_from :
    (o : PruneOptions) (i keep : ℕ) (fs : List BackupFile) (r : PruneResult)
    → keep ≡ o.keep_min_count - i
    → sweep none_fail o i fs r ≡ answer r (names (doomed o keep fs)) (length (survivors o keep fs))
unfolding sweep keep_if
sweep_from o i zero [] r e = answer-none r
sweep_from o i (suc keep) [] r e = answer-none r
sweep_from o i zero (f ∷ fs) r e =
    let over : ltb i o.keep_min_count ≡ false = ground arith in
    elim (Bool-cases (is_recent o f)) [
      | inl recent ↦
          rw (over, recent)
            (sweep_from o (i + 1) zero fs (record r { kept = r.kept + 1 }) (omega arith)
              ∙ answer_kept r _ _)
      | inr old ↦
          rw (over, old)
            (sweep_from o (i + 1) zero fs (record r { deleted = r.deleted ++ f.name ∷ [] })
                (omega arith)
              ∙ answer_deleted r f.name _ _)
    ]
sweep_from o i (suc keep) (f ∷ fs) r e =
    let under : ltb i o.keep_min_count ≡ true = ground arith in
    rw under (
      sweep_from o (i + 1) keep fs (record r { kept = r.kept + 1 }) (omega arith)
      ∙ answer_kept r _ _)

nothing_left :
    (o : PruneOptions) (keep : ℕ) (fs : List BackupFile) → doomed o keep (survivors o keep fs) ≡ []
unfolding keep_if
nothing_left o zero [] = refl
nothing_left o (suc keep) [] = refl
nothing_left o (suc keep) (f ∷ fs) = nothing_left o keep fs
nothing_left o zero (f ∷ fs) = elim (Bool-cases (is_recent o f)) [
  | inl recent ↦ rw (recent, recent) (nothing_left o zero fs)
  | inr old ↦ rw old (nothing_left o zero fs)
]

survivors_again :
    (o : PruneOptions) (keep : ℕ) (fs : List BackupFile)
    → survivors o keep (survivors o keep fs) ≡ survivors o keep fs
unfolding keep_if
survivors_again o zero [] = refl
survivors_again o (suc keep) [] = refl
survivors_again o (suc keep) (f ∷ fs) = ap (λ z. f ∷ z) (survivors_again o keep fs)
survivors_again o zero (f ∷ fs) = elim (Bool-cases (is_recent o f)) [
  | inl recent ↦ rw (recent, recent) (ap (λ z. f ∷ z) (survivors_again o zero fs))
  | inr old ↦ rw old (survivors_again o zero fs)
]

answer_first :
    (gone : List String) (count : ℕ)
    → answer nothing_pruned gone count ≡ (record { deleted = gone; kept = count }, none)
unfolding answer
answer_first gone count = let same : 0 + count ≡ count = omega arith in rw same refl

swept_again :
    (gone : List BackupFile) {kept left : List BackupFile} (end : gone ≡ []) (same : kept ≡ left)
    → ◌≡◌ {A = PruneResult × Option PruneError}
        (record { deleted = names gone; kept = length kept }, none)
        (record { deleted = []; kept = length left }, none)
swept_again gone end same = rw (end, same) refl

sweep_lem :
    (o : PruneOptions) (fs : List BackupFile)
    → let left = survivors o o.keep_min_count fs in
      (sweep none_fail o 0 fs nothing_pruned
        ≡ (record { deleted = names (doomed o o.keep_min_count fs); kept = length left }, none))
      × (sweep none_fail o 0 left nothing_pruned
          ≡ (record { deleted = []; kept = length left }, none))
sweep_lem o fs =
    let keep = o.keep_min_count in
    (
      sweep_from o 0 keep fs nothing_pruned (omega arith) ∙ answer_first _ _,
      sweep_from o 0 keep (survivors o keep fs) nothing_pruned (omega arith)
          ∙ answer_first _ _
          ∙ swept_again _ (nothing_left o keep fs) (survivors_again o keep fs),
    )

-- What a prune keeps and removes of the backups, which it has sorted.
abbrev pub sorted : List BackupFile → List BackupFile
sorted = sort_by newest_first

-- A removed file: it is too old, and none of the files that are spared for their number has an
-- earlier name.
abbrev pub IsExpired : PruneOptions → List BackupFile → BackupFile → Type 0
IsExpired o spared f = (is_recent o f ≡ false) × All (λ s. str_lt s.name f.name ≡ false) spared

swap_all :
    (spared past : List BackupFile)
    → All (λ s. All (λ f. str_lt s.name f.name ≡ false) past) spared
    → All (λ f. All (λ s. str_lt s.name f.name ≡ false) spared) past
swap_all [] past h = All-always (λ f. Unit) (λ f. tt) past
swap_all (s ∷ spared) past h = All-zip _ _ past h.0 (swap_all spared past h.1)
  where
    All-zip :
        (P Q : BackupFile → Type 0) (xs : List BackupFile)
        → All P xs
        → All Q xs
        → All (λ x. P x × Q x) xs
    All-zip P Q [] a b = tt
    All-zip P Q (x ∷ xs) a b = ((a.0, b.0), All-zip P Q xs a.1 b.1)

doomed-IsExpired :
    (o : PruneOptions) (keep : ℕ) (fs : List BackupFile)
    → All (IsExpired o (take keep (sorted fs))) (doomed o keep (sorted fs))
doomed-IsExpired o keep fs =
    let first =
      first-IsSorted newest_first (λ a b c h k. str_lt_neg_trans c.name b.name a.name k h) keep
        (sorted fs) (sort_by-IsSorted newest_first (λ a b. str_lt_asymm b.name a.name) fs) in
    let newer = swap_all (take keep (sorted fs)) (past_first keep (sorted fs)) first in
    All-map _ (IsExpired o (take keep (sorted fs))) (λ f h. (ground (arith, h.1), h.0)) _
      (All-keep_if _ (λ f. not (is_recent o f)) (past_first keep (sorted fs)) newer)

-- When the directory and the time of every backup in it can be read and no removal fails, a prune
-- spares the backups of the latest names, as many as it is told to keep; of the others it removes
-- those that are too old, none of which has a later name than a spared one, and counts the rest as
-- kept. A sweep of the files that are left, in the same order, removes nothing.
pub prune_lem :
    (o : PruneOptions) (es : List DirEntry) (fs : List BackupFile)
    → collect es ≡ ok fs
    → let keep = o.keep_min_count in
      let left = survivors o keep (sorted fs) in
      (prune none_fail (ok es) o
        ≡ (record { deleted = names (doomed o keep (sorted fs)); kept = length left }, none))
      × All (IsExpired o (take keep (sorted fs))) (doomed o keep (sorted fs))
      × (sweep none_fail o 0 left nothing_pruned
          ≡ (record { deleted = []; kept = length left }, none))
unfolding prune
prune_lem o es fs collected =
    let (swept, again) = sweep_lem o (sorted fs) in
    (rw collected swept, doomed-IsExpired o o.keep_min_count fs, again)
