-- ===== src/Promotion/Flush.antt =====
-- What a promotion takes out of the staging area, on each of its ways out.
use veska.Common.{
  ℕ, ◌≡◌, refl, ◌≢◌, ap, Bool, true, false, not, ◌&&◌, Option, none, some, List, [], ◌∷◌, map,
  String, Result, ◌==◌, string_eq, eq_iff, if◌then◌else◌, arith, contains, Bool-cases, inl, inr,
}
use veska.Common.Dict.{Dict, is_present, lookup, keys, contains-keys, lookup-insert}
use veska.Domain.Actor.{Actor}
use veska.Staging.Area.{
  Area, Entry, File, Key, key_eq, key_beq_iff, entry_of, file_of, in_scope, snapshot,
  delete_staged_file, write,
}
use veska.Staging.Area.Laws.{lookup-delete_staged_file, lookup-snapshot, file_at, key_at}
use veska.Promotion.{
  PromotionFile, PromotionBatch, AddedLines, promotion_file, batch_of, delete_files, Outcome,
  check_input, after_commit, settle, promote,
}

abbrev paths : List PromotionFile → List String
paths = map λ f. f.path

lookup-delete_files :
    (repo_id branch : String) (fs : List PromotionFile) (j : Key) (s : Area)
    → lookup j (delete_files repo_id branch fs s)
      ≡ (if in_scope repo_id branch j && contains (paths fs) j.file_path then none else lookup j s)
unfolding delete_files contains
lookup-delete_files repo_id branch [] j s = ground arith
lookup-delete_files repo_id branch (f ∷ fs) j s = ground (
  arith,
  lookup-delete_files repo_id branch fs j (delete_staged_file (key_at repo_id branch f.path) s),
  lookup-delete_staged_file (key_at repo_id branch f.path) j s,
  eq_iff j.repo_id repo_id,
  eq_iff repo_id j.repo_id,
  eq_iff j.branch branch,
  eq_iff branch j.branch,
  eq_iff j.file_path f.path,
  eq_iff f.path j.file_path,
)

paths-promotion_file : (m : Dict String File) → paths (map promotion_file m) ≡ keys m
paths-promotion_file [] = refl
paths-promotion_file ((p, f) ∷ m) = ap (◌∷◌ p) (paths-promotion_file m)

is_present-file_at : (o : Option Entry) → is_present (file_at o) ≡ is_present o
is_present-file_at none = refl
is_present-file_at (some e) = refl

contains-batch_of :
    (repo_id branch git_sha : String) (actor : Actor) (now : ℕ) (s : Area) (path : String)
    → contains (paths (batch_of repo_id branch git_sha actor now s).files) path
      ≡ is_present (lookup (key_at repo_id branch path) s)
unfolding batch_of
contains-batch_of repo_id branch git_sha actor now s path =
    rw
      (
        paths-promotion_file (snapshot repo_id branch s),
        contains-keys path (snapshot repo_id branch s),
        lookup-snapshot repo_id branch path s,
      )
      (is_present-file_at (lookup (key_at repo_id branch path) s))

abbrev pub is_empty {ℓ} : {A : Type ℓ} → List A → Bool
is_empty [] = true
is_empty (x ∷ xs) = false

-- The file that a batch carries for a path.
abbrev pub carried : String → List PromotionFile → Option PromotionFile
carried path [] = none
carried path (f ∷ fs) = if path == f.path then some f else carried path fs

abbrev pub file_for : String → Option Entry → Option PromotionFile
file_for path none = none
file_for path (some e) = some (promotion_file (path, file_of e))

carried-promotion_file :
    (path : String) (m : Dict String File) (o : Option Entry)
    → lookup path m ≡ file_at o
    → carried path (map promotion_file m) ≡ file_for path o
unfolding lookup
carried-promotion_file path [] none h = refl
carried-promotion_file path [] (some e) h = cc
carried-promotion_file path ((p, f) ∷ m) o h = elim (Bool-cases (path == p)) [
  | inl same ↦ rw same (hit o (rw same at h) ((eq_iff path p).0 same))
  | inr other ↦ rw other (carried-promotion_file path m o (rw other at h))
]
  where
    hit :
        (o : Option Entry)
        → some f ≡ file_at o
        → path ≡ p
        → some (promotion_file (p, f)) ≡ file_for path o
    hit none e q = cc
    hit (some x) e q = ground arith

module _ (repo_id branch git_sha : String) (actor : Actor) (now : ℕ) (s : Area) where
  abbrev batch : PromotionBatch
  batch = batch_of repo_id branch git_sha actor now s

  -- A promotion hands the store, for each path, just what is staged for it on the branch.
  pub carried-batch_of :
      (path : String)
      → carried path (batch_of repo_id branch git_sha actor now s).files
        ≡ file_for path (lookup (key_at repo_id branch path) s)
  unfolding batch_of
  carried-batch_of path =
      carried-promotion_file path (snapshot repo_id branch s)
        (lookup (key_at repo_id branch path) s) (lookup-snapshot repo_id branch path s)

  in_scope-present :
      (j : Key)
      → (in_scope repo_id branch j && contains (paths batch.files) j.file_path)
        ≡ (in_scope repo_id branch j && is_present (lookup j s))
  in_scope-present j = elim (Bool-cases (in_scope repo_id branch j)) [
    | inl inside ↦
        let e : key_at repo_id branch j.file_path ≡ j =
          ground (arith, eq_iff j.repo_id repo_id, eq_iff j.branch branch) in
        rw (inside, contains-batch_of repo_id branch git_sha actor now s j.file_path, e)
    | inr outside ↦ rw outside
  ]

  module _ {ℓ} {E : Type ℓ} (store : PromotionBatch → Option E) (has_checks : Bool)
      (added : Option (String → String → Result E AddedLines)) where
    abbrev done : Area → Outcome E
    done later = promote store has_checks added repo_id branch git_sha actor now s later

    -- When the store's transaction fails, the promotion returns its error, leaves everything that
    -- is staged where it is, and runs no check.
    pub promote_failed :
        (later : Area) (e : E)
        → store (batch_of repo_id branch git_sha actor now s) ≡ some e
        → promote store has_checks added repo_id branch git_sha actor now s later
          ≡ record { error = some e; area = later; checked = none }
    unfolding promote settle
    promote_failed later e h = rw h

    lookup-settle :
        (b : PromotionBatch) (fs : List PromotionFile) (later : Area) (j : Key)
        → ((after_commit store has_checks added b fs later).error ≡ none)
          × (lookup j (after_commit store has_checks added b fs later).area ≡ (
              if in_scope b.repo_id b.branch j && contains (paths fs) j.file_path
              then none
              else lookup j later))
    unfolding after_commit contains
    lookup-settle b [] later j = ground arith
    lookup-settle b (f ∷ fs) later j =
        (refl, lookup-delete_files b.repo_id b.branch (f ∷ fs) j later)

    committed :
        (later : Area) (j : Key)
        → store batch ≡ none
        → ((done later).error ≡ none)
          × (lookup j (done later).area ≡ (
              if in_scope batch.repo_id batch.branch j && contains (paths batch.files) j.file_path
              then none
              else lookup j later))
    unfolding promote settle
    committed later j h = rw h (lookup-settle batch batch.files later j)

    -- When the transaction commits, the promotion returns no error and removes from the area the
    -- files of the branch that were staged at the snapshot, and no other entry.
    pub lookup-promote :
        (later : Area) (j : Key)
        → store (batch_of repo_id branch git_sha actor now s) ≡ none
        → let out = promote store has_checks added repo_id branch git_sha actor now s later in
          (out.error ≡ none)
          × (lookup j out.area ≡ (
              if in_scope repo_id branch j && is_present (lookup j s)
              then none
              else lookup j later))
    unfolding batch_of
    lookup-promote later j h = rw (← in_scope-present j) (committed later j h)

    -- A file that is staged anew, with another content, while a transaction that commits runs is
    -- lost: the promotion that carried its older content to the store removes the newer one from
    -- the area, so it is in neither.
    pub promote_drops_newer :
        (path : String) (old : Entry) (newer : File)
        → store (batch_of repo_id branch git_sha actor now s) ≡ none
        → lookup (key_at repo_id branch path) s ≡ some old
        → old ≢ entry_of newer
        → let later = write (key_at repo_id branch path) newer s in
          (lookup (key_at repo_id branch path) later ≡ some (entry_of newer))
          × (lookup
                (key_at repo_id branch path)
                (promote store has_checks added repo_id branch git_sha actor now s later).area
              ≡ none)
          × (carried path (batch_of repo_id branch git_sha actor now s).files
              ≡ some (promotion_file (path, file_of old)))
          × (promotion_file (path, file_of old) ≢ promotion_file (path, newer))
    unfolding write
    promote_drops_newer path old newer h e d = (
      ground (arith, lookup-insert key key (entry_of newer) s, key_beq_iff key key),
      ground (
        arith,
        lookup-promote (write key newer s) key h,
        eq_iff repo_id repo_id,
        eq_iff branch branch,
      ),
      rw (carried-batch_of path, e),
      λ same. d (ground arith),
    )
      where
        key : Key
        key = key_at repo_id branch path

    after_commit-checked :
        (b : PromotionBatch) (fs : List PromotionFile) (later : Area)
        → (after_commit store has_checks added b fs later).checked ≡ (
            if has_checks && not (is_empty fs)
            then some (check_input store has_checks added b)
            else none)
    unfolding after_commit
    after_commit-checked b [] later = ground arith
    after_commit-checked b (f ∷ fs) later = ground arith

    settle-checked :
        (b : PromotionBatch) (o : Option E) (later : Area)
        → (settle store has_checks added b o later).checked ≡ (
            if is_present o
            then none
            else if has_checks && not (is_empty b.files)
            then some (check_input store has_checks added b)
            else none)
    unfolding settle
    settle-checked b none later = after_commit-checked b b.files later
    settle-checked b (some e) later = refl

    -- The checks run exactly when they are wired and the store has committed at least one file, and
    -- then once, on the paths of the batch.
    pub promote-checked :
        (later : Area)
        → let b = batch_of repo_id branch git_sha actor now s in
          (promote store has_checks added repo_id branch git_sha actor now s later).checked ≡ (
            if is_present (store b)
            then none
            else if has_checks && not (is_empty b.files)
            then some (check_input store has_checks added b)
            else none)
    unfolding promote
    promote-checked later = settle-checked batch (store batch) later
