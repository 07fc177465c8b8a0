-- ===== src/Resync/Replay.antt =====
-- What a replay of missed commits saves and promotes, and what it leaves out.
use veska.Common.{
  ◌≡◌, ◌≢◌, refl, sym, subst, ap, ◌∙◌, true, false, Option, none, some, List, [], ◌∷◌, ◌++◌, String,
  Result, ok, err, ◌==◌, string_eq, eq_iff, arith, All, All-append,
}
use mathlib.Core.List.{append_assoc, append-nil}
use veska.Staging.Area.{clear}
use veska.BranchReconcile.{BranchStore, reconcile}
use veska.Resync.{
  RepoRecord, Event, saved, promoted, reparsed, GitQuerier, system_actor, save_read, save_files,
  replay_files, replay_commit, replay, unless_failed, align, Startup, resync_repo,
}

unless_failed_inv {ℓ} :
    {E : Type ℓ} (done rest : List Event × Option E) (log : List Event)
    → unless_failed done rest ≡ (log, none)
    → (done.1 ≡ none) × (rest ≡ (log, none))
unless_failed_inv (log', some e) rest log h = cc
unless_failed_inv (log', none) rest log h = (refl, h)

module _ {ℓ} {E : Type ℓ} (git : GitQuerier E)
    (promote_answer reparse_answer : List Event → Option E) where
  abbrev pub files_in : Result E (List String) → List String
  files_in (err e) = []
  files_in (ok files) = files

  abbrev pub save_of : RepoRecord → String → Result E String → List Event
  save_of repo f (err e) = []
  save_of repo f (ok src) = saved repo.repo_id repo.active_branch f src ∷ []

  -- The saves of the files that can be read at a commit.
  abbrev pub saves : RepoRecord → String → List String → List Event
  saves repo sha [] = []
  saves repo sha (f ∷ fs) =
      save_of repo f (git.read_file_at_commit repo.root_path sha f) ++ saves repo sha fs

  -- Each commit in turn: the files that it changed, then its promotion.
  abbrev pub expected : RepoRecord → List String → List Event
  expected repo [] = []
  expected repo (sha ∷ shas) =
      saves repo sha (files_in (git.changed_files repo.root_path sha))
      ++ promoted repo.repo_id repo.active_branch sha system_actor ∷ expected repo shas

  save_read_lem :
      (repo : RepoRecord) (f : String) (r : Result E String) (log : List Event)
      → save_read git promote_answer reparse_answer repo f r log ≡ log ++ save_of repo f r
  save_read_lem repo f (err e) log = sym (append-nil log)
  save_read_lem repo f (ok src) log = refl

  pub save_files_lem :
      (repo : RepoRecord) (sha : String) (fs : List String) (log : List Event)
      → save_files git promote_answer reparse_answer repo sha fs log ≡ log ++ saves repo sha fs
  unfolding save_files
  save_files_lem repo sha [] log = sym (append-nil log)
  save_files_lem repo sha (f ∷ fs) log =
      let r = git.read_file_at_commit repo.root_path sha f in
      save_files_lem repo sha fs (save_read git promote_answer reparse_answer repo f r log)
      ∙ ap (λ z. z ++ saves repo sha fs) (save_read_lem repo f r log)
      ∙ append_assoc log (save_of repo f r) (saves repo sha fs)

  replay_files_lem :
      (repo : RepoRecord) (sha : String) (r : Result E (List String)) (log log' : List Event)
      → replay_files git promote_answer reparse_answer repo sha r log ≡ (log', none)
      → log'
        ≡ log
          ++ (saves repo sha (files_in r)
              ++ promoted repo.repo_id repo.active_branch sha system_actor ∷ [])
  replay_files_lem repo sha (err e) log log' h = cc
  replay_files_lem repo sha (ok files) log log' h =
      sym (ap (λ p. p.0) h)
      ∙ ap (λ z. z ++ promoted repo.repo_id repo.active_branch sha system_actor ∷ [])
          (save_files_lem repo sha files log)
      ∙ append_assoc log (saves repo sha files) _

  -- A replay without an error has saved, for each missed commit in order, every changed file that can
  -- be read at it, under the branch of the record, and then promoted the commit, and nothing else.
  pub replay_lem :
      (repo : RepoRecord) (shas : List String) (log log' : List Event)
      → replay git promote_answer reparse_answer repo shas log ≡ (log', none)
      → log' ≡ log ++ expected repo shas
  unfolding replay replay_commit
  replay_lem repo [] log log' h = sym (ap (λ p. p.0) h) ∙ sym (append-nil log)
  replay_lem repo (sha ∷ shas) log log' h =
      let done = replay_commit git promote_answer reparse_answer repo sha log in
      let (fine, rest) = unless_failed_inv done _ log' h in
      let files = git.changed_files repo.root_path sha in
      replay_lem repo shas done.0 log' rest
      ∙ ap (λ z. z ++ expected repo shas)
          (replay_files_lem repo sha files log done.0 (ap (λ z. (done.0, z)) fine))
      ∙ append_assoc log _ (expected repo shas)
      ∙ ap (λ z. log ++ z) (append_assoc (saves repo sha (files_in files)) _ (expected repo shas))

  abbrev pub event_branch : Event → String
  event_branch (saved repo_id branch path src) = branch
  event_branch (promoted repo_id branch sha actor) = branch
  event_branch (reparsed repo) = repo.active_branch

  saves-branch :
      (repo : RepoRecord) (sha : String) (fs : List String)
      → All (λ e. event_branch e ≡ repo.active_branch) (saves repo sha fs)
  saves-branch repo sha [] = tt
  saves-branch repo sha (f ∷ fs) =
      All-append _ (save_of repo f (git.read_file_at_commit repo.root_path sha f)) _
        (one (git.read_file_at_commit repo.root_path sha f)) (saves-branch repo sha fs)
    where
      one :
          (r : Result E String) → All (λ e. event_branch e ≡ repo.active_branch) (save_of repo f r)
      one (err e) = tt
      one (ok src) = (refl, tt)

  expected-branch :
      (repo : RepoRecord) (shas : List String)
      → All (λ e. event_branch e ≡ repo.active_branch) (expected repo shas)
  expected-branch repo [] = tt
  expected-branch repo (sha ∷ shas) =
      All-append _ (saves repo sha (files_in (git.changed_files repo.root_path sha))) _
        (saves-branch repo sha (files_in (git.changed_files repo.root_path sha)))
        (refl, expected-branch repo shas)

  module _ {κ} {S : Type κ} (store : BranchStore S E) where
    -- The working tree is on another branch than the store and the record know, the store does not
    -- take it, and HEAD of the working tree descends from the last promoted commit, which is another
    -- one. When the repository is then resynchronised without an error, the commits from that one to
    -- HEAD are saved and promoted one by one, all under the branch of the record, which is not that
    -- of the working tree. The staged files of the branch of the record are cleared, and the store
    -- stays as it was.
    pub failed_switch :
        (repo : RepoRecord) (s s' : Startup git promote_answer reparse_answer store)
        (cur prev head : String) (shas : List String) (e : E)
        → git.current_branch repo.root_path ≡ ok cur
        → cur ≢ ""
        → store.active_branch s.world.store repo.repo_id ≡ ok prev
        → repo.active_branch ≡ prev
        → cur ≢ prev
        → store.set_active_branch s.world.store repo.repo_id cur ≡ err e
        → git.head repo.root_path ≡ ok head
        → repo.last_promoted_sha ≢ head
        → repo.last_promoted_sha ≢ ""
        → git.is_ancestor repo.root_path repo.last_promoted_sha head ≡ ok true
        → git.commits_since repo.root_path repo.last_promoted_sha head ≡ ok shas
        → resync_repo git promote_answer reparse_answer store true repo s ≡ (s', none)
        → (s'.log ≡ s.log ++ expected repo shas)
          × All (λ e. event_branch e ≡ prev) (expected repo shas)
          × (s'.world.store ≡ s.world.store)
          × (s'.world.area ≡ clear repo.repo_id prev s.world.area)
    unfolding resync_repo reconcile align
    failed_switch repo s s' cur prev head shas e c n known own other refused at_head behind before
          older since h =
        let named : cur == "" ≡ false = ground (arith, eq_iff cur "") in
        let apart : cur == prev ≡ false = ground (arith, eq_iff cur prev) in
        let missed : repo.last_promoted_sha == head ≡ false =
          ground (arith, eq_iff repo.last_promoted_sha head) in
        let some_sha : repo.last_promoted_sha == "" ≡ false =
          ground (arith, eq_iff repo.last_promoted_sha "") in
        let replayed = replay git promote_answer reparse_answer repo shas s.log in
        let ran =
          rw (c, named, known, apart, refused, at_head, missed, some_sha, older, since) at h in
        let fine : replayed.1 ≡ none = ap (λ p. p.1) ran in
        (
          sym (ap (λ p. p.0.log) ran)
              ∙ replay_lem repo shas s.log replayed.0 (ap (λ z. (replayed.0, z)) fine),
          subst (λ b. All (λ x. event_branch x ≡ b) (expected repo shas)) own
              (expected-branch repo shas),
          sym (ap (λ p. p.0.world.store) ran),
          sym (ap (λ p. p.0.world.area) ran),
        )
