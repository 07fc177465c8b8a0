-- ===== src/Resync.antt =====
-- internal/application/resync.go: the startup alignment of the registered repositories with their
-- working trees. Git is a parameter. Saves, promotions and reparses are recorded in a log, in order,
-- and what a promotion or reparse answers may depend on the log before it.
pub mod Replay
pub mod Gone
use veska.Common.{
  ℕ, Bool, true, false, Option, none, some, List, [], ◌∷◌, ◌++◌, String, Result, ok, err, ◌==◌,
  string_eq, if◌then◌else◌,
}
use veska.Domain.Actor.{Actor, system}
use veska.BranchReconcile.{BranchStore, World, reconcile}

pub record RepoRecord : Type 0 where
  pub repo_id : String
  pub root_path : String
  pub active_branch : String
  pub last_promoted_sha : String

pub data Event : Type 0 where
  saved : String → String → String → String → Event
  promoted : String → String → String → Actor → Event
  reparsed : RepoRecord → Event

-- GitQuerier, with CurrentBranch of the reconciler.
pub record GitQuerier {ℓ} (E : Type ℓ) : Type ℓ where
  pub current_branch : String → Result E String
  pub head : String → Result E String
  pub is_ancestor : String → String → String → Result E Bool
  pub commits_since : String → String → String → Result E (List String)
  pub changed_files : String → String → Result E (List String)
  pub read_file_at_commit : String → String → String → Result E String

abbrev pub system_actor : Actor
system_actor = record { id = "service:veska"; kind = system }

-- An error ends a sequence.
abbrev pub unless_failed {ℓ} :
    {E : Type ℓ} → List Event × Option E → List Event × Option E → List Event × Option E
unless_failed (log, some e) rest = (log, some e)
unless_failed (log, none) rest = rest

module _ {ℓ} {E : Type ℓ} (git : GitQuerier E)
    (promote_answer reparse_answer : List Event → Option E) where
  -- A file that cannot be read at the commit is skipped.
  abbrev pub save_read : RepoRecord → String → Result E String → List Event → List Event
  save_read repo f (err e) log = log
  save_read repo f (ok src) log = log ++ saved repo.repo_id repo.active_branch f src ∷ []

  unfoldable pub save_files : RepoRecord → String → List String → List Event → List Event
  save_files repo sha [] log = log
  save_files repo sha (f ∷ fs) log =
      save_files repo sha fs (save_read repo f (git.read_file_at_commit repo.root_path sha f) log)

  abbrev pub promote_after : RepoRecord → String → List Event → List Event × Option E
  promote_after repo sha log =
      (log ++ promoted repo.repo_id repo.active_branch sha system_actor ∷ [], promote_answer log)

  abbrev pub replay_files :
      RepoRecord → String → Result E (List String) → List Event → List Event × Option E
  replay_files repo sha (err e) log = (log, some e)
  replay_files repo sha (ok files) log = promote_after repo sha (save_files repo sha files log)

  unfoldable pub replay_commit : RepoRecord → String → List Event → List Event × Option E
  unfolding save_files
  replay_commit repo sha log = replay_files repo sha (git.changed_files repo.root_path sha) log

  unfoldable pub replay : RepoRecord → List String → List Event → List Event × Option E
  unfolding replay_commit
  replay repo [] log = (log, none)
  replay repo (sha ∷ shas) log =
      let done = replay_commit repo sha log in unless_failed done (replay repo shas done.0)

  abbrev pub reparse : RepoRecord → List Event → List Event × Option E
  reparse repo log = (log ++ reparsed repo ∷ [], reparse_answer log)

  abbrev pub with_commits : RepoRecord → Result E (List String) → List Event → List Event × Option E
  with_commits repo (err e) log = (log, some e)
  with_commits repo (ok shas) log = replay repo shas log

  abbrev pub with_ancestry :
      RepoRecord → String → Result E Bool → List Event → List Event × Option E
  with_ancestry repo head (err e) log = (log, some e)
  with_ancestry repo head (ok false) log = reparse repo log
  with_ancestry repo head (ok true) log =
      with_commits repo (git.commits_since repo.root_path repo.last_promoted_sha head) log

  abbrev pub with_head : RepoRecord → Result E String → List Event → List Event × Option E
  with_head repo (err e) log = (log, some e)
  with_head repo (ok head) log =
      if repo.last_promoted_sha == head
      then (log, none)
      else if repo.last_promoted_sha == ""
      then reparse repo log
      else with_ancestry repo head (git.is_ancestor repo.root_path repo.last_promoted_sha head) log

  -- resyncRepo from HEAD on, once the branch is reconciled.
  unfoldable pub align : RepoRecord → List Event → List Event × Option E
  unfolding replay
  align repo log = with_head repo (git.head repo.root_path) log

  -- The branch that Reconcile answers, if any; its error is dropped.
  abbrev pub rebranched : RepoRecord → Result E String → RepoRecord
  rebranched repo (err e) = repo
  rebranched repo (ok branch) =
      if branch == "" then repo else record repo { active_branch = branch }

  module _ {κ} {S : Type κ} (store : BranchStore S E) where
    pub record Startup : Type κ where
      pub world : World S
      pub log : List Event

    -- resyncRepo; the reconciler is optional.
    unfoldable pub resync_repo : Bool → RepoRecord → Startup → Startup × Option E
    unfolding align
    resync_repo false repo s =
        let (log, failure) = align repo s.log in (record s { log = log }, failure)
    resync_repo true repo s =
        let (world, branch) =
          reconcile store repo.repo_id (git.current_branch repo.root_path) s.world in
        let (log, failure) = align (rebranched repo branch) s.log in
        (record { world = world; log = log }, failure)

    -- The loop of Run: a repository that fails does not stop the others.
    unfoldable pub resync_all : Bool → List RepoRecord → Startup → Startup
    unfolding resync_repo
    resync_all reconciler [] s = s
    resync_all reconciler (repo ∷ repos) s =
        resync_all reconciler repos (resync_repo reconciler repo s).0

    -- Run, with the answer of ListRepos.
    unfoldable pub run_startup : Bool → Result E (List RepoRecord) → Startup → Startup × Option E
    run_startup reconciler (err e) s = (s, some e)
    run_startup reconciler (ok repos) s = (resync_all reconciler repos s, none)
