-- ===== src/Tests/Resync.antt =====
-- The branch reconciler and the startup alignment on one repository with two missed commits.
use veska.Common.{
  ◌≡◌, refl, sym, true, false, ap, ◌≢◌, Option, none, List, [], ◌∷◌, ◌++◌, String, ok, err, ◌==◌,
  string_eq, if◌then◌else◌, All,
}
use veska.Common.Dict.{delete_if}
use veska.Staging.Area.{clear}
use veska.Staging.Gate.{new_gate, bump_generation}
use veska.BranchReconcile
use veska.Resync
use veska.Resync.Replay
use veska.Resync.Gone

-- The store is the active branch of the one repository.
abbrev one_branch : BranchReconcile.BranchStore String String
one_branch = record {
  active_branch = λ s repo. ok s;
  set_active_branch = λ s repo branch. ok branch;
}

abbrev read_only : BranchReconcile.BranchStore String String
read_only = record one_branch { set_active_branch = λ s repo branch. err "read only" }

abbrev on_main : BranchReconcile.World String
on_main = record { store = "main"; gate = new_gate; area = [] }

abbrev on_dev : BranchReconcile.World String
on_dev = record { store = "dev"; gate = bump_generation new_gate; area = [] }

abbrev repo_name : String
repo_name = "r"

abbrev main_branch : String
main_branch = "main"

abbrev dev_branch : String
dev_branch = "dev"

switch_to_dev :
    BranchReconcile.reconcile one_branch repo_name (ok dev_branch) on_main ≡ (on_dev, ok dev_branch)
unfolding BranchReconcile.reconcile clear delete_if
switch_to_dev = refl

reconcile_settles_example :
    BranchReconcile.reconcile one_branch repo_name (ok dev_branch) on_dev ≡ (on_dev, ok "")
reconcile_settles_example =
    BranchReconcile.reconcile_settles one_branch repo_name dev_branch dev_branch on_main on_dev
      (λ s s' taken. sym taken) switch_to_dev

-- The second commit deletes b.go.
abbrev two_commits : Resync.GitQuerier String
two_commits = record {
  current_branch = λ root. ok dev_branch;
  head = λ root. ok "c2";
  is_ancestor = λ root sha head. ok true;
  commits_since = λ root sha head. ok ("c1" ∷ "c2" ∷ []);
  changed_files = λ root sha. ok ("a.go" ∷ "b.go" ∷ []);
  read_file_at_commit = λ root sha f. if f == "b.go" then err "deleted" else ok sha;
}

abbrev all_fine : List Resync.Event → Option String
all_fine log = none

abbrev behind : Resync.RepoRecord
behind = record {
  repo_id = "r";
  root_path = "/r";
  active_branch = "main";
  last_promoted_sha = "c0";
}

abbrev replayed : List Resync.Event
replayed =
    Resync.saved "r" "main" "a.go" "c1"
    ∷ Resync.promoted "r" "main" "c1" Resync.system_actor
    ∷ Resync.saved "r" "main" "a.go" "c2"
    ∷ Resync.promoted "r" "main" "c2" Resync.system_actor
    ∷ []

abbrev missed : List String
missed = "c1" ∷ "c2" ∷ []

-- b.go was saved before.
abbrev before : List Resync.Event
before = Resync.saved "r" "main" "b.go" "old" ∷ []

replay-missed : Resync.replay two_commits all_fine all_fine behind missed [] ≡ (replayed, none)
unfolding Resync.replay Resync.replay_commit Resync.save_files
replay-missed = refl

replay_lem_example : replayed ≡ [] ++ Replay.expected two_commits all_fine all_fine behind missed
replay_lem_example =
    Replay.replay_lem two_commits all_fine all_fine behind missed [] replayed replay-missed

replay_gone_example :
    Gone.saves_to two_commits all_fine all_fine "b.go"
      (Resync.replay two_commits all_fine all_fine behind missed before).0
    ≡ Gone.saves_to two_commits all_fine all_fine "b.go" before
replay_gone_example =
    Gone.replay_gone two_commits all_fine all_fine behind "b.go" missed before
      (("deleted", refl), (("deleted", refl), tt))

abbrev at_startup : Resync.Startup two_commits all_fine all_fine read_only
at_startup = record { world = on_main; log = [] }

-- The commits of dev are promoted as those of main.
resync_repo-read_only :
    (Resync.resync_repo two_commits all_fine all_fine read_only true behind at_startup).0.log
    ≡ replayed
unfolding Resync.resync_repo Resync.align Resync.replay Resync.replay_commit Resync.save_files
    BranchReconcile.reconcile
resync_repo-read_only = refl

abbrev after_startup : Resync.Startup two_commits all_fine all_fine read_only
after_startup = record {
  world = record on_main { gate = bump_generation new_gate };
  log = replayed;
}

resync_repo-after :
    Resync.resync_repo two_commits all_fine all_fine read_only true behind at_startup
    ≡ (after_startup, none)
unfolding Resync.resync_repo Resync.align Resync.replay Resync.replay_commit Resync.save_files
    BranchReconcile.reconcile clear delete_if
resync_repo-after = refl

not_head : behind.last_promoted_sha ≢ "c2"
not_head e = let same : false ≡ true = ap (λ z. z == "c2") e in cc

failed_switch_example :
    (after_startup.log ≡ [] ++ Replay.expected two_commits all_fine all_fine behind missed)
    × All
        (λ e. Replay.event_branch two_commits all_fine all_fine e ≡ main_branch)
        (Replay.expected two_commits all_fine all_fine behind missed)
    × (after_startup.world.store ≡ main_branch)
    × (after_startup.world.area ≡ clear repo_name main_branch [])
failed_switch_example =
    Replay.failed_switch two_commits all_fine all_fine read_only behind at_startup after_startup
      dev_branch main_branch "c2" missed "read only" refl (λ e. cc) refl refl (λ e. cc) refl refl
      not_head (λ e. cc) refl refl resync_repo-after
