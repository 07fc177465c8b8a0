-- ===== src/Domain/TaskSet.antt =====
-- internal/core/domain/task.go. Tasks are shared by pointer between the set and its callers, so the
-- store of tasks is explicit: a pointer is a number.
pub mod Active
use veska.Common.{
  ℕ, Bool, true, false, not, ◌&&◌, Option, none, some, List, [], ◌∷◌, reject_if, ◌>>=◌, ◌>>◌,
  String, ◌==◌, string_eq, nat_eq, Result, ok, err, if◌then◌else◌,
}
use veska.Common.Dict.{Dict, lookup, insert}

pub record Task : Type 0 where
  pub id : String
  pub repo_id : String
  pub tracker : Option String
  pub tracker_ref : Option String
  pub title : String
  pub active : Bool
  pub created_at : ℕ

pub data TaskOption : Type 0 where
  with_tracker : String → String → TaskOption
  with_active : TaskOption
  with_created_at : ℕ → TaskOption

pub record TaskSpec : Type 0 where
  pub id : String
  pub repo_id : String
  pub title : String

pub data NewTaskError : Type 0 where
  empty_id empty_repo_id empty_title : NewTaskError

-- No option of a task fails.
unfoldable pub apply_option : TaskOption → Task → Task
apply_option (with_tracker tracker ref) t = record t {
  tracker = some tracker;
  tracker_ref = some ref;
}
apply_option with_active t = record t { active = true }
apply_option (with_created_at at) t = record t { created_at = at }

unfoldable pub apply_options : List TaskOption → Task → Task
unfolding apply_option
apply_options [] t = t
apply_options (o ∷ os) t = apply_options os (apply_option o t)

-- NewTask; `now` is the clock.
unfoldable pub new_task : ℕ → TaskSpec → List TaskOption → Result NewTaskError Task
unfolding apply_options
new_task now spec opts = do
  reject_if (spec.id == "") empty_id
  reject_if (spec.repo_id == "") empty_repo_id
  reject_if (spec.title == "") empty_title
  ok (
      apply_options opts (record {
        id = spec.id;
        repo_id = spec.repo_id;
        tracker = none;
        tracker_ref = none;
        title = spec.title;
        active = false;
        created_at = now;
      }))

abbrev pub Store : Type 0
Store = ℕ → Task

abbrev pub put : ℕ → Task → Store → Store
put p t s q = if q == p then t else s q

pub record TaskSet : Type 0 where
  pub tasks : Dict String ℕ
  pub active_by_repo : Dict String ℕ

abbrev pub new_task_set : TaskSet
new_task_set = record { tasks = []; active_by_repo = [] }

pub data TaskError : Type 0 where
  nil_task duplicate_active_task : TaskError

-- `existing, ok := ts.activeByRepo[t.RepoID]; ok && existing.ID != t.ID`.
abbrev pub other_active : Store → Option ℕ → String → Bool
other_active s none id = false
other_active s (some p) id = not ((s p).id == id)

unfoldable pub add : Option ℕ → Store → TaskSet → Result TaskError TaskSet
add none s ts = err nil_task
add (some p) s ts =
    let t = s p in
    if t.active
    then (if other_active s (lookup t.repo_id ts.active_by_repo) t.id
        then err duplicate_active_task
        else ok (record {
          tasks = insert t.id p ts.tasks;
          active_by_repo = insert t.repo_id p ts.active_by_repo;
        }))
    else ok (record ts { tasks = insert t.id p ts.tasks })

abbrev pub active : String → TaskSet → Option ℕ
active repo_id ts = lookup repo_id ts.active_by_repo

-- The previous active task of the repository is switched off, if it has another id.
unfoldable pub deactivate : Option ℕ → String → Store → Store
deactivate none id s = s
deactivate (some p) id s = if (s p).id == id then s else put p (record (s p) { active = false }) s

unfoldable pub set_active : ℕ → Store → TaskSet → Store × TaskSet
unfolding deactivate
set_active p s ts =
    let t = s p in
    let s' = deactivate (lookup t.repo_id ts.active_by_repo) t.id s in
    (
      put p (record (s' p) { active = true }) s',
      record {
        tasks = insert t.id p ts.tasks;
        active_by_repo = insert t.repo_id p ts.active_by_repo;
      },
    )
