-- ===== src/Backup.antt =====
-- internal/infrastructure/backup/prune.go: the retention sweep over the backup directory. What the
-- directory holds and which removals fail are parameters. Times and ages are nanoseconds from 0, and
-- a negative age or count acts as 0. A removed path stands as the name of its file.
pub mod Retention
use Prim.Native.String.{len, slice}
use veska.Common.{
  ℕ, zero, suc, ◌+◌, ◌-◌, Bool, true, false, not, ◌&&◌, ◌||◌, Option, none, some, List, [], ◌∷◌,
  ◌++◌, String, Result, ok, err, ◌>>=◌, ◌==◌, string_eq, if◌then◌else◌, ltb, leb, sort_by, str_lt,
}

pub record PruneOptions : Type 0 where
  pub keep_min_count : ℕ
  pub max_age : ℕ
  pub now : ℕ

pub record PruneResult : Type 0 where
  pub deleted : List String
  pub kept : ℕ

-- An entry of the directory; its time is `none` when Info fails.
pub record DirEntry : Type 0 where
  pub name : String
  pub is_dir : Bool
  pub mod_time : Option ℕ

pub record BackupFile : Type 0 where
  pub name : String
  pub mod_time : ℕ

pub data ReadDirError : Type 0 where
  not_exist read_failed : ReadDirError

pub data PruneError : Type 0 where
  read_dir : PruneError
  stat remove : String → PruneError

abbrev pub user_prefix : String
user_prefix = "veska-backup-"

-- `strings.HasPrefix`.
abbrev pub has_prefix : String → String → Bool
has_prefix s p = slice s 0 (len p) == p

-- `strings.HasSuffix`.
abbrev pub has_suffix : String → String → Bool
has_suffix s p = leb (len p) (len s) && slice s (len s - len p) (len s) == p

abbrev pub is_user_backup : DirEntry → Bool
is_user_backup e = not e.is_dir && (has_prefix e.name user_prefix && has_suffix e.name ".tar.gz")

abbrev pub stat_of : String → Option ℕ → Result PruneError BackupFile
stat_of name none = err (stat name)
stat_of name (some t) = ok (record { name = name; mod_time = t })

unfoldable pub collect : List DirEntry → Result PruneError (List BackupFile)
collect [] = ok []
collect (e ∷ es) =
    let rest = collect es in
    if is_user_backup e
    then (stat_of e.name e.mod_time >>= λ f. rest >>= λ fs. ok (f ∷ fs))
    else rest

abbrev pub newest_first : BackupFile → BackupFile → Bool
newest_first a b = str_lt b.name a.name

-- Within the greatest age, if there is one.
abbrev pub is_recent : PruneOptions → BackupFile → Bool
is_recent o f = ltb 0 o.max_age && leb o.now (f.mod_time + o.max_age)

-- The loop of Prune, with the removals that fail.
unfoldable pub sweep :
    (String → Bool)
    → PruneOptions
    → ℕ
    → List BackupFile
    → PruneResult
    → PruneResult × Option PruneError
sweep fails o i [] r = (r, none)
sweep fails o i (f ∷ fs) r =
    let spared = sweep fails o (i + 1) fs (record r { kept = r.kept + 1 }) in
    let removed = sweep fails o (i + 1) fs (record r { deleted = r.deleted ++ f.name ∷ [] }) in
    if ltb i o.keep_min_count
    then spared
    else if is_recent o f
    then spared
    else if fails f.name
    then (r, some (remove f.name))
    else removed

abbrev pub nothing_pruned : PruneResult
nothing_pruned = record { deleted = []; kept = 0 }

abbrev pub sweep_collected :
    (String → Bool)
    → PruneOptions
    → Result PruneError (List BackupFile)
    → PruneResult × Option PruneError
sweep_collected fails o (err e) = (nothing_pruned, some e)
sweep_collected fails o (ok fs) = sweep fails o 0 (sort_by newest_first fs) nothing_pruned

unfoldable pub prune :
    (String → Bool)
    → Result ReadDirError (List DirEntry)
    → PruneOptions
    → PruneResult × Option PruneError
unfolding collect sweep
prune fails (err not_exist) o = (nothing_pruned, none)
prune fails (err read_failed) o = (nothing_pruned, some read_dir)
prune fails (ok es) o = sweep_collected fails o (collect es)
