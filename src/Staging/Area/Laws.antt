-- ===== src/Staging/Area/Laws.antt =====
-- What each operation of the staging area does to every entry, its own and all others.
use veska.Common.{
  ℕ, ◌≡◌, refl, Bool, true, ◌&&◌, Option, none, some, [], ◌∷◌, String, ◌==◌, string_eq, nat_eq,
  eq_iff, if◌then◌else◌, arith, contains, Bool-cases, inl, inr,
}
use veska.Common.Dict.{is_present, lookup, lookup-insert, lookup-delete, lookup-delete_if}
use veska.Staging.Area.{
  Key, key_eq, Entry, File, Area, entry_of, file_of, stage, delete_staged_file, in_scope,
  staged_files, clear, snapshot,
}

abbrev pub accepted : Option (ℕ × ℕ) → Bool
accepted none = true
accepted (some (gen, current)) = gen == current

-- Stage reports whether its guard holds. If it does, the file's entry is the given one; every other
-- entry, and every entry when the guard fails, is as it was.
pub lookup-stage :
    (guard : Option (ℕ × ℕ)) (k j : Key) (f : File) (s : Area)
    → ((stage guard k f s).1 ≡ accepted guard)
      × (lookup j (stage guard k f s).0
          ≡ (if accepted guard && j == k then some (entry_of f) else lookup j s))
unfolding stage
lookup-stage none k j f s = (refl, lookup-insert k j (entry_of f) s)
lookup-stage (some (gen, current)) k j f s = elim (Bool-cases (gen == current)) [
  | inl same ↦ rw same (refl, lookup-insert k j (entry_of f) s)
  | inr other ↦ rw other (refl, refl)
]

-- DeleteStagedFile removes the entry of its file and no other.
pub lookup-delete_staged_file :
    (k j : Key) (s : Area)
    → lookup j (delete_staged_file k s) ≡ (if k == j then none else lookup j s)
unfolding delete_staged_file
lookup-delete_staged_file k j s = lookup-delete k j s

-- Clear removes the entries of its repository and branch and no other.
pub lookup-clear :
    (repo_id branch : String) (j : Key) (s : Area)
    → lookup j (clear repo_id branch s) ≡ (if in_scope repo_id branch j then none else lookup j s)
unfolding clear
lookup-clear repo_id branch j s = lookup-delete_if (in_scope repo_id branch) j s

abbrev pub file_at : Option Entry → Option File
file_at none = none
file_at (some e) = some (file_of e)

abbrev pub key_at : String → String → String → Key
key_at repo_id branch path = record { repo_id = repo_id; branch = branch; file_path = path }

-- The snapshot of a branch holds just the files staged for that repository and branch, each with
-- what was staged for it.
pub lookup-snapshot :
    (repo_id branch path : String) (s : Area)
    → lookup path (snapshot repo_id branch s) ≡ file_at (lookup (key_at repo_id branch path) s)
unfolding snapshot lookup
lookup-snapshot repo_id branch path [] = refl
lookup-snapshot repo_id branch path ((k, e) ∷ s) = ground (
  arith,
  eq_iff k.repo_id repo_id,
  eq_iff repo_id k.repo_id,
  eq_iff k.branch branch,
  eq_iff branch k.branch,
  eq_iff path k.file_path,
  lookup-snapshot repo_id branch path s,
  lookup-insert k.file_path path (file_of e) (snapshot repo_id branch s),
)

-- A path is listed for a branch exactly when a file is staged for it there.
pub contains-staged_files :
    (repo_id branch path : String) (s : Area)
    → contains (staged_files repo_id branch s) path
      ≡ is_present (lookup (key_at repo_id branch path) s)
unfolding staged_files lookup contains
contains-staged_files repo_id branch path [] = refl
contains-staged_files repo_id branch path ((k, e) ∷ s) = ground (
  arith,
  eq_iff k.repo_id repo_id,
  eq_iff repo_id k.repo_id,
  eq_iff k.branch branch,
  eq_iff branch k.branch,
  contains-staged_files repo_id branch path s,
)
