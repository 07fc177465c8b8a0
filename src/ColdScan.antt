-- ===== src/ColdScan.antt =====
-- internal/application/coldscan.go: one cold scan of a working tree, with the tracker that reports
-- it. The tree is what the walk meets, in its order. HEAD, the ignore list, the answer of the
-- promotion and the lower-cased extension of a name are parameters.
pub mod Walk
use Prim.Native.String.{◌++◌ as concat}
use veska.Common.{
  ℕ, ◌+◌, Bool, true, false, not, ◌&&◌, ◌||◌, Option, none, some, List, [], ◌∷◌, ◌++◌, String,
  Result, ok, err, ◌==◌, string_eq, nat_eq, if◌then◌else◌, contains, take, pos,
}
use veska.Domain.Actor.{Actor, system}
use veska.ScanTracker.{Scans, start, progress, set_phase, end_scan}

-- The entries of one directory: a file with its bytes, if it is regular and if it can be read, a
-- directory with what is below it, or an entry whose walk fails.
pub data Tree {ℓ} (E : Type ℓ) : Type ℓ where
  done : Tree E
  file : String → Bool → Option (List ℕ) → Tree E → Tree E
  dir : String → Tree E → Tree E → Tree E
  broken : E → Tree E

-- The calls of save and promote: repository, branch, and what is saved or promoted.
pub data Event : Type 0 where
  saved : String → String → String → List ℕ → Event
  promoted : String → String → String → Actor → Event

abbrev pub cold_scan_actor : Actor
cold_scan_actor = record { id = "service:veska"; kind = system }

pub record Scan : Type 0 where
  pub log : List Event
  pub tracker : Scans
  pub files_saved : ℕ

-- What the scan is given.
pub record Config : Type 0 where
  pub repo_id : String
  pub branch : String
  pub should_ignore : String → Bool
  pub extensions : List String
  pub extension : String → String

abbrev pub is_likely_binary : List ℕ → Bool
is_likely_binary src = contains (take 8192 src) 0

abbrev pub is_interesting_for_staging : Config → String → Bool
is_interesting_for_staging c name = name == "go.mod" || contains c.extensions (c.extension name)

abbrev pub read_source : Option (List ℕ) → Bool → Option (List ℕ)
read_source none interesting = none
read_source (some src) interesting =
    if not (is_likely_binary src) && interesting then some src else none

-- What fileStager.stage saves of a file.
unfoldable pub staged_source : Config → String → String → Bool → Option (List ℕ) → Option (List ℕ)
staged_source c rel name regular content =
    if not regular
    then none
    else if name == ".veskaignore"
    then none
    else if c.should_ignore rel
    then none
    else read_source content (is_interesting_for_staging c name)

-- The counting save.
abbrev pub save_counted : Config → String → Option (List ℕ) → Scan → Scan
save_counted c rel none s = s
save_counted c rel (some src) s = record s {
  log = s.log ++ saved c.repo_id c.branch rel src ∷ [];
  files_saved = s.files_saved + 1;
  tracker = progress c.repo_id (pos (s.files_saved + 1)) (pos 0) s.tracker;
}

-- walkDirEntry.
abbrev pub skips : Config → String → String → Bool
skips c rel name = name == ".git" || c.should_ignore (concat rel "/")

abbrev pub unless_broken {ℓ} : {E : Type ℓ} → Scan × Option E → Scan × Option E → Scan × Option E
unless_broken (s, some e) rest = (s, some e)
unless_broken (s, none) rest = rest

-- walkAndSave below a directory, whose relative path with its slash is `pre`.
unfoldable pub walk_and_save {ℓ} : {E : Type ℓ} → Config → String → Tree E → Scan → Scan × Option E
unfolding staged_source
walk_and_save c pre done s = (s, none)
walk_and_save c pre (broken e) s = (s, some e)
walk_and_save c pre (file name regular content rest) s =
    let rel = concat pre name in
    walk_and_save c pre rest (save_counted c rel (staged_source c rel name regular content) s)
walk_and_save c pre (dir name children rest) s =
    let rel = concat pre name in
    let skipped = walk_and_save c pre rest s in
    let below = walk_and_save c (concat rel "/") children s in
    let after = walk_and_save c pre rest below.0 in
    if skips c rel name then skipped else unless_broken below after

unfoldable pub walk_phase {ℓ} : {E : Type ℓ} → Config → Tree E → Scan → Scan × Option E
unfolding walk_and_save
walk_phase c tree s =
    let (s', failure) = walk_and_save c "" tree (record s { files_saved = 0 }) in
    (record s' { tracker = progress c.repo_id (pos s'.files_saved) (pos 0) s'.tracker }, failure)

abbrev pub promote_phase {ℓ} :
    {E : Type ℓ} → Config → String → Option E → Scan × Option E → Scan × Option E
promote_phase c head answer (s, some e) = (s, some e)
promote_phase c head answer (s, none) = (
  record s {
    log = s.log ++ promoted c.repo_id c.branch head cold_scan_actor ∷ [];
    tracker = set_phase c.repo_id "promoting" s.tracker;
  },
  answer,
)

abbrev pub scan_with {ℓ} :
    {E : Type ℓ}
    → Config
    → Result E String
    → Result E (String → Bool)
    → Tree E
    → Option E
    → Scan
    → Scan × Option E
scan_with c (err e) loaded tree answer s = (s, some e)
scan_with c (ok head) (err e) tree answer s = (s, some e)
scan_with c (ok head) (ok ignore) tree answer s =
    promote_phase c head answer (walk_phase (record c { should_ignore = ignore }) tree s)

-- runColdScan; the end of the scan is deferred, so it runs on every way out.
unfoldable pub run_cold_scan {ℓ} :
    {E : Type ℓ}
    → Config
    → ℕ
    → Result E String
    → Result E (String → Bool)
    → Tree E
    → Option E
    → Scan
    → Scan × Option E
unfolding walk_phase
run_cold_scan c now head loaded tree answer s =
    let begun = record s {
      tracker = set_phase c.repo_id "walking" (start c.repo_id now s.tracker);
    } in
    let (s', failure) = scan_with c head loaded tree answer begun in
    (record s' { tracker = end_scan c.repo_id s'.tracker }, failure)
