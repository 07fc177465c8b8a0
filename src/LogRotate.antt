-- ===== src/LogRotate.antt =====
-- internal/platform/logrotate/writer.go: the rotating log writer. The files are a function from the
-- copy's number, with 0 for the active file, to its bytes; which operations of the system fail is
-- given call by call; an open that fails creates no file. Sizes are int64 in Go, and natural numbers here.
pub mod Copies
pub mod Failure
use veska.Common.{
  ℕ, zero, suc, ◌+◌, ◌-◌, Bool, true, false, not, ◌&&◌, ◌||◌, Option, none, some, List, [], ◌∷◌,
  ◌++◌, ◌==◌, nat_eq, leb, if◌then◌else◌, length, take,
}

abbrev pub Files : Type 0
Files = ℕ → Option (List ℕ)

abbrev pub put : ℕ → Option (List ℕ) → Files → Files
put i content fs j = if j == i then content else fs j

-- The file handle is open or closed.
pub record Writer : Type 0 where
  pub open_file : Bool
  pub current_size : ℕ
  pub limit_bytes : ℕ
  pub max_files : ℕ
  pub files : Files

-- Which system calls of one operation fail; a failing write gives the bytes that went out.
pub record Faults : Type 0 where
  pub close : Bool
  pub mkdir : Bool
  pub remove : Bool
  pub rename : ℕ → Bool
  pub open_log : Bool
  pub write : Option ℕ
  pub sync : Bool

abbrev pub no_faults : Faults
no_faults = record {
  close = false;
  mkdir = false;
  remove = false;
  rename = λ i. false;
  open_log = false;
  write = none;
  sync = false;
}

abbrev pub is_there : Option (List ℕ) → Bool
is_there none = false
is_there (some content) = true

-- `os.Rename` of copy `i` to copy `i + 1`.
abbrev pub move : ℕ → Files → Files
move i fs = put i none (put (i + 1) (fs i) fs)

-- `for i := n; i >= 1; i--`, with whether every rename went through.
unfoldable pub shift : Faults → ℕ → Files → Files × Bool
shift f zero fs = (fs, true)
shift f (suc n) fs =
    let there = is_there (fs (suc n)) in
    let rest = shift f n (if there then move (suc n) fs else fs) in
    if there && f.rename (suc n) then (fs, false) else rest

abbrev pub content_size : Option (List ℕ) → ℕ
content_size none = 0
content_size (some content) = length content

abbrev pub or_empty : Option (List ℕ) → Option (List ℕ)
or_empty none = some []
or_empty (some content) = some content

-- openLogFile: creates the active file if it is missing.
abbrev pub opened : Writer → Files → Writer
opened w fs = record w {
  open_file = true;
  current_size = content_size (fs 0);
  files = put 0 (or_empty (fs 0)) fs;
}

-- NewRotatingWriter; `none` is its error.
unfoldable pub new_rotating_writer : Faults → ℕ → ℕ → Files → Option Writer
new_rotating_writer f limit_bytes max_files fs =
    if f.mkdir || f.open_log
    then none
    else some (
        opened
          (record {
            open_file = true;
            current_size = 0;
            limit_bytes = limit_bytes;
            max_files = max_files;
            files = fs;
          })
          fs)

-- `os.Remove` of one copy, whose error is ignored. The name of copy 0 is not that of the active
-- file, nor of any other file here.
abbrev pub remove_copy : Bool → ℕ → Files → Files
remove_copy failed zero fs = fs
remove_copy failed (suc n) fs = if failed then fs else put (suc n) none fs

-- The steps of rotate once the active file is closed; the flag is false on an error.
unfoldable pub rotate_closed : Faults → Writer → Writer × Bool
unfolding shift
rotate_closed f w =
    let (shifted, fine) = shift f (w.max_files - 1) (remove_copy f.remove w.max_files w.files) in
    let moved = move 0 shifted in
    if not fine
    then (record w { files = shifted }, false)
    else if f.rename 0 || not (is_there (shifted 0))
    then (record w { files = shifted }, false)
    else if f.open_log
    then (record w { files = moved }, false)
    else (record (opened w moved) { current_size = 0 }, true)

-- Closing fails on a handle that is closed already.
unfoldable pub rotate : Faults → Writer → Writer × Bool
unfolding rotate_closed
rotate f w =
    if not w.open_file
    then (w, false)
    else if f.close
    then (record w { open_file = false }, false)
    else rotate_closed f (record w { open_file = false })

abbrev pub appended : Option (List ℕ) → List ℕ → Option (List ℕ)
appended none p = some p
appended (some content) p = some (content ++ p)

-- file.Write, with the number of bytes written and whether it went through.
abbrev pub write_file : Option ℕ → List ℕ → Writer → Writer × ℕ × Bool
write_file none p w = (
  record w {
    current_size = w.current_size + length p;
    files = put 0 (appended (w.files 0) p) w.files;
  },
  length p,
  true,
)
write_file (some k) p w = (
  record w {
    current_size = w.current_size + length (take k p);
    files = put 0 (appended (w.files 0) (take k p)) w.files;
  },
  length (take k p),
  false,
)

unfoldable pub write : Faults → List ℕ → Writer → Writer × ℕ × Bool
unfolding rotate
write f p w =
    let (w', fine) =
      if leb w.limit_bytes (w.current_size + length p) then rotate f w else (w, true) in
    if not fine || not w'.open_file then (w', 0, false) else write_file f.write p w'

unfoldable pub reopen : Faults → Writer → Writer × Bool
reopen f w =
    if not w.open_file
    then (w, false)
    else if f.close || f.open_log
    then (record w { open_file = false }, false)
    else (opened w w.files, true)

unfoldable pub close : Faults → Writer → Writer × Bool
close f w =
    if not w.open_file
    then (w, false)
    else (record w { open_file = false }, not (f.sync || f.close))
