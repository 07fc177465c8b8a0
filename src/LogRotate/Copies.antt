-- ===== src/LogRotate/Copies.antt =====
-- What a rotation makes of the copies.
use veska.Common.{
  ℕ, zero, suc, ◌+◌, ◌-◌, ◌≡◌, refl, ap, ◌∙◌, true, false, Option, none, some, List, [], ◌==◌,
  nat_eq, leb, if◌then◌else◌, arith, Bool-cases, inl, inr,
}
use veska.LogRotate.{Files, put, Writer, no_faults, is_there, move, shift, rotate_closed, rotate}

-- Where copy `j` comes from when the copies up to `n` move up by one.
abbrev pub moved_up : ℕ → Files → ℕ → Option (List ℕ)
moved_up n fs j =
    if j == 0 then fs 0 else if j == 1 then none else if leb j (n + 1) then fs (j - 1) else fs j

absent : (o : Option (List ℕ)) → is_there o ≡ false → o ≡ none
absent none h = refl
absent (some content) h = cc

-- Two copies of one number are the same copy.
at : (fs : Files) (i j : ℕ) → i ≡ j → fs i ≡ fs j
at fs i j e = ap fs e

moved_up-move :
    (n : ℕ) (fs : Files) (j : ℕ)
    → fs (suc n + 1) ≡ none
    → moved_up n (move (suc n) fs) j ≡ moved_up (suc n) fs j
moved_up-move n fs j e = ground (arith, at fs (j - 1) (suc n), at fs j (suc n + 1))

moved_up-absent :
    (n : ℕ) (fs : Files) (j : ℕ)
    → fs (suc n + 1) ≡ none
    → fs (suc n) ≡ none
    → moved_up n fs j ≡ moved_up (suc n) fs j
moved_up-absent n fs j e h = ground (arith, at fs (j - 1) (suc n), at fs j (suc n + 1))

shift_lem :
    (n : ℕ) (fs : Files)
    → fs (n + 1) ≡ none
    → ((shift no_faults n fs).1 ≡ true) × ((j : ℕ) → (shift no_faults n fs).0 j ≡ moved_up n fs j)
unfolding shift
shift_lem zero fs e = (refl, λ j. ground arith)
shift_lem (suc n) fs e = elim (Bool-cases (is_there (fs (suc n)))) [
  | inl there ↦
      let (fine, eq) = shift_lem n (move (suc n) fs) (ground arith) in
      rw there (fine, λ j. eq j ∙ moved_up-move n fs j e)
  | inr gone ↦
      let empty = absent (fs (suc n)) gone in
      let (fine, eq) = shift_lem n fs (at fs (n + 1) (suc n) (omega arith) ∙ empty) in
      rw gone (fine, λ j. eq j ∙ moved_up-absent n fs j e empty)
]

-- A rotation in which no system call fails, of an open writer with an active file that keeps at
-- least one copy, starts an empty active file, makes the old active file copy 1, moves every copy
-- below the greatest number up by one, drops the greatest, and touches no other file.
pub rotate_copies :
    (w : Writer) (m j : ℕ)
    → w.open_file ≡ true
    → is_there (w.files 0) ≡ true
    → w.max_files ≡ suc m
    → let (w', fine) = rotate no_faults w in
      (fine ≡ true)
      × (w'.open_file ≡ true)
      × (w'.current_size ≡ 0)
      × (w'.files j
          ≡ (if j == 0 then some [] else if leb j (suc m) then w.files (j - 1) else w.files j))
unfolding rotate rotate_closed
rotate_copies w m j o active e =
    let dropped = put (suc m) none w.files in
    let (fine, eq) = shift_lem m dropped (ground arith) in
    rw (o, e) (ground (arith, fine, eq 0, eq 1, eq j, at w.files (j - 1) 0, at w.files j 0, active))
