-- ===== src/Resync/Gone.antt =====
-- What a replay of missed commits leaves out.
use veska.Common.{
  ◌≡◌, refl, sym, subst, ap, ◌∙◌, Option, none, some, List, [], ◌∷◌, ◌++◌, String, Result, ok, err,
  ◌==◌, string_eq, eq_iff, arith, Bool-cases, inl, inr, All, if◌then◌else◌,
}
use mathlib.Core.List.{append-nil}
use veska.Resync.{
  RepoRecord, Event, saved, promoted, reparsed, GitQuerier, save_files, replay_files, replay_commit,
  replay, unless_failed,
}
use veska.Resync.Replay.{save_of, saves, save_files_lem}

module _ {ℓ} {E : Type ℓ} (git : GitQuerier E)
    (promote_answer reparse_answer : List Event → Option E) where
  -- What the log saves of a file, in its order.
  abbrev pub saves_to : String → List Event → List String
  saves_to f [] = []
  saves_to f (saved repo_id branch path src ∷ log) =
      let later = saves_to f log in if path == f then src ∷ later else later
  saves_to f (promoted repo_id branch sha actor ∷ log) = saves_to f log
  saves_to f (reparsed repo ∷ log) = saves_to f log

  saves_to-append :
      (f : String) (xs ys : List Event) → saves_to f (xs ++ ys) ≡ saves_to f xs ++ saves_to f ys
  saves_to-append f [] ys = refl
  saves_to-append f (saved repo_id branch path src ∷ xs) ys =
      ground (arith, saves_to-append f xs ys)
  saves_to-append f (promoted repo_id branch sha actor ∷ xs) ys = saves_to-append f xs ys
  saves_to-append f (reparsed repo ∷ xs) ys = saves_to-append f xs ys

  adds_none :
      (f : String) (log log' added : List Event)
      → log' ≡ log ++ added
      → saves_to f added ≡ []
      → saves_to f log' ≡ saves_to f log
  adds_none f log log' added e no_saves =
      ap (saves_to f) e
      ∙ saves_to-append f log added
      ∙ ap (λ z. saves_to f log ++ z) no_saves
      ∙ append-nil (saves_to f log)

  unless_failed-saves :
      (f : String) (done rest : List Event × Option E) (b : List String)
      → saves_to f done.0 ≡ b
      → saves_to f rest.0 ≡ b
      → saves_to f (unless_failed done rest).0 ≡ b
  unless_failed-saves f (log, some e) rest b first last = first
  unless_failed-saves f (log, none) rest b first last = last

  -- The file cannot be read at the commit.
  abbrev pub IsGoneAt : RepoRecord → String → String → Type ℓ
  IsGoneAt repo f sha = (e : E) × (git.read_file_at_commit repo.root_path sha f ≡ err e)

  save_of-gone :
      (repo : RepoRecord) (f g : String) (r : Result E String)
      → (g ≡ f → (e : E) × (r ≡ err e))
      → saves_to f (save_of git promote_answer reparse_answer repo g r) ≡ []
  save_of-gone repo f g (err e) gone = refl
  save_of-gone repo f g (ok src) gone = elim (Bool-cases (g == f)) [
    | inl same ↦ let (e, bad) = gone ((eq_iff g f).0 same) in cc
    | inr other ↦ rw other refl
  ]

  saves-gone :
      (repo : RepoRecord) (f sha : String) (fs : List String)
      → IsGoneAt repo f sha
      → saves_to f (saves git promote_answer reparse_answer repo sha fs) ≡ []
  saves-gone repo f sha [] gone = refl
  saves-gone repo f sha (g ∷ fs) gone =
      let r = git.read_file_at_commit repo.root_path sha g in
      let here = save_of-gone repo f g r (λ same.
        subst (λ z. (e : E) × (git.read_file_at_commit repo.root_path sha z ≡ err e)) (sym same)
          gone) in
      saves_to-append f (save_of git promote_answer reparse_answer repo g r)
        (saves git promote_answer reparse_answer repo sha fs)
      ∙ ap (λ z. z ++ saves_to f (saves git promote_answer reparse_answer repo sha fs)) here
      ∙ saves-gone repo f sha fs gone

  replay_files-gone :
      (repo : RepoRecord) (f sha : String) (r : Result E (List String)) (log : List Event)
      → IsGoneAt repo f sha
      → saves_to f (replay_files git promote_answer reparse_answer repo sha r log).0
        ≡ saves_to f log
  replay_files-gone repo f sha (err e) log gone = refl
  replay_files-gone repo f sha (ok files) log gone =
      let staged = save_files git promote_answer reparse_answer repo sha files log in
      adds_none f staged _ _ refl refl
      ∙ adds_none f log staged (saves git promote_answer reparse_answer repo sha files)
          (save_files_lem git promote_answer reparse_answer repo sha files log)
          (saves-gone repo f sha files gone)

  -- A file that can be read at none of the missed commits, as when the first of them deletes it: the
  -- replay, however it ends, adds no save of it, and what the log saved of it before is still all.
  pub replay_gone :
      (repo : RepoRecord) (f : String) (shas : List String) (log : List Event)
      → All (IsGoneAt repo f) shas
      → saves_to f (replay git promote_answer reparse_answer repo shas log).0 ≡ saves_to f log
  unfolding replay replay_commit
  replay_gone repo f [] log gone = refl
  replay_gone repo f (sha ∷ shas) log gone =
      let files = git.changed_files repo.root_path sha in
      let done = replay_files git promote_answer reparse_answer repo sha files log in
      let first = replay_files-gone repo f sha files log gone.0 in
      unless_failed-saves f done (replay git promote_answer reparse_answer repo shas done.0)
        (saves_to f log) first (replay_gone repo f shas done.0 gone.1 ∙ first)
