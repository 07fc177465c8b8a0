-- ===== src/ColdScan/Walk.antt =====
-- What a cold scan saves, and that it ends for the tracker.
use Prim.Native.String.{◌++◌ as concat}
use veska.Common.{
  ◌||◌, contains, take, nat_eq, ℕ, ◌+◌, ◌≡◌, refl, sym, ap, ◌∙◌, Bool, not, ◌&&◌, Option, none,
  some, List, [], ◌∷◌, ◌++◌, String, Result, ok, err, ◌==◌, string_eq, if◌then◌else◌, arith,
  Bool-cases, inl, inr, pos,
}
use mathlib.Core.List.{append_assoc, append-nil}
use veska.Common.Dict.{lookup, is_present}
use veska.ScanTracker.{
  Scans, start, progress, set_phase, step-is_present, step, in_flight, do_progress, do_start,
  do_end, do_set_phase,
}
use veska.ColdScan.{
  Event, saved, promoted, cold_scan_actor, Tree, done, file, dir, broken, Scan, Config,
  staged_source, save_counted, skips, unless_broken, walk_and_save, walk_phase, promote_phase,
  scan_with, run_cold_scan,
}

abbrev save_of : Config → String → Option (List ℕ) → List Event
save_of c rel none = []
save_of c rel (some src) = saved c.repo_id c.branch rel src ∷ []

-- The files that a scan is to take, by their paths, names, types and bytes: regular, not an ignore
-- list and not on one, a manifest or of a known extension, and without a zero byte at the start.
abbrev pub is_eligible : Config → String → String → Bool → List ℕ → Bool
is_eligible c rel name regular src =
    (name == "go.mod" || contains c.extensions (c.extension name))
    && (not (name == ".veskaignore" || c.should_ignore rel)
        && (regular && not (contains (take 8192 src) 0)))

abbrev pub save_if : Config → String → String → Bool → Option (List ℕ) → List Event
save_if c rel name regular none = []
save_if c rel name regular (some src) =
    if is_eligible c rel name regular src then saved c.repo_id c.branch rel src ∷ [] else []

-- The saves of the eligible files of a tree, in its order; no file below `.git` or below an ignored
-- directory is one.
abbrev pub eligible {ℓ} : {E : Type ℓ} → Config → String → Tree E → List Event
eligible c pre done = []
eligible c pre (broken e) = []
eligible c pre (file name regular content rest) =
    let rel = concat pre name in save_if c rel name regular content ++ eligible c pre rest
eligible c pre (dir name children rest) =
    let rel = concat pre name in
    let below = eligible c (concat rel "/") children in
    let after = eligible c pre rest in
    if name == ".git" || c.should_ignore (concat rel "/") then after else below ++ after

staged_source-save_if :
    (c : Config) (rel name : String) (regular : Bool) (content : Option (List ℕ))
    → save_of c rel (staged_source c rel name regular content) ≡ save_if c rel name regular content
unfolding staged_source
staged_source-save_if c rel name regular none = ground arith
staged_source-save_if c rel name regular (some src) = ground arith

save_counted-log :
    (c : Config) (rel : String) (o : Option (List ℕ)) (s : Scan)
    → (save_counted c rel o s).log ≡ s.log ++ save_of c rel o
save_counted-log c rel none s = sym (append-nil s.log)
save_counted-log c rel (some src) s = refl

unless_broken_inv {ℓ} :
    {E : Type ℓ} (below after : Scan × Option E) (s : Scan)
    → unless_broken below after ≡ (s, none)
    → (below.1 ≡ none) × (after ≡ (s, none))
unless_broken_inv (s', some e) after s h = cc
unless_broken_inv (s', none) after s h = (refl, h)

unless_broken_keeps {ℓ κ} :
    {E : Type ℓ} {A : Type κ} (f : Scan → A) (below after : Scan × Option E) {a : A}
    → f below.0 ≡ a
    → f after.0 ≡ a
    → f (unless_broken below after).0 ≡ a
unless_broken_keeps f (s, some e) after first last = first
unless_broken_keeps f (s, none) after first last = last

walk_and_save_lem {ℓ} :
    {E : Type ℓ} (c : Config) (pre : String) (tree : Tree E) (s s' : Scan)
    → walk_and_save c pre tree s ≡ (s', none)
    → s'.log ≡ s.log ++ eligible c pre tree
unfolding walk_and_save
walk_and_save_lem c pre done s s' h = sym (ap (λ p. p.0.log) h) ∙ sym (append-nil s.log)
walk_and_save_lem c pre (broken e) s s' h = cc
walk_and_save_lem c pre (file name regular content rest) s s' h =
    let rel = concat pre name in
    let o = staged_source c rel name regular content in
    walk_and_save_lem c pre rest (save_counted c rel o s) s' h
    ∙ ap (λ z. z ++ eligible c pre rest) (save_counted-log c rel o s)
    ∙ append_assoc s.log (save_of c rel o) (eligible c pre rest)
    ∙ ap (λ z. s.log ++ (z ++ eligible c pre rest))
        (staged_source-save_if c rel name regular content)
walk_and_save_lem c pre (dir name children rest) s s' h =
    elim (Bool-cases (skips c (concat pre name) name)) [
      | inl skip ↦ rw skip (walk_and_save_lem c pre rest s s' (rw skip at h))
      | inr enter ↦
          let below = walk_and_save c (concat (concat pre name) "/") children s in
          let (fine, later) = unless_broken_inv below _ s' (rw enter at h) in
          let first =
            walk_and_save_lem c (concat (concat pre name) "/") children s below.0
              (ap (λ z. (below.0, z)) fine) in
          rw enter (
            walk_and_save_lem c pre rest below.0 s' later
            ∙ ap (λ z. z ++ eligible c pre rest) first
            ∙ append_assoc s.log _ (eligible c pre rest))
    ]

-- What a counted save leaves alone, a walk does.
walk_keeps {ℓ κ} :
    {E : Type ℓ} {A : Type κ} (c : Config) (f : Scan → A) (pre : String) (tree : Tree E) (s : Scan)
    → ((rel : String) (o : Option (List ℕ)) (z : Scan) → f (save_counted c rel o z) ≡ f z)
    → f (walk_and_save c pre tree s).0 ≡ f s
unfolding walk_and_save
walk_keeps c f pre done s k = refl
walk_keeps c f pre (broken e) s k = refl
walk_keeps c f pre (file name regular content rest) s k =
    let rel = concat pre name in
    let o = staged_source c rel name regular content in
    walk_keeps c f pre rest (save_counted c rel o s) k ∙ k rel o s
walk_keeps c f pre (dir name children rest) s k =
    elim (Bool-cases (skips c (concat pre name) name)) [
      | inl skip ↦ rw skip (walk_keeps c f pre rest s k)
      | inr enter ↦
          let below = walk_and_save c (concat (concat pre name) "/") children s in
          let first = walk_keeps c f (concat (concat pre name) "/") children s k in
          rw enter (
            unless_broken_keeps f below (walk_and_save c pre rest below.0) first
              (walk_keeps c f pre rest below.0 k ∙ first))
    ]

promote_phase_lem {ℓ} :
    {E : Type ℓ} (c : Config) (sha : String) (answer : Option E) (walked : Scan × Option E)
    (s' : Scan)
    → promote_phase c sha answer walked ≡ (s', none)
    → (walked.1 ≡ none)
      × (s'.log ≡ walked.0.log ++ promoted c.repo_id c.branch sha cold_scan_actor ∷ [])
promote_phase_lem c sha answer (z, some e) s' h = cc
promote_phase_lem c sha answer (z, none) s' h = (refl, ap (λ p. p.0.log) (sym h))

-- A cold scan that ends without an error has saved just the eligible files of the working tree, under
-- the ignore list that it loaded and in the order of the walk, and after them promoted HEAD, once, all
-- of it for the repository and the branch that it was given and HEAD by the system's actor.
pub run_cold_scan_lem {ℓ} :
    {E : Type ℓ} (c : Config) (now : ℕ) (head : Result E String) (loaded : Result E (String → Bool))
    (tree : Tree E) (answer : Option E) (s s' : Scan)
    → run_cold_scan c now head loaded tree answer s ≡ (s', none)
    → (sha : String) × (ignore : String → Bool) × (head ≡ ok sha)
      × (loaded ≡ ok ignore)
      × (s'.log
          ≡ s.log
            ++ (eligible (record c { should_ignore = ignore }) "" tree
                ++ promoted c.repo_id c.branch sha cold_scan_actor ∷ []))
unfolding run_cold_scan walk_phase
run_cold_scan_lem c now (err e) loaded tree answer s s' h = cc
run_cold_scan_lem c now (ok sha) (err e) tree answer s s' h = cc
run_cold_scan_lem c now (ok sha) (ok ignore) tree answer s s' h =
    let c' = record c { should_ignore = ignore } in
    let begun = record s {
      tracker = set_phase c.repo_id "walking" (start c.repo_id now s.tracker);
      files_saved = 0;
    } in
    let walked = walk_and_save c' "" tree begun in
    let scanned = scan_with c (ok sha) (ok ignore) tree answer begun in
    let (fine, logged) =
      promote_phase_lem c sha answer (walk_phase c' tree begun) scanned.0
        (ap (λ z. (scanned.0, z)) (ap (λ p. p.1) h)) in
    (
      sha,
      ignore,
      refl,
      refl,
      ap (λ p. p.0.log) (sym h)
          ∙ logged
          ∙ ap (λ z. z ++ promoted c.repo_id c.branch sha cold_scan_actor ∷ [])
              (walk_and_save_lem c' "" tree begun walked.0 (ap (λ z. (walked.0, z)) fine))
          ∙ append_assoc s.log (eligible c' "" tree) _,
    )

-- Whether the tracker has a scan of a repository in flight.
abbrev flies : String → Scan → Bool
flies r s = is_present (lookup r s.tracker)

progress-is_present :
    (c r : String) (n : ℕ) (t : Scans)
    → is_present (lookup r (progress c (pos n) (pos 0) t)) ≡ is_present (lookup r t)
unfolding step in_flight
progress-is_present c r n t = step-is_present (do_progress c (pos n) (pos 0)) r t

save_counted-flies :
    (c : Config) (r rel : String) (o : Option (List ℕ)) (s : Scan)
    → flies r (save_counted c rel o s) ≡ flies r s
save_counted-flies c r rel none s = refl
save_counted-flies c r rel (some src) s =
    progress-is_present c.repo_id r (s.files_saved + 1) s.tracker

promote_phase-flies {ℓ} :
    {E : Type ℓ} (c : Config) (r sha : String) (answer : Option E) (walked : Scan × Option E)
    → flies r (promote_phase c sha answer walked).0 ≡ flies r walked.0
unfolding step in_flight
promote_phase-flies c r sha answer (z, some e) = refl
promote_phase-flies c r sha answer (z, none) =
    step-is_present (do_set_phase c.repo_id "promoting") r z.tracker

scan_with-flies {ℓ} :
    {E : Type ℓ} (c : Config) (head : Result E String) (loaded : Result E (String → Bool))
    (tree : Tree E) (answer : Option E) (s : Scan) (r : String)
    → flies r (scan_with c head loaded tree answer s).0 ≡ flies r s
unfolding walk_phase
scan_with-flies c (err e) loaded tree answer s r = refl
scan_with-flies c (ok sha) (err e) tree answer s r = refl
scan_with-flies c (ok sha) (ok ignore) tree answer s r =
    let c' = record c { should_ignore = ignore } in
    promote_phase-flies c r sha answer (walk_phase c' tree s)
    ∙ progress-is_present c.repo_id r _ _
    ∙ walk_keeps c' (flies r) "" tree (record s { files_saved = 0 }) (save_counted-flies c' r)

-- However a cold scan ends, the tracker has no scan of its repository in flight after it, and every
-- other repository is as before.
pub run_cold_scan-tracker {ℓ} :
    {E : Type ℓ} (c : Config) (now : ℕ) (head : Result E String) (loaded : Result E (String → Bool))
    (tree : Tree E) (answer : Option E) (s : Scan) (r : String)
    → is_present (lookup r (run_cold_scan c now head loaded tree answer s).0.tracker)
      ≡ (not (r == c.repo_id) && is_present (lookup r s.tracker))
unfolding run_cold_scan step in_flight
run_cold_scan-tracker c now head loaded tree answer s r =
    let begun = record s {
      tracker = set_phase c.repo_id "walking" (start c.repo_id now s.tracker);
    } in
    ground (
      arith,
      step-is_present (do_end c.repo_id) r (scan_with c head loaded tree answer begun).0.tracker,
      scan_with-flies c head loaded tree answer begun r,
      step-is_present (do_set_phase c.repo_id "walking") r (start c.repo_id now s.tracker),
      step-is_present (do_start c.repo_id now) r s.tracker,
    )
