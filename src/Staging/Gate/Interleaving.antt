-- ===== src/Staging/Gate/Interleaving.antt =====
-- A save beside branch switches. The atomic actions are those of Ingester.save (wait at the gate,
-- read the generation, parse, check the generation in Stage, write under the lock in Stage) and of
-- BranchSwitch (bump, pause, clear, resume); other saves write at any time. A schedule is a list of
-- actions, and an action that must wait leaves the world as it is.
use veska.Common.{
  ℕ, ◌+◌, ◌%◌, ◌<◌, ◌≡◌, refl, ◌≢◌, ◌⊎◌, Bool, true, false, ◌||◌, Option, none, some, List, [], ◌∷◌,
  ◌++◌, String, ◌==◌, string_eq, nat_eq, eq_iff, if◌then◌else◌, arith,
}
use veska.Common.Dict.{lookup, lookup-insert}
use veska.Staging.Area.{Key, key_eq, key_beq_iff, File, Area, entry_of, write, in_scope, clear}
use veska.Staging.Area.Laws.{lookup-clear}
use veska.Staging.Gate.{Gate, bump_generation, pause, resume, u64_mod, branch_switch}

pub data Pc : Type 0 where
  waiting admitted checked refused staged : Pc
  loaded : ℕ → Pc

-- One save of a file, beside everything else.
pub record World : Type 0 where
  pub area : Area
  pub gate : Gate
  pub pc : Pc

pub data Action : Type 0 where
  save_step do_bump do_pause do_resume : Action
  do_clear : String → String → Action
  other_write : Key → File → Action

module _ (key : Key) (file : File) where
  -- The next action of the save.
  unfoldable pub save_next : Pc → World → World
  unfolding write
  save_next waiting w = if w.gate.paused then w else record w { pc = admitted }
  save_next admitted w = record w { pc = loaded w.gate.gen }
  save_next (loaded g) w = record w { pc = if g == w.gate.gen then checked else refused }
  save_next checked w = record w { pc = staged; area = write key file w.area }
  save_next refused w = w
  save_next staged w = w

  unfoldable pub act : Action → World → World
  unfolding save_next bump_generation write
  act save_step w = save_next w.pc w
  act do_bump w = record w { gate = bump_generation w.gate }
  act do_pause w = record w { gate = pause w.gate }
  act do_resume w = record w { gate = resume w.gate }
  act (do_clear repo_id branch) w = record w { area = clear repo_id branch w.area }
  act (other_write k f) w = record w { area = write k f w.area }

  unfoldable pub run : List Action → World → World
  run [] w = w
  run (a ∷ rest) w = run rest (act a w)

abbrev pub bump_count : Action → ℕ
bump_count do_bump = 1
bump_count _ = 0

abbrev pub bumps : List Action → ℕ
bumps [] = 0
bumps (a ∷ rest) = bump_count a + bumps rest

-- Whether another save writes the file in question.
abbrev pub writes : Key → Action → Bool
writes key (other_write k f) = key == k
writes key _ = false

abbrev pub any_writes : Key → List Action → Bool
any_writes key [] = false
any_writes key (a ∷ rest) = writes key a || any_writes key rest

abbrev pub is_resume : Action → Bool
is_resume do_resume = true
is_resume _ = false

abbrev pub resumes : List Action → Bool
resumes [] = false
resumes (a ∷ rest) = is_resume a || resumes rest

-- The save has not written: it still holds the generation `g`, or was refused.
abbrev pub IsStale : ℕ → Pc → Type 0
IsStale g pc = (pc ≡ loaded g) ⊎ (pc ≡ refused)

module _ (key : Key) (file : File) (g : ℕ) where
  -- `k` bumps after the generation was read, with no entry for the file.
  record Behind (k : ℕ) (w : World) : Type 0 where
    stale : IsStale g w.pc
    generation : w.gate.gen ≡ (g + k) % u64_mod
    absent : lookup key w.area ≡ none

  act-Behind :
      (a : Action) (k : ℕ) (w : World)
      → g < u64_mod
      → 0 < k
      → k + bump_count a < u64_mod
      → writes key a ≡ false
      → Behind k w
      → Behind (k + bump_count a) (act key file a w)
  unfolding act
  act-Behind (other_write j f) k w h p q n b =
      ground (arith, lookup-insert j key (entry_of f) w.area)
  act-Behind (do_clear r c) k w h p q n b = ground (arith, lookup-clear r c key w.area)
  act-Behind _ k w h p q n b = ground arith

  run-Behind :
      (schedule : List Action) (k : ℕ) (w : World)
      → g < u64_mod
      → 0 < k
      → k + bumps schedule < u64_mod
      → any_writes key schedule ≡ false
      → Behind k w
      → Behind (k + bumps schedule) (run key file schedule w)
  unfolding run
  run-Behind [] k w h p q n b = let e : k + 0 ≡ k = omega arith in rw e b
  run-Behind (a ∷ rest) k w h p q n b =
      let e : k + (bump_count a + bumps rest) ≡ k + bump_count a + bumps rest = omega arith in
      let first = act-Behind a k w h p (omega arith) (ground arith) b in
      rw e (
        run-Behind rest (k + bump_count a) (act key file a w) h (omega arith) (omega arith)
          (ground arith) first)

abbrev pub switch_to_clear : Key → List Action
switch_to_clear key = do_bump ∷ do_pause ∷ do_clear key.repo_id key.branch ∷ []

module _ (key : Key) (file : File) where
  run-append :
      (xs ys : List Action) (w : World)
      → run key file (xs ++ ys) w ≡ run key file ys (run key file xs w)
  unfolding run
  run-append [] ys w = refl
  run-append (x ∷ xs) ys w = run-append xs ys (act key file x w)

  cleared-Behind :
      (w : World)
      → w.pc ≡ loaded w.gate.gen
      → Behind key file w.gate.gen 1 (run key file (switch_to_clear key) w)
  unfolding run act
  cleared-Behind w e = ground (
    arith,
    lookup-clear key.repo_id key.branch key w.area,
    eq_iff key.repo_id key.repo_id,
    eq_iff key.branch key.branch,
  )

  -- A save that read its generation before a branch switch of its repository and branch, and has
  -- not passed its check when the generation is bumped, leaves nothing behind: whatever follows
  -- the switch's Clear, the file stays out of the area as long as no other save writes it and
  -- fewer than 2^64 bumps are made.
  pub stale_save_kept_out :
      (schedule : List Action) (w : World)
      → w.gate.gen < u64_mod
      → w.pc ≡ loaded w.gate.gen
      → 1 + bumps schedule < u64_mod
      → any_writes key schedule ≡ false
      → lookup key (run key file (switch_to_clear key ++ schedule) w).area ≡ none
  stale_save_kept_out schedule w h e q n =
      rw (run-append (switch_to_clear key) schedule w)
        (run-Behind key file w.gate.gen schedule 1 (run key file (switch_to_clear key) w) h
          (omega arith) q n (cleared-Behind w e)).absent

  -- The check of the generation and the write are two actions. When the whole switch falls between
  -- them, the save that read the old generation writes its file after Clear: from any world with
  -- the gate open and the save about to begin, there is such a schedule, and at its end the file
  -- of the switched-away branch is staged under a newer generation.
  pub late_write_escapes :
      (w : World)
      → w.gate.gen < u64_mod
      → w.gate.paused ≡ false
      → w.pc ≡ waiting
      → let end =
          run key file
            (save_step
              ∷ save_step
              ∷ save_step
              ∷ (switch_to_clear key ++ do_resume ∷ save_step ∷ []))
            w in
        (lookup key end.area ≡ some (entry_of file)) × (end.gate.gen ≢ w.gate.gen)
  unfolding run act
  late_write_escapes w h o e = ground (
    arith,
    lookup-insert key key (entry_of file) (clear key.repo_id key.branch w.area),
    key_beq_iff key key,
  )

  act_paused :
      (a : Action) (w : World)
      → w.gate.paused ≡ true
      → w.pc ≡ waiting
      → is_resume a ≡ false
      → ((act key file a w).gate.paused ≡ true) × ((act key file a w).pc ≡ waiting)
  unfolding act
  act_paused do_bump w p e n = ground arith
  act_paused _ w p e n = ground arith

  -- While the gate is paused and nothing resumes it, a save that waits goes on waiting.
  pub paused_save_waits :
      (schedule : List Action) (w : World)
      → w.gate.paused ≡ true
      → w.pc ≡ waiting
      → resumes schedule ≡ false
      → (run key file schedule w).pc ≡ waiting
  unfolding run
  paused_save_waits [] w p e n = e
  paused_save_waits (a ∷ rest) w p e n =
      let (p', e') = act_paused a w p e (ground arith) in
      paused_save_waits rest (act key file a w) p' e' (ground arith)

-- BranchSwitch leaves the gate open under the next generation, also when the drain fails, removes
-- the entries of the repository and its previous branch and no others, and returns the drain's
-- error; it is the four actions of a schedule in this order.
pub branch_switch_lem {ℓ} :
    {E : Type ℓ} (key : Key) (file : File) (drained : Option E) (j : Key) (w : World)
    → let (g, s, e) = branch_switch key.repo_id key.branch drained w.gate w.area in
      (g.paused ≡ false)
      × (g.gen ≡ (w.gate.gen + 1) % u64_mod)
      × (lookup j s ≡ (if in_scope key.repo_id key.branch j then none else lookup j w.area))
      × (e ≡ drained)
      × (run key file (switch_to_clear key ++ do_resume ∷ []) w
          ≡ record { area = s; gate = g; pc = w.pc })
unfolding branch_switch run act
branch_switch_lem key file drained j w =
    (refl, refl, lookup-clear key.repo_id key.branch j w.area, refl, refl)
