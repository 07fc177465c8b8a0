-- ===== src/Staging/Gate.antt =====
-- internal/application/staging/gate.go. The generation is a uint64.
pub mod Interleaving
use veska.Common.{ℕ, ◌+◌, ◌%◌, ◌^◌, Bool, true, false, Option, none, some, String}
use veska.Staging.Area.{Area, clear}

pub record Gate : Type 0 where
  pub gen : ℕ
  pub paused : Bool

abbrev pub new_gate : Gate
new_gate = record { gen = 0; paused = false }

abbrev pub u64_mod : ℕ
u64_mod = 2 ^ 64

unfoldable pub bump_generation : Gate → Gate
bump_generation g = record g { gen = (g.gen + 1) % u64_mod }

abbrev pub pause : Gate → Gate
pause g = record g { paused = true }

abbrev pub resume : Gate → Gate
resume g = record g { paused = false }

-- BranchSwitch, with the result of `drainFn`; Resume is deferred, so it runs on every way out.
unfoldable pub branch_switch {ℓ} :
    {E : Type ℓ} → String → String → Option E → Gate → Area → Gate × Area × Option E
unfolding bump_generation
branch_switch repo_id prev_branch drained g s =
    (resume (pause (bump_generation g)), clear repo_id prev_branch s, drained)
