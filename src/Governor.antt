-- ===== src/Governor.antt =====
-- internal/application/embedder/governor.go: the fixed limit on the calls in flight, and the pause
-- that a server asks for. Times are natural numbers. Acquire is two steps, since it tests the pause
-- before it waits for a slot; a step that has to wait is one that is not enabled.
pub mod Invariant
use veska.Common.{
  ℕ, suc, ◌+◌, ◌-◌, ◌≤◌, ◌<◌, ◌≡◌, refl, ◌∙◌, subst, eqb_iff, inl, inr, Bool, true, not, ◌&&◌,
  Option, none, some, List, [], ◌∷◌, ◌==◌, nat_eq, if◌then◌else◌, ltb, length, keep_if, contains,
  contains-keep_if, IsDistinct, Bool-cases, arith,
}

-- The callers that have found no pause and wait for a slot, and the permits that were handed out and
-- are not released; each has a number of its own.
pub record Governor : Type 0 where
  pub limit : ℕ
  pub waiting : ℕ
  pub held : List ℕ
  pub next_permit : ℕ
  pub pause_until : ℕ

-- NewFixedGovernor.
abbrev pub new_fixed_governor : ℕ → Governor
new_fixed_governor limit = record {
  limit = if ltb limit 1 then 1 else limit;
  waiting = 0;
  held = [];
  next_permit = 0;
  pause_until = 0;
}

-- The first loop of Acquire: `none` while a pause is in effect.
unfoldable pub pass_pause : ℕ → Governor → Option Governor
pass_pause now g =
    if ltb now g.pause_until then none else some (record g { waiting = suc g.waiting })

abbrev pub granted : Governor → Governor
granted g = record g {
  waiting = g.waiting - 1;
  held = g.next_permit ∷ g.held;
  next_permit = suc g.next_permit;
}

-- The second half of Acquire: `none` when no slot is free.
unfoldable pub take_slot : Governor → Option Governor
take_slot g = if ltb 0 g.waiting && ltb (length g.held) g.limit then some (granted g) else none

-- A waiting caller whose context is done.
abbrev pub give_up : Governor → Governor
give_up g = record g { waiting = g.waiting - 1 }

-- The later of the two deadlines.
abbrev pub extended : ℕ → ℕ → ℕ → ℕ
extended now retry_after pause_until =
    if ltb 0 retry_after && ltb pause_until (now + retry_after)
    then now + retry_after
    else pause_until

-- Release of a permit; the second release of the same permit does nothing.
unfoldable pub release : ℕ → ℕ → ℕ → Governor → Governor
release now permit retry_after g =
    if contains g.held permit
    then record g {
      held = keep_if (λ p. not (p == permit)) g.held;
      pause_until = extended now retry_after g.pause_until;
    }
    else g

-- The callers acquire and release in any order, at any times.
pub data Reaches (g : Governor) : Governor → Type 0 where
  here : Reaches g g
  passed :
      {before after : Governor} (now : ℕ)
      → Reaches g before
      → pass_pause now before ≡ some after
      → Reaches g after
  gave_up : {before : Governor} → Reaches g before → Reaches g (give_up before)
  taken :
      {before after : Governor} → Reaches g before → take_slot before ≡ some after → Reaches g after
  released :
      {before : Governor} (now permit retry_after : ℕ)
      → Reaches g before
      → Reaches g (release now permit retry_after before)
