-- ===== src/Tests/Governor.antt =====
-- A governor of one slot, with a holder and a caller that waits.
use veska.Common.{
  ◌≡◌, ◌≤◌, ◌<◌, refl, true, eqb_iff, nat_eq, some, [], ◌∷◌, contains, keep_if, arith,
}
use veska.Governor
use veska.Governor.Invariant

abbrev one_held : Governor.Governor
one_held = record { limit = 1; waiting = 1; held = 0 ∷ []; next_permit = 1; pause_until = 0 }

one_held-IsWithin : Invariant.IsWithin one_held
unfolding contains
one_held-IsWithin = record {
  few = omega arith;
  distinct = (refl, tt);
  numbered = λ p h. ground (arith, eqb_iff p 0);
}

abbrev paused : Governor.Governor
paused = record one_held { held = []; pause_until = 15 }

release-one_held : Governor.release 5 0 10 one_held ≡ paused
unfolding Governor.release contains keep_if
release-one_held = refl

-- The holder releases its permit with a pause of 10, and the waiting caller gets a permit.
let_in :
    Governor.take_slot paused ≡ some (record paused { waiting = 0; held = 1 ∷ []; next_permit = 2 })
unfolding Governor.take_slot
let_in = refl

zero_held : contains one_held.held 0 ≡ true
unfolding contains
zero_held = refl

pause_bypassed_example :
    (after : Governor.Governor) × (Governor.take_slot (Governor.release 5 0 10 one_held)
      ≡ some after)
    × (5 < after.pause_until)
pause_bypassed_example =
    Invariant.pause_bypassed 5 0 10 one_held zero_held one_held-IsWithin (omega arith) (omega arith)

governed_example :
    Invariant.IsWithin (Governor.release 5 0 10 one_held)
    × ((Governor.release 5 0 10 one_held).limit ≡ one_held.limit)
    × (one_held.pause_until ≤ (Governor.release 5 0 10 one_held).pause_until)
governed_example =
    Invariant.governed one_held (Governor.release 5 0 10 one_held) one_held-IsWithin
      (Governor.released 5 0 10 Governor.here)
