-- ===== src/Governor/Invariant.antt =====
-- What holds of the governor of internal/application/embedder/governor.go, whatever its callers do.
use veska.Common.{
  ℕ, suc, ◌≤◌, ◌<◌, ◌≡◌, refl, ◌∙◌, subst, eqb_iff, inl, inr, Bool, true, not, ◌&&◌, some, List, [],
  ◌∷◌, ◌==◌, nat_eq, ltb, length, keep_if, contains, contains-keep_if, IsDistinct, Bool-cases,
  arith,
}
use veska.Governor.{
  Governor, pass_pause, granted, take_slot, extended, release, Reaches, here, passed, gave_up,
  taken, released,
}

-- At most `limit` permits are held, each once, all of them numbered before the next.
pub record IsWithin (g : Governor) : Type 0 where
  pub few : length g.held ≤ g.limit
  pub distinct : IsDistinct g.held
  pub numbered : (p : ℕ) → contains g.held p ≡ true → p < g.next_permit

length-keep_if : (test : ℕ → Bool) (xs : List ℕ) → length (keep_if test xs) ≤ length xs
unfolding keep_if
length-keep_if test [] = omega arith
length-keep_if test (x ∷ xs) = ground (arith, length-keep_if test xs)

IsDistinct-keep_if : (test : ℕ → Bool) (xs : List ℕ) → IsDistinct xs → IsDistinct (keep_if test xs)
unfolding keep_if
IsDistinct-keep_if test [] d = tt
IsDistinct-keep_if test (x ∷ xs) d = elim (Bool-cases (test x)) [
  | inl kept ↦
      rw kept (ground (arith, contains-keep_if test xs x, d.0), IsDistinct-keep_if test xs d.1)
  | inr dropped ↦ rw dropped (IsDistinct-keep_if test xs d.1)
]

take_slot-granted :
    (g after : Governor)
    → take_slot g ≡ some after
    → (length g.held < g.limit) × (granted g ≡ after)
unfolding take_slot
take_slot-granted g after came =
    elim (Bool-cases (ltb 0 g.waiting && ltb (length g.held) g.limit)) [
      | inl room ↦
          let e : some (granted g) ≡ some after = rw (take_slot, room) at came in (ground arith, cc)
      | inr full ↦ absurd (cc (rw (take_slot, full) at came))
    ]

pass_pause-waiting :
    (now : ℕ) (g after : Governor)
    → pass_pause now g ≡ some after
    → record g { waiting = suc g.waiting } ≡ after
unfolding pass_pause
pass_pause-waiting now g after came = elim (Bool-cases (ltb now g.pause_until)) [
  | inl paused ↦ absurd (cc (rw (pass_pause, paused) at came))
  | inr free ↦
      let e : some (record g { waiting = suc g.waiting }) ≡ some after =
        rw (pass_pause, free) at came in
      cc
]

granted-IsWithin : (g : Governor) → IsWithin g → length g.held < g.limit → IsWithin (granted g)
unfolding contains
granted-IsWithin g w room = record {
  few = omega (arith, room);
  distinct = (
    elim (Bool-cases (contains g.held g.next_permit)) [
      | inl seen ↦ absurd (omega (arith, w.numbered g.next_permit seen))
      | inr new ↦ new
    ],
    w.distinct,
  );
  numbered = λ p h. elim (Bool-cases (p == g.next_permit)) [
    | inl same ↦ ground (arith, eqb_iff p g.next_permit)
    | inr other ↦ omega (arith, w.numbered p (ground arith))
  ];
}

release-IsWithin :
    (now permit retry_after : ℕ) (g : Governor)
    → IsWithin g
    → IsWithin (release now permit retry_after g)
unfolding release
release-IsWithin now permit retry_after g w = elim (Bool-cases (contains g.held permit)) [
  | inl held ↦ rw held (record {
    few = omega (arith, length-keep_if (λ p. not (p == permit)) g.held, w.few);
    distinct = IsDistinct-keep_if (λ p. not (p == permit)) g.held w.distinct;
    numbered =
        λ p h. w.numbered p (ground (arith, contains-keep_if (λ q. not (q == permit)) g.held p));
  })
  | inr gone ↦ rw gone w
]

release-kept :
    (now permit retry_after : ℕ) (g : Governor)
    → ((release now permit retry_after g).limit ≡ g.limit)
      × (g.pause_until ≤ (release now permit retry_after g).pause_until)
unfolding release
release-kept now permit retry_after g = elim (Bool-cases (contains g.held permit)) [
  | inl held ↦ rw held (refl, ground arith)
  | inr gone ↦ rw gone (refl, omega arith)
]

-- What holds of every reached state.
record Governs (start g : Governor) : Type 0 where
  inside : IsWithin g
  same : g.limit ≡ start.limit
  later : start.pause_until ≤ g.pause_until

reached-Governs : (start g : Governor) → IsWithin start → Reaches start g → Governs start g
reached-Governs start g w here = record { inside = w; same = refl; later = omega arith }
reached-Governs start g w (passed {before = before} now r came) =
    let h = reached-Governs start before w r in
    subst (Governs start) (pass_pause-waiting now before g came) (record {
      inside = record {
        few = h.inside.few;
        distinct = h.inside.distinct;
        numbered = h.inside.numbered;
      };
      same = h.same;
      later = h.later;
    })
reached-Governs start _ w (gave_up {before = before} r) =
    let h = reached-Governs start before w r in
    record {
      inside = record {
        few = h.inside.few;
        distinct = h.inside.distinct;
        numbered = h.inside.numbered;
      };
      same = h.same;
      later = h.later;
    }
reached-Governs start g w (taken {before = before} r came) =
    let h = reached-Governs start before w r in
    let (room, got) = take_slot-granted before g came in
    subst (Governs start) got
      (record { inside = granted-IsWithin before h.inside room; same = h.same; later = h.later })
reached-Governs start _ w (released {before = before} now permit retry_after r) =
    let h = reached-Governs start before w r in
    let kept = release-kept now permit retry_after before in
    record {
      inside = release-IsWithin now permit retry_after before h.inside;
      same = kept.0 ∙ h.same;
      later = omega (arith, h.later, kept.1);
    }

-- Whatever the callers do, at most `limit` calls are in flight, no permit is held twice, and the
-- pause is never made shorter.
pub governed :
    (start g : Governor)
    → IsWithin start
    → Reaches start g
    → IsWithin g × (g.limit ≡ start.limit) × (start.pause_until ≤ g.pause_until)
governed start g w r = let h = reached-Governs start g w r in (h.inside, h.same, h.later)

shorter_without :
    (permit : ℕ) (xs : List ℕ)
    → contains xs permit ≡ true
    → length (keep_if (λ p. not (p == permit)) xs) < length xs
unfolding keep_if contains
shorter_without permit [] h = absurd cc
shorter_without permit (x ∷ xs) h = elim (Bool-cases (x == permit)) [
  | inl same ↦ ground (arith, length-keep_if (λ p. not (p == permit)) xs)
  | inr other ↦ ground (arith, eqb_iff x permit, eqb_iff permit x, shorter_without permit xs)
]

slot_taken :
    (now : ℕ) (g : Governor)
    → 0 < g.waiting
    → length g.held < g.limit
    → now < g.pause_until
    → (after : Governor) × (take_slot g ≡ some after) × (now < after.pause_until)
unfolding take_slot
slot_taken now g waits room paused = (granted g, ground arith, paused)

-- A caller that waits for a slot when a permit is released with a pause is let in at once, although
-- the pause is in effect.
pub pause_bypassed :
    (now permit retry_after : ℕ) (g : Governor)
    → contains g.held permit ≡ true
    → IsWithin g
    → 0 < g.waiting
    → 0 < retry_after
    → (after : Governor) × (take_slot (release now permit retry_after g) ≡ some after)
      × (now < after.pause_until)
unfolding release
pause_bypassed now permit retry_after g held w waits pauses =
    let shrunk = shorter_without permit g.held held in
    rw held (
      slot_taken now
        (record g {
          held = keep_if (λ p. not (p == permit)) g.held;
          pause_until = extended now retry_after g.pause_until;
        })
        waits (omega (arith, shrunk, w.few)) (ground arith))
