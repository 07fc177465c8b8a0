-- ===== src/CrashLoop/Window.antt =====
-- When the breaker trips, and when it does not.
use veska.Common.{
  ℕ, ◌+◌, ◌-◌, ◌*◌, ◌<◌, ◌≡◌, refl, ap, true, false, none, some, List, [], ◌∷◌, ok, leb, length,
  All, arith, Bool-cases, inl, inr,
}
use veska.CrashLoop.{Home, Faults, no_faults, second, window_duration, record_restart}

unfoldable pub run : List ℕ → Home → Home
run [] h = h
run (t ∷ ts) h = run ts (record_restart no_faults t h).0

-- A tripped breaker stays tripped: every later restart is told so, and nothing is written.
pub record_restart_broken :
    (f : Faults) (now : ℕ) (h : Home)
    → f.stat ≡ false
    → h.broken ≡ true
    → record_restart f now h ≡ (h, ok true)
unfolding record_restart
record_restart_broken f now h s b = ground arith

run_broken : (ts : List ℕ) (h : Home) → h.broken ≡ true → run ts h ≡ h
unfolding run
run_broken [] h b = refl
run_broken (t ∷ ts) h b = rw (record_restart_broken no_faults t h refl b) (run_broken ts h b)

step_in_window :
    (t w : ℕ) (h : Home)
    → h.broken ≡ false
    → h.window_start ≡ some w
    → t < w * second + window_duration
    → (record_restart no_faults t h).0
      ≡ record h { crash_count = h.crash_count + 1; broken = leb 5 (h.crash_count + 1) }
unfolding record_restart
step_in_window t w h b e lt = ground arith

-- From a breaker that has not tripped, with a count below five and no file operation failing,
-- restarts within the open window trip it exactly when they make the count reach five.
pub run_in_window :
    (ts : List ℕ) (w : ℕ) (h : Home)
    → h.broken ≡ false
    → h.crash_count < 5
    → h.window_start ≡ some w
    → All (λ t. t < w * second + window_duration) ts
    → (run ts h).broken ≡ leb 5 (h.crash_count + length ts)
unfolding run
run_in_window [] w h b c e a = ground arith
run_in_window (t ∷ ts) w h b c e a =
    let h' : Home = record h {
      crash_count = h.crash_count + 1;
      broken = leb 5 (h.crash_count + 1);
    } in
    rw (ap (λ x. (run ts x).broken) (step_in_window t w h b e a.0))
      (elim (Bool-cases (leb 5 (h.crash_count + 1))) [
        | inl tripped ↦ rw (run_broken ts h' tripped) (ground arith)
        | inr running ↦
            let rest = run_in_window ts w h' running (ground arith) e a.1 in ground arith
      ])

-- The window does not slide: at whatever second a restart opened it, and with no file operation
-- failing, three restarts in its last nanosecond and four at its end, seven within one nanosecond,
-- do not trip the breaker.
pub burst_across_windows :
    (w : ℕ)
    → let end = w * second + window_duration in
      (run
        (w * second ∷ (end - 1) ∷ (end - 1) ∷ (end - 1) ∷ end ∷ end ∷ end ∷ end ∷ [])
        (record { broken = false; window_start = none; crash_count = 0 })).broken
      ≡ false
unfolding run record_restart
burst_across_windows w = ground arith
