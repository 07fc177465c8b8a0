-- ===== src/Tests/CrashLoop.antt =====
-- The breaker on two short histories.
use veska.Common.{ℕ, ◌+◌, ◌*◌, ◌-◌, ◌≡◌, refl, true, false, none, some, List, [], ◌∷◌, ok}
use veska.CrashLoop.{Home, no_faults, second, window_duration, record_restart}
use veska.CrashLoop.Window

abbrev tripped : Home
tripped = record { broken = true; window_start = some 10; crash_count = 5 }

abbrev young : Home
young = record { broken = false; window_start = some 10; crash_count = 1 }

record_restart_broken_example : record_restart no_faults 7 tripped ≡ (tripped, ok true)
record_restart_broken_example = Window.record_restart_broken no_faults 7 tripped refl refl

abbrev soon : List ℕ
soon = 10000000001 ∷ 10000000002 ∷ 10000000003 ∷ []

burst_across_windows_example :
    (Window.run
      (3 * second
        ∷ (3 * second + window_duration - 1)
        ∷ (3 * second + window_duration - 1)
        ∷ (3 * second + window_duration - 1)
        ∷ (3 * second + window_duration)
        ∷ (3 * second + window_duration)
        ∷ (3 * second + window_duration)
        ∷ (3 * second + window_duration)
        ∷ [])
      (record { broken = false; window_start = none; crash_count = 0 })).broken
    ≡ false
burst_across_windows_example = Window.burst_across_windows 3
