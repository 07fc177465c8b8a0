-- ===== src/CrashLoop.antt =====
-- internal/platform/crashloop/breaker.go. The three files of the home directory are a record, with
-- the numbers that their text stands for; the clock counts nanoseconds, and the window file whole
-- seconds.
pub mod Window
use veska.Common.{
  ℕ, ◌+◌, ◌*◌, Bool, true, false, Option, none, some, Result, ok, err, ltb, leb, if◌then◌else◌,
}
use Prim.Native.Nat.{◌/◌}

abbrev pub max_restarts : ℕ
max_restarts = 5

abbrev pub second : ℕ
second = 1000000000

-- 10 minutes.
abbrev pub window_duration : ℕ
window_duration = 600000000000

-- `none` for a window file that is missing or does not parse; a count file that is missing or does
-- not parse reads as 0. The count is never negative.
pub record Home : Type 0 where
  pub broken : Bool
  pub window_start : Option ℕ
  pub crash_count : ℕ

pub data Error : Type 0 where
  stat_failed window_write_failed count_write_failed broken_write_failed : Error

-- Which operations on the files the system refuses.
pub record Faults : Type 0 where
  pub stat : Bool
  pub window : Bool
  pub count : Bool
  pub broken : Bool

abbrev pub no_faults : Faults
no_faults = record { stat = false; window = false; count = false; broken = false }

-- `now.Sub(windowStart) < windowDuration`.
abbrev pub in_window : ℕ → Option ℕ → Bool
in_window now none = false
in_window now (some start) = ltb now (start * second + window_duration)

-- What follows once the window is settled: the count is raised and written, and may trip.
unfoldable pub raise : Faults → Home → ℕ → Home × Result Error Bool
raise f h count =
    let n = count + 1 in
    if f.count
    then (h, err count_write_failed)
    else (let h' = record h { crash_count = n } in
        if leb max_restarts n
        then (if f.broken
            then (h', err broken_write_failed)
            else (record h' { broken = true }, ok true))
        else (h', ok false))

-- Record.
unfoldable pub record_restart : Faults → ℕ → Home → Home × Result Error Bool
unfolding raise
record_restart f now h =
    if f.stat
    then (h, err stat_failed)
    else if h.broken
    then (h, ok true)
    else if in_window now h.window_start
    then raise f h h.crash_count
    else if f.window
    then (h, err window_write_failed)
    else raise f (record h { window_start = some (now / second) }) 0
