-- ===== src/LogRotate/Failure.antt =====
-- After a failed rotation: the handle is closed, and every operation closes the handle first.
use veska.Common.{ℕ, ◌≡◌, refl, Bool, false, List, [], ◌∷◌, map, arith}
use veska.LogRotate.{Writer, Faults, rotate_closed, rotate, write, reopen, close}

pub data Op : Type 0 where
  do_write : List ℕ → Op
  do_reopen do_close : Op

-- One operation, and whether it went through.
unfoldable pub step : Faults × Op → Writer → Writer × Bool
step (f, do_write p) w = let (w', n, fine) = write f p w in (w', fine)
step (f, do_reopen) w = reopen f w
step (f, do_close) w = close f w

unfoldable pub run : List (Faults × Op) → Writer → Writer × List Bool
run [] w = (w, [])
run (o ∷ os) w =
    let (w', fine) = step o w in let (end, answers) = run os w' in (end, fine ∷ answers)

rotate_failed :
    (f : Faults) (w : Writer) → (rotate f w).1 ≡ false → (rotate f w).0.open_file ≡ false
unfolding rotate rotate_closed
rotate_failed f w h = ground arith

step_closed : (o : Faults × Op) (w : Writer) → w.open_file ≡ false → step o w ≡ (w, false)
unfolding step write reopen close rotate
step_closed (f, do_write p) w c = ground arith
step_closed (f, do_reopen) w c = ground arith
step_closed (f, do_close) w c = ground arith

run_closed :
    (os : List (Faults × Op)) (w : Writer)
    → w.open_file ≡ false
    → run os w ≡ (w, map (λ o. false) os)
unfolding run
run_closed [] w c = refl
run_closed (o ∷ os) w c = rw (step_closed o w c, run_closed os w c) refl

-- A rotation that fails is final: whatever operations follow, Write, Reopen and Close in any order
-- and with or without further system errors, every one of them fails and changes nothing.
pub failed_rotation_is_final :
    (f : Faults) (w : Writer) (os : List (Faults × Op))
    → (rotate f w).1 ≡ false
    → run os (rotate f w).0 ≡ ((rotate f w).0, map (λ o. false) os)
failed_rotation_is_final f w os h = run_closed os (rotate f w).0 (rotate_failed f w h)
