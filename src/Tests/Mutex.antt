-- ===== src/Tests/Mutex.antt =====
-- Two goroutines that operate one control (iec61850/iec61850_control.go), with a small library.
use go_libiec.Prelude.{ℕ, ◌≡◌, true, false, none, List, [], ◌∷◌, ◌++◌}
use go_libiec.Control.{Client}
use go_libiec.Control.Mutex.{Call, operate_boolean, operate_int32, interleave, callers, fresh}
use go_libiec.Control.Mutex.Serial.{IsSerial, interleave-IsSerial}
use go_libiec.Control.Mutex.Finish.{AllReturned, interleave-finishes}
use go_libiec.Tests.Control.{switches}

abbrev nothing_yet : Client
nothing_yet = record { control_cache = none; log = [] }

abbrev two_calls : List (ℕ × Call)
two_calls =
    (1, operate_boolean "LD1/GGIO1.SPCSO1" true) ∷ (2, operate_int32 "LD1/GGIO1.SPCSO1" 5) ∷ []

-- The second one gets the lock first, and the first one is picked in between.
abbrev picks : List ℕ
picks = 1 ∷ 0 ∷ 1 ∷ 1 ∷ 0 ∷ 1 ∷ 1 ∷ 1 ∷ 0 ∷ 0 ∷ 0 ∷ 1 ∷ []

interleave-IsSerial_example :
    IsSerial switches nothing_yet (interleave switches picks (callers two_calls, fresh nothing_yet))
interleave-IsSerial_example = interleave-IsSerial switches nothing_yet picks two_calls

interleave-finishes_example :
    (more : List ℕ) × ((interleave switches
        (picks ++ more)
        (callers two_calls, fresh nothing_yet)).1.locked
      ≡ false)
    × AllReturned (interleave switches (picks ++ more) (callers two_calls, fresh nothing_yet)).0
interleave-finishes_example = interleave-finishes switches picks two_calls nothing_yet
