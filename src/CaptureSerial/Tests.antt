-- ===== src/CaptureSerial/Tests.antt =====
-- An instance of the theorem on the capture.
use uart2llm.Prelude.{true, none, some, List, [], ◌∷◌, All, arith}
use uart2llm.CaptureSerial.{Turn, opened, capture}
use uart2llm.CaptureSerial.Bounds.{Fits, IsCapture, capture-IsCapture}

-- A read, a failure, and a read after the port was opened again.
abbrev turns : List Turn
turns =
    record { in_time = true; opens = true; received = some (1 ∷ 2 ∷ []) }
    ∷ record { in_time = true; opens = true; received = none }
    ∷ record { in_time = true; opens = true; received = some [] }
    ∷ []

turns-Fits : All Fits turns
turns-Fits = (λ bytes p. ground (arith, p), (λ bytes p. cc, (λ bytes p. ground (arith, p), tt)))

capture-IsCapture_example : IsCapture (capture turns opened)
capture-IsCapture_example = capture-IsCapture turns turns-Fits
