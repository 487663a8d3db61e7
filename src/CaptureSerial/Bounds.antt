-- ===== src/CaptureSerial/Bounds.antt =====
-- How much scripts/capture-serial.py writes.
use uart2llm.Prelude.{
  ℕ, ◌+◌, ◌≤◌, ◌≡◌, refl, Bool, true, false, Option, none, some, List, [], ◌∷◌, ◌&&◌, arith, inl,
  inr, Bool-cases, and-eq-true, ltb, ltb→lt, length, length-append, All, if◌then◌else◌,
}
use uart2llm.CaptureSerial.{capture_limit, Turn, Capture, opened, reopen, keep_bytes, turn, capture}

-- `port.read(4096)` returns 4096 bytes at most.
abbrev pub Fits : Turn → Type 0
Fits t = (bytes : List ℕ) → t.received ≡ some bytes → length bytes ≤ 4096

-- The file holds what was counted, no more than one read above the bound.
pub record IsCapture (s : Capture) : Type 0 where
  pub counted : length s.output ≡ s.count
  pub bounded : s.count ≤ capture_limit + 4095

keep_bytes-IsCapture :
    (received : Option (List ℕ)) (s : Capture)
    → IsCapture s
    → s.count + 1 ≤ capture_limit
    → ((bytes : List ℕ) → received ≡ some bytes → length bytes ≤ 4096)
    → IsCapture (keep_bytes received s)
unfolding keep_bytes reopen
keep_bytes-IsCapture none s v room fits = record { counted = v.counted; bounded = v.bounded }
keep_bytes-IsCapture (some []) s v room fits = record { counted = v.counted; bounded = v.bounded }
keep_bytes-IsCapture (some (x ∷ xs)) s v room fits = record {
  counted = omega (arith, length-append s.output (x ∷ xs), v.counted);
  bounded = omega (arith, room, fits (x ∷ xs) refl);
}

turn-IsCapture :
    (t : Turn) (s : Capture)
    → Fits t
    → IsCapture s
    → s.count + 1 ≤ capture_limit
    → IsCapture (turn t s)
unfolding turn reopen
turn-IsCapture t s fits v room =
    either s.port_open t.opens (keep_bytes-IsCapture t.received s v room fits)
      (record { counted = v.counted; bounded = v.bounded })
  where
    either :
        (up opens : Bool)
        → IsCapture (keep_bytes t.received s)
        → IsCapture (record s { port_open = false })
        → IsCapture (
            if up
            then keep_bytes t.received s
            else if opens
            then keep_bytes t.received s
            else record s { port_open = false })
    either true opens kept lost = kept
    either false true kept lost = kept
    either false false kept lost = lost

capture_from :
    (turns : List Turn) (s : Capture) → All Fits turns → IsCapture s → IsCapture (capture turns s)
unfolding capture
capture_from [] s fits v = v
capture_from (t ∷ ts) s (now, later) v =
    elim (Bool-cases (t.in_time && ltb s.count capture_limit)) [
      | inr over ↦ rw over v
      | inl more ↦ rw more (
          capture_from ts (turn t s) later (
            turn-IsCapture t s now v
              (omega (arith, ltb→lt s.count capture_limit (and-eq-true _ _ more).1))))
    ]

-- If every read returns 4096 bytes at most, then whatever is read, and however often the port fails,
-- the file holds exactly the bytes that are counted, and at most 4095 more than 2 MiB.
pub capture-IsCapture : (turns : List Turn) → All Fits turns → IsCapture (capture turns opened)
capture-IsCapture turns fits =
    capture_from turns opened fits (record { counted = refl; bounded = omega arith })
