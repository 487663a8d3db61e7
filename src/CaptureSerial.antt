-- ===== src/CaptureSerial.antt =====
-- scripts/capture-serial.py: the loop of `main`, which reads the serial port until its time or its
-- bound on bytes is over, and opens the port again after an exception.
pub mod Bounds
mod Tests
use uart2llm.Prelude.{
  ℕ, ◌+◌, ◌*◌, Bool, true, false, Option, none, some, List, [], ◌∷◌, ◌++◌, ◌&&◌, ltb, length,
  if◌then◌else◌,
}

abbrev pub capture_limit : ℕ
capture_limit = 2 * 1024 * 1024

-- What one round of the loop meets: whether the clock is before the deadline, whether `port.open`
-- succeeds where it is called, and what `port.read(4096)` returns; none is a SerialException.
pub record Turn : Type 0 where
  pub in_time : Bool
  pub opens : Bool
  pub received : Option (List ℕ)

pub record Capture : Type 0 where
  pub port_open : Bool
  pub output : List ℕ
  pub count : ℕ

abbrev pub opened : Capture
opened = record { port_open = true; output = []; count = 0 }

-- The exception's handler.
pub reopen : Capture → Capture
reopen s = record s { port_open = false }

-- An empty read writes nothing.
pub keep_bytes : Option (List ℕ) → Capture → Capture
unfolding reopen
keep_bytes none s = reopen s
keep_bytes (some []) s = record s { port_open = true }
keep_bytes (some (x ∷ xs)) s = record {
  port_open = true;
  output = s.output ++ (x ∷ xs);
  count = s.count + length (x ∷ xs);
}

-- The body of the loop.
pub turn : Turn → Capture → Capture
unfolding keep_bytes reopen
turn t s =
    if s.port_open
    then keep_bytes t.received s
    else if t.opens
    then keep_bytes t.received s
    else reopen s

pub capture : List Turn → Capture → Capture
unfolding turn
capture [] s = s
capture (t ∷ ts) s =
    let later = capture ts (turn t s) in if t.in_time && ltb s.count capture_limit then later else s
