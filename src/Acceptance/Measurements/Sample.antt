-- ===== src/Acceptance/Measurements/Sample.antt =====
-- scripts/acceptance.py: `Measurements.sample`, one reading of the device's memory.
pub mod Bounds
pub mod Provenance
use uart2llm.Prelude.{
  ℕ, suc, ◌+◌, ◌-◌, ◌^◌, String, Bool, true, false, Option, none, some, List, [], ◌∷◌, ◌++◌, leb,
  if◌then◌else◌,
}
use uart2llm.Prelude.Int.{ℤ, pos, negsuc}
use uart2llm.Python.Dict
use uart2llm.Python.Dict.{insert, value_or, push}
use uart2llm.Python.Error.{Result, ok, raise, ◌>>=◌, overflow_error}
use uart2llm.Python.Float.{Float, Arithmetic, is_finite}
use uart2llm.Python.Json
use uart2llm.Python.Json.{Json, null, bool, int, float, str, arr, obj, or_default}
use uart2llm.Acceptance.Measurements.{Number, whole, real, Trend, Reading, Measurements}

-- `paths`, each with its parts.
abbrev pub paths : List (String × List String)
paths =
    ("device.memory.internal_free", "device" ∷ "memory" ∷ "internal_free" ∷ [])
    ∷ ("device.memory.internal_min_free", "device" ∷ "memory" ∷ "internal_min_free" ∷ [])
    ∷ ("device.memory.psram_free", "device" ∷ "memory" ∷ "psram_free" ∷ [])
    ∷ ("device.memory.largest_internal_block", "device" ∷ "memory" ∷ "largest_internal_block" ∷ [])
    ∷ ("host.memory.rss_bytes", "host" ∷ "memory" ∷ "rss_bytes" ∷ [])
    ∷ ("host.memory.heap_bytes", "host" ∷ "memory" ∷ "heap_bytes" ∷ [])
    ∷ []

-- `value.get(part) if isinstance(value, dict) else None`
child : String → Json → Json
unfolding Json.lookup
child part (obj fs) = or_default null (Json.lookup part fs)
child part null = null
child part (bool _) = null
child part (int _) = null
child part (float _) = null
child part (str _) = null
child part (arr _) = null

pub follow : List String → Json → Json
unfolding child
follow [] value = value
follow (part ∷ parts) value = follow parts (child part value)

-- An integer from here on rounds to no finite float.
abbrev float_limit : ℕ
float_limit = 2 ^ 1024 - 2 ^ 970

-- The test of the loop: an `int` or a finite `float`, no `bool`. `math.isfinite` raises on an
-- integer that no float can hold.
pub finite_number : Json → Result (Option Number)
unfolding is_finite
finite_number (int (pos n)) =
    if leb float_limit n then raise overflow_error else ok (some (whole (pos n)))
finite_number (int (negsuc n)) =
    if leb float_limit (suc n) then raise overflow_error else ok (some (whole (negsuc n)))
finite_number (float x) = ok (if is_finite x then some (real x) else none)
finite_number null = ok none
finite_number (bool _) = ok none
finite_number (str _) = ok none
finite_number (arr _) = ok none
finite_number (obj _) = ok none

-- Python compares an `int` with a `float` exactly; `less` stands for that order.
module _ (fl : Arithmetic) (less : Number → Number → Bool) where
  to_float : Number → Float
  to_float (whole n) = fl.of_int n
  to_float (real x) = x

  new_trend : Number → Trend
  new_trend value = record {
    samples = 0;
    first = value;
    last = value;
    min = value;
    max = value;
    sum_t = 0;
    sum_y = 0;
    sum_tt = 0;
    sum_ty = 0;
  }

  pub update_trend : Float → Number → Trend → Trend
  unfolding to_float
  update_trend elapsed value row = record row {
    samples = row.samples + 1;
    last = value;
    min = if less value row.min then value else row.min;
    max = if less row.max value then value else row.max;
    sum_t = fl.add row.sum_t elapsed;
    sum_y = fl.add row.sum_y (to_float value);
    sum_tt = fl.add row.sum_tt (fl.mul elapsed elapsed);
    sum_ty = fl.add row.sum_ty (fl.mul elapsed (to_float value));
  }

  pub note_value : Float → String → Number → List (String × Trend) → List (String × Trend)
  unfolding new_trend update_trend
  note_value elapsed path value memory =
      insert path
        (update_trend elapsed value (value_or (new_trend value) (Dict.lookup path memory))) memory

  -- What the loop over the paths has selected, and the trends so far, beside an exception too.
  abbrev pub Loop : Type 0
  Loop = Result (List (String × Number)) × List (String × Trend)

  -- How one round of the loop goes on: `continue`, or the value is noted.
  pub after_number : Result (Option Number) → List (String × Trend) → Loop → (Number → Loop) → Loop
  after_number (raise e) memory skip note = (raise e, memory)
  after_number (ok none) memory skip note = skip
  after_number (ok (some value)) memory skip note = note value

  unfoldable pub read_paths :
      Float
      → Json
      → List (String × List String)
      → List (String × Number)
      → List (String × Trend)
      → Loop
  unfolding note_value follow finite_number after_number
  read_paths elapsed state [] selected memory = (ok selected, memory)
  read_paths elapsed state ((path, parts) ∷ rest) selected memory =
      after_number (finite_number (follow parts state)) memory
        (read_paths elapsed state rest selected memory)
        (λ value.
          read_paths elapsed state rest (insert path value selected)
            (note_value elapsed path value memory))

  -- `self.telemetry.append(...)`
  pub append_reading :
      Float → Json → Result (List (String × Number)) → List Reading → Result (List Reading)
  unfolding Json.get
  append_reading elapsed state selected telemetry = do
    chosen ← selected
    connected ← Json.get "connected" null state
    paired ← Json.get "paired" null state
    ok (
        push 120
          (record {
            elapsed_seconds = fl.round3 elapsed;
            connected = connected;
            paired = paired;
            memory = chosen;
          })
          telemetry)

  pub keep_telemetry : Result (List Reading) → Measurements → Result (Unit {0}) × Measurements
  keep_telemetry (raise e) m = (raise e, m)
  keep_telemetry (ok telemetry) m = (ok tt, record m { telemetry = telemetry })

  -- The whole call; the state comes back beside an exception, as the caller goes on with it.
  pub sample : Float → Json → Measurements → Result (Unit {0}) × Measurements
  unfolding append_reading keep_telemetry
  sample elapsed state m =
      let (selected, memory) = read_paths elapsed state paths [] m.memory in
      keep_telemetry (append_reading elapsed state selected m.telemetry)
        (record m { telemetry_count = m.telemetry_count + 1; memory = memory })
