-- ===== src/Acceptance/Measurements/Report.antt =====
-- scripts/acceptance.py: `Measurements.distribution` and `Measurements.report`.
pub mod Quantiles
use uart2llm.Prelude.{
  ℕ, suc, ◌+◌, ◌-◌, ◌*◌, ◌/◌, ◌%◌, String, Bool, true, false, Option, none, some, List, [], ◌∷◌,
  map, not, ◌==◌, if◌then◌else◌, length,
}
use uart2llm.Prelude.Int.{pos}
use uart2llm.Prelude.Sort.{sort, get_or}
use uart2llm.Python.Float.{Float, Arithmetic}
use uart2llm.Acceptance.Measurements.{Row, Failure, Number, Trend, Reading, Measurements}

pub record Distribution : Type 0 where
  pub samples : ℕ
  pub min_seconds : Float
  pub median_seconds : Float
  pub p95_seconds : Float
  pub max_seconds : Float

-- `max(0, math.ceil(n * .95) - 1)`, in whole numbers. For the at most 1024 samples of a deque the
-- product of floats rounds to the same index.
abbrev pub p95_index : ℕ → ℕ
p95_index n = (19 * n + 19) / 20 - 1

-- A row without its `_samples`, and what is made of these.
pub record OpReport : Type 0 where
  pub attempts : ℕ
  pub successes : ℕ
  pub failures : ℕ
  pub byte_count : ℕ
  pub total_seconds : Float
  pub errors : List (String × ℕ)
  pub latency_recent_1024 : Option Distribution
  pub first_event_recent_1024 : Option Distribution
  pub successful_bytes_per_wall_second : Float

pub record TrendReport : Type 0 where
  pub samples : ℕ
  pub first : Number
  pub last : Number
  pub min : Number
  pub max : Number
  pub linear_trend_bytes_per_hour : Option Float

pub record Report : Type 0 where
  pub operations : List (String × OpReport)
  pub recent_failures : List Failure
  pub memory_trends : List (String × TrendReport)
  pub telemetry_samples : ℕ
  pub telemetry_failures : ℕ
  pub recent_telemetry : List Reading

module _ (fl : Arithmetic) where
  -- `sorted` compares by `<` alone.
  abbrev pub le : Float → Float → Bool
  le x y = not (fl.less y x)

  -- `statistics.median`, of a sorted list that is not empty; 0x4000000000000000 is 2.0.
  pub median : List Float → Float
  median ordered =
      let n = length ordered in
      if n % 2 == 1
      then get_or ordered (n / 2) 0
      else fl.div (fl.add (get_or ordered (n / 2 - 1) 0) (get_or ordered (n / 2) 0))
          0x4000000000000000

  describe : List Float → Option Distribution
  unfolding median
  describe [] = none
  describe (x ∷ xs) =
      let ordered = x ∷ xs in
      some (record {
        samples = length ordered;
        min_seconds = x;
        median_seconds = median ordered;
        p95_seconds = get_or ordered (p95_index (length ordered)) 0;
        max_seconds = get_or ordered (length ordered - 1) 0;
      })

  unfoldable pub distribution : List Float → Option Distribution
  unfolding describe sort
  distribution samples = describe (sort le samples)

  -- `max(elapsed, .001)`
  wall_seconds : Float → Float
  wall_seconds elapsed = if fl.less elapsed 0x3f50624dd2f1a9fc then 0x3f50624dd2f1a9fc else elapsed

  unfoldable pub op_report : Float → Row → OpReport
  unfolding distribution wall_seconds
  op_report elapsed row = record {
    attempts = row.attempts;
    successes = row.successes;
    failures = row.failures;
    byte_count = row.byte_count;
    total_seconds = row.total_seconds;
    errors = row.errors;
    latency_recent_1024 = distribution row.latency_samples;
    first_event_recent_1024 = distribution row.first_event_samples;
    successful_bytes_per_wall_second =
        fl.div (fl.of_int (pos row.byte_count)) (wall_seconds elapsed);
  }

  -- The slope of the least-squares line; 0x40ac200000000000 is 3600.0.
  slope : Trend → Option Float
  slope row =
      let n = fl.of_int (pos row.samples) in
      let denominator = fl.sub (fl.mul n row.sum_tt) (fl.mul row.sum_t row.sum_t) in
      let covariance = fl.sub (fl.mul n row.sum_ty) (fl.mul row.sum_t row.sum_y) in
      if fl.less 0 denominator
      then some (fl.mul (fl.div covariance denominator) 0x40ac200000000000)
      else none

  trend_report : Trend → TrendReport
  unfolding slope
  trend_report row = record {
    samples = row.samples;
    first = row.first;
    last = row.last;
    min = row.min;
    max = row.max;
    linear_trend_bytes_per_hour = slope row;
  }

  unfoldable pub report : Float → Measurements → Report
  unfolding op_report trend_report
  report elapsed m = record {
    operations = map (λ (name, row). (name, op_report elapsed row)) m.ops;
    recent_failures = m.recent_failures;
    memory_trends = map (λ (name, row). (name, trend_report row)) m.memory;
    telemetry_samples = m.telemetry_count;
    telemetry_failures = m.telemetry_failures;
    recent_telemetry = m.telemetry;
  }
