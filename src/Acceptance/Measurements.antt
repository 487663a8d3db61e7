-- ===== src/Acceptance/Measurements.antt =====
-- scripts/acceptance.py: `Measurements.__init__` and `Measurements.record`. The lock makes each
-- call one step, so that the workers' calls are a list of events in some order.
pub mod Laws
pub mod Sample
pub mod Report
mod Tests
use uart2llm.Prelude.{ℕ, ◌+◌, String, Option, none, some, List, [], take}
use uart2llm.Prelude.Int.{ℤ}
use uart2llm.Python.Dict.{lookup, insert, value_or, push}
use uart2llm.Python.Float.{Float, Arithmetic}
use uart2llm.Python.Json.{Json}

-- One entry of `ops`.
pub record Row : Type 0 where
  pub attempts : ℕ
  pub successes : ℕ
  pub failures : ℕ
  pub byte_count : ℕ
  pub total_seconds : Float
  pub latency_samples : List Float
  pub first_event_samples : List Float
  pub errors : List (String × ℕ)

abbrev pub new_row : Row
new_row = record {
  attempts = 0;
  successes = 0;
  failures = 0;
  byte_count = 0;
  total_seconds = 0;
  latency_samples = [];
  first_event_samples = [];
  errors = [];
}

-- One entry of the `failures` deque.
pub record Failure : Type 0 where
  pub operation : String
  pub error_type : String
  pub message : List ℕ

-- A number of a JSON value, and what `memory` keeps for one path.
pub data Number : Type 0 where
  whole : ℤ → Number
  real : Float → Number

pub record Trend : Type 0 where
  pub samples : ℕ
  pub first : Number
  pub last : Number
  pub min : Number
  pub max : Number
  pub sum_t : Float
  pub sum_y : Float
  pub sum_tt : Float
  pub sum_ty : Float

-- One entry of the `telemetry` deque.
pub record Reading : Type 0 where
  pub elapsed_seconds : Float
  pub connected : Json
  pub paired : Json
  pub memory : List (String × Number)

pub record Measurements : Type 0 where
  pub ops : List (String × Row)
  pub recent_failures : List Failure
  pub telemetry : List Reading
  pub memory : List (String × Trend)
  pub telemetry_count : ℕ
  pub telemetry_failures : ℕ

abbrev pub fresh : Measurements
fresh = record {
  ops = [];
  recent_failures = [];
  telemetry = [];
  memory = [];
  telemetry_count = 0;
  telemetry_failures = 0;
}

-- An exception as `record` reads it: its class name and the text of `str(error)`.
pub record Raised : Type 0 where
  pub name : String
  pub text : List ℕ

-- The arguments of one call of `record`.
pub record Call : Type 0 where
  pub operation : String
  pub seconds : Float
  pub count : ℕ
  pub first_event : Option Float
  pub error : Option Raised

-- `item["errors"][name] += 1` on a `Counter`
bump : String → List (String × ℕ) → List (String × ℕ)
bump name errors = insert name (value_or 0 (lookup name errors) + 1) errors

push_some : ℕ → Option Float → List Float → List Float
push_some k none xs = xs
push_some k (some x) xs = push k x xs

module _ (fl : Arithmetic) where
  -- The part of `record` that changes the operation's row.
  pub count_call : Call → Row → Row
  unfolding bump push_some
  count_call c row = elim c.error [
    | some e ↦ record row {
      attempts = row.attempts + 1;
      total_seconds = fl.add row.total_seconds c.seconds;
      failures = row.failures + 1;
      errors = bump e.name row.errors;
    }
    | none ↦ record row {
      attempts = row.attempts + 1;
      total_seconds = fl.add row.total_seconds c.seconds;
      successes = row.successes + 1;
      byte_count = row.byte_count + c.count;
      latency_samples = push 1024 c.seconds row.latency_samples;
      first_event_samples = push_some 1024 c.first_event row.first_event_samples;
    }
  ]

  -- `self.failures.append(...)`
  pub note_failure : Call → List Failure → List Failure
  note_failure c failures = elim c.error [
    | none ↦ failures
    | some e ↦
        push 32 (record { operation = c.operation; error_type = e.name; message = take 300 e.text })
          failures
  ]

  unfoldable pub record_call : Call → Measurements → Measurements
  unfolding count_call note_failure
  record_call c m =
      let item = value_or new_row (lookup c.operation m.ops) in
      record m {
        ops = insert c.operation (count_call c item) m.ops;
        recent_failures = note_failure c m.recent_failures;
      }
