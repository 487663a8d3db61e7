-- ===== src/Acceptance/Measurements/Tests.antt =====
-- Runs of `Measurements`, and instances of its theorems.
use uart2llm.Prelude.{
  ℕ, ◌+◌, ◌≡◌, refl, String, Bool, true, false, none, some, List, [], ◌∷◌, not, ltb, length, arith,
  ◌⊎◌, All, ◌&&◌, ◌==◌, ◌%◌, ◌^◌, ◌-◌, if◌then◌else◌,
}
use uart2llm.Prelude.Int.{pos, negsuc}
use uart2llm.Prelude.Sort.{sort, IsOrder}
use uart2llm.Python.Dict
use uart2llm.Python.Dict.{last}
use uart2llm.Python.Float.{Float, Arithmetic, is_finite, is_negative}
use uart2llm.Python.Json.{Json, int, obj, field, end}
use uart2llm.Acceptance.Samples.{arithmetic}
use uart2llm.Acceptance.Measurements.{Call, new_row, Number, whole, real, fresh}
use uart2llm.Acceptance.Measurements.Laws.{
  record_all, row_of, Counts, record_all_account, record_all_recent, latencies_of, failures_in,
}
use uart2llm.Acceptance.Measurements.Report.{Distribution, distribution, le}
use uart2llm.Acceptance.Measurements.Report.Quantiles.{Describes, distribution-Describes}
use uart2llm.Acceptance.Measurements.Sample.Bounds.{sample_all, IsSampled, sample_all_bounds}

-- One success and one failure.
abbrev calls : List Call
calls =
    record { operation = "sse"; seconds = 4; count = 21; first_event = some 2; error = none }
    ∷ record {
      operation = "sse";
      seconds = 3;
      count = 0;
      first_event = none;
      error = some (record { name = "OSError"; text = 110 ∷ 111 ∷ [] });
    }
    ∷ []

record_all_account_example :
    Counts arithmetic "sse" calls new_row
      (row_of arithmetic "sse" (record_all arithmetic calls fresh))
    × ((row_of arithmetic "sse" (record_all arithmetic calls fresh)).attempts
        ≡ (row_of arithmetic "sse" (record_all arithmetic calls fresh)).successes
          + (row_of arithmetic "sse" (record_all arithmetic calls fresh)).failures)
record_all_account_example = record_all_account arithmetic "sse" calls

record_all_recent_example :
    ((row_of arithmetic "sse" (record_all arithmetic calls fresh)).latency_samples
      ≡ last 1024 (latencies_of "sse" calls))
    × ((record_all arithmetic calls fresh).recent_failures ≡ last 32 (failures_in calls))
record_all_recent_example = record_all_recent arithmetic "sse" calls

-- `<` on the patterns: by size and sign, and never with a NaN.
is_nan : Float → Bool
unfolding is_finite
is_nan x = not (is_finite x) && not (x % 2 ^ 52 == 0)

-- The two zeros have the same key.
key : Float → ℕ
unfolding is_negative
key x = if is_negative x then 2 ^ 63 - x % 2 ^ 63 else 2 ^ 63 + x

less_float : Float → Float → Bool
unfolding is_nan key
less_float x y = not (is_nan x) && not (is_nan y) && ltb (key x) (key y)

abbrev ordered : Arithmetic
ordered = record arithmetic { less = less_float }

is_nan-is_finite : (x : Float) → is_finite x ≡ true → is_nan x ≡ false
unfolding is_nan
is_nan-is_finite x h = rw h refl

less_float-key :
    (x y : Float) → is_finite x ≡ true → is_finite y ≡ true → less_float x y ≡ ltb (key x) (key y)
unfolding less_float
less_float-key x y p q = rw (is_nan-is_finite x p, is_nan-is_finite y q) refl

key_total : (a b : ℕ) → (not (ltb b a) ≡ true) ⊎ (not (ltb a b) ≡ true)
key_total a b = ground arith

key_trans : (a b c : ℕ) → not (ltb b a) ≡ true → not (ltb c b) ≡ true → not (ltb c a) ≡ true
key_trans a b c p q = ground (arith, p, q)

order : IsOrder is_finite (le ordered)
order = record {
  total =
      λ x y p q. rw (less_float-key x y p q, less_float-key y x q p) (key_total (key x) (key y));
  trans = λ x y z p q r.
      rw (less_float-key y x q p, less_float-key z y r q, less_float-key z x r p)
        (key_trans (key x) (key y) (key z));
}

-- 0.5, -1.0 and 2.0.
abbrev samples : List Float
samples = 0x3fe0000000000000 ∷ 0xbff0000000000000 ∷ 0x4000000000000000 ∷ []

abbrev described : Distribution
described = record {
  samples = 3;
  min_seconds = 0xbff0000000000000;
  median_seconds = 0x3fe0000000000000;
  p95_seconds = 0x4000000000000000;
  max_seconds = 0x4000000000000000;
}

distribution_samples : distribution ordered samples ≡ some described
unfolding distribution sort less_float is_nan key is_finite is_negative
distribution_samples = refl

samples_finite : All (λ x. is_finite x ≡ true) samples
unfolding is_finite
samples_finite = (refl, (refl, (refl, tt)))

distribution-Describes_example : Describes ordered order samples described
distribution-Describes_example =
    distribution-Describes ordered order samples described samples_finite distribution_samples

abbrev less_number : Number → Number → Bool
less_number (whole (pos a)) (whole (pos b)) = ltb a b
less_number (real a) (real b) = ltb a b
less_number _ _ = false

less_number_irreflexive : (x : Number) → less_number x x ≡ false
less_number_irreflexive (whole (pos a)) = ground arith
less_number_irreflexive (whole (negsuc a)) = refl
less_number_irreflexive (real a) = ground arith

-- The state of a gateway with one of the six values.
abbrev state : Json
state =
    obj (field "host" (obj (field "memory" (obj (field "rss_bytes" (int (pos 4096)) end)) end)) end)

abbrev readings : List (Float × Json)
readings = (7, state) ∷ []

sample_all_bounds_example :
    IsSampled arithmetic less_number (sample_all arithmetic less_number readings fresh)
    × ((sample_all arithmetic less_number readings fresh).telemetry_count ≡ length readings)
sample_all_bounds_example =
    sample_all_bounds arithmetic less_number less_number_irreflexive readings

abbrev chosen : List (String × Number)
chosen = ("host.memory.rss_bytes", whole (pos 4096)) ∷ []
