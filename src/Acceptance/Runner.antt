-- ===== src/Acceptance/Runner.antt =====
-- scripts/acceptance.py: `main`, from its checks of the arguments and of the upstream's marker to
-- the verdict of the report.
pub mod Gate
pub mod Connections
pub mod Works
pub mod Verdict
mod Tests
use uart2llm.Prelude.{
  ℕ, ◌+◌, ◌*◌, ◌^◌, String, Bool, true, false, Option, none, some, List, [], ◌∷◌, not, ◌&&◌, ◌||◌,
  ◌==◌, str_eq, ltb, leb, any, all, map, length, if◌then◌else◌,
}
use uart2llm.Prelude.Int.{ℤ, pos, negsuc}
use uart2llm.Python.Error.{
  Error, Result, ok, raise, ◌>>=◌, ◌>>◌, raise_if, class_name, runtime_error, system_exit, is_ok,
}
use uart2llm.Python.Float.{Float, is_finite, Arithmetic}
use uart2llm.Python.Json
use uart2llm.Python.Json.{
  Json, null, arr, nil, empty, equals_ℕ, equals_str, is_true, is_dict, iterate,
}
use uart2llm.Acceptance.Pattern.{Sha, pattern_hash}
use uart2llm.Acceptance.Endpoint.{model, Endpoint, World}
use uart2llm.Acceptance.Transfer.{json_request, upload_work, download_work}
use uart2llm.Acceptance.Stream.{stream_work}
use uart2llm.Acceptance.Jobs.{jobs_work}
use uart2llm.Acceptance.Measurements.{Measurements, Call, record_call}
use uart2llm.Acceptance.Measurements.Report.{OpReport, Report, report}

-- The arguments that are checked. `file_bytes` is any whole number.
pub record Options : Type 0 where
  pub seconds : Float
  pub file_bytes : ℤ
  pub timeout : Float
  pub telemetry_seconds : Float
  pub token : String

-- `1 <= file_bytes <= 1024 ** 3`
abbrev pub file_bytes_valid : ℤ → Bool
file_bytes_valid (pos n) = leb 1 n && leb n (1024 ^ 3)
file_bytes_valid (negsuc n) = false

abbrev pub file_size : ℤ → ℕ
file_size (pos n) = n
file_size (negsuc n) = 0

-- 0x4122750000000000 is 604800.0, 7 days, and 0x3ff0000000000000 is 1.0. A comparison with NaN fails.
pub options_valid : Arithmetic → Options → Bool
unfolding is_finite
options_valid fl o =
    (fl.less 0 o.seconds && not (fl.less 0x4122750000000000 o.seconds))
    && file_bytes_valid o.file_bytes
    && (is_finite o.timeout && fl.less 0 o.timeout)
    && (is_finite o.telemetry_seconds && not (fl.less o.telemetry_seconds 0x3ff0000000000000))

-- `value.get(k) ...` under a test that `value` is a dict: what is not there reads as None.
abbrev pub entry : String → Json → Json
entry k value = elim (Json.get k null value) [ ok v ↦ v | raise e ↦ null ]

-- One model of the upstream's list.
pub owned_model : Json → Bool
unfolding equals_str Json.get
owned_model value =
    is_dict value
    && equals_str model (entry "id" value)
    && equals_str "uart2llm-controlled-fixture" (entry "owned_by" value)

pub marker_valid : Json → Bool
unfolding equals_ℕ is_true equals_str Json.get
marker_valid marker =
    is_dict marker
    && equals_ℕ 1 (entry "version" marker)
    && is_true (entry "no_external_calls" marker)
    && equals_str "offset-mod-251" (entry "pattern" marker)

-- The check of the sentinel; the models are listed only where the marker is right.
pub check_fixture : Json → Result (Unit {0})
unfolding owned_model marker_valid iterate
check_fixture sentinel =
    let refused =
      raise (runtime_error "REFUSED: upstream is not the controlled uart2llm fixture") in
    do
      marker ← if is_dict sentinel then Json.get "uart2llm_fixture" empty sentinel else ok empty
      if not (marker_valid marker) then refused else (do
        listed ← Json.get "data" (arr nil) sentinel
        models ← iterate listed
        if not (any owned_model models) then refused else ok tt)

-- `operations`
pub data Operation : Type 0 where
  sse : Operation
  upload : Operation
  download : Operation
  jobs_models : Operation

abbrev pub operation_name : Operation → String
operation_name sse = "sse"
operation_name upload = "upload"
operation_name download = "download"
operation_name jobs_models = "jobs_models"

-- What one round of `worker` sees: the stop flag and the clock at the loop's test, the clock before
-- and after the work, and what `stop.wait` returns.
pub record Tick : Type 0 where
  pub stopped : Bool
  pub now : Float
  pub before : Float
  pub after : Float
  pub stop_wait : Bool

-- The run: the endpoint, the measurements, and the workers that have returned.
pub record RunState : Type 0 where
  pub endpoint : Endpoint
  pub metrics : Measurements
  pub returned : List Operation

pub same_operation : Operation → Operation → Bool
same_operation a b = str_eq (operation_name a) (operation_name b)

-- The arguments of `metrics.record` after the work; `text` is `str(error)` by its characters.
pub call_of : (Error → List ℕ) → String → Float → Result (ℕ × Option Float) → Call
call_of text name seconds (ok (count, first)) = record {
  operation = name;
  seconds = seconds;
  count = count;
  first_event = first;
  error = none;
}
call_of text name seconds (raise e) = record {
  operation = name;
  seconds = seconds;
  count = 0;
  first_event = none;
  error = some (record { name = class_name e; text = text e });
}

module _ (w : World) (h : Sha) (fl : Arithmetic) where
  -- `main` up to the start of the threads: the digest that the workers will expect.
  pub prepare : Options → Result Json → Result String
  unfolding options_valid check_fixture
  prepare o sentinel = do
    raise_if (not (options_valid fl o))
        (system_exit "invalid duration, file size, timeout or telemetry interval")
    raise_if (str_eq o.token "") (system_exit "set UART2LLM_API_TOKEN in the environment")
    answer ← sentinel
    check_fixture answer
    elim (pattern_hash h (file_size o.file_bytes)) [
      | none ↦ raise (runtime_error "the loop did not end")
      | some digest ↦ ok digest
    ]

  module _ (text : Error → List ℕ) (clock : ℕ → Float) (size : ℕ) (expected : String)
      (deadline : Float) where
    -- `clock` is what the stream's worker reads off the clock, by the bytes read so far.
    pub work_of : Operation → Endpoint → Result (ℕ × Option Float) × Endpoint
    unfolding jobs_work
    work_of sse = stream_work w clock
    work_of upload = upload_work w size expected
    work_of download = download_work w h size expected
    work_of jobs_models = jobs_work w

    -- The body of the worker's loop; it returns where the tick says stop.
    pub worker_round : Operation → Tick → RunState → RunState
    unfolding work_of call_of
    worker_round op tick s =
        if tick.stopped || not (fl.less tick.now deadline)
        then record s { returned = op ∷ s.returned }
        else let (result, endpoint) = work_of op s.endpoint in
          let seconds = fl.sub tick.after tick.before in
          record {
            endpoint = endpoint;
            metrics = record_call fl (call_of text (operation_name op) seconds result) s.metrics;
            returned = if not (is_ok result) && tick.stop_wait then op ∷ s.returned else s.returned;
          }

    -- A run, as the order in which the workers' rounds come to `record`, which each does once, at its
    -- end; a worker that returned has no more. A round is one step here; how the connections of the
    -- workers overlap is in Endpoint/Threads.
    pub run : List (Operation × Tick) → RunState → RunState
    unfolding worker_round same_operation
    run [] s = s
    run ((op, tick) ∷ rest) s =
        run rest (if any (same_operation op) s.returned then s else worker_round op tick s)

-- `all_workers_finished`
pub finished : RunState → Bool
unfolding same_operation
finished s =
    any (same_operation sse) s.returned
    && any (same_operation upload) s.returned
    && any (same_operation download) s.returned
    && any (same_operation jobs_models) s.returned

row_passes : String × OpReport → Bool
row_passes (name, row) = ltb 0 row.successes && row.failures == 0

-- `passed`, with or without the telemetry of the admin API.
pub passed : Bool → Bool → Bool → Report → Bool
unfolding row_passes
passed all_finished interrupted telemetry r =
    let software =
      all_finished && not interrupted && all row_passes r.operations && length r.operations == 4 in
    if telemetry
    then software && ltb 0 r.telemetry_samples && r.telemetry_failures == 0
    else software
