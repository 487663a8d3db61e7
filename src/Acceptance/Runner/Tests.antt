-- ===== src/Acceptance/Runner/Tests.antt =====
-- Runs of the acceptance runner, and instances of its theorems.
use uart2llm.Prelude.{ℕ, ◌≡◌, ◌≢◌, ◌≤◌, refl, true, false, List, [], ◌∷◌, arith, length, codes, All}
use uart2llm.Prelude.Int.{pos}
use uart2llm.Python.Error.{Error, ok, ◌>>=◌, class_name}
use uart2llm.Python.Float.{is_finite}
use uart2llm.Python.Dict
use uart2llm.Python.Json.{Json, bool, str, int, arr, obj, nil, cons, field, end}
use uart2llm.Acceptance.Samples.{
  world, clock, arithmetic, endpoint, recorder, recorder-Streams, marks,
}
use uart2llm.Acceptance.Pattern.Bytes.{fixture_bytes}
use uart2llm.Acceptance.Pattern.Laws.{pattern_hash-eq}
use uart2llm.Acceptance.Endpoint.{model, exchange}
use uart2llm.Acceptance.Transfer.{upload_work, download_work, json_request}
use uart2llm.Acceptance.Stream.{stream_work}
use uart2llm.Acceptance.Jobs.Checks.{check_job, check_events, check_model}
use uart2llm.Acceptance.Jobs.{jobs_work, ask}
use uart2llm.Acceptance.Endpoint.Connections.{IsValid}
use uart2llm.Acceptance.Measurements.{fresh, record_call}
use uart2llm.Acceptance.Measurements.Report.{report}
use uart2llm.Acceptance.Runner.{
  Options, options_valid, file_size, prepare, check_fixture, Operation, sse, upload, download,
  jobs_models, Tick, RunState, work_of, run, finished, passed,
}
use uart2llm.Acceptance.Runner.Gate.{InRange, IsFixture, prepare_safe}
use uart2llm.Acceptance.Runner.Connections.{Settled, work_of_settles}
use uart2llm.Acceptance.Runner.Verdict.{passed-run}
use uart2llm.Acceptance.Runner.Works.{Succeeded, works_of}

abbrev text : Error → List ℕ
text e = codes (class_name e)

endpoint-IsValid : IsValid endpoint
endpoint-IsValid = (omega arith, tt)

abbrev begin : RunState
begin = record { endpoint = endpoint; metrics = fresh; returned = [] }

abbrev go : Tick
go = record { stopped = false; now = 1; before = 1; after = 2; stop_wait = false }

abbrev over : Tick
over = record { stopped = false; now = 9; before = 9; after = 9; stop_wait = false }

-- Each worker works once and returns at the deadline.
abbrev rounds : List (Operation × Tick)
rounds =
    (sse, go)
    ∷ (upload, go)
    ∷ (download, go)
    ∷ (jobs_models, go)
    ∷ (sse, over)
    ∷ (upload, over)
    ∷ (download, over)
    ∷ (jobs_models, over)
    ∷ []

work_of_settles_example :
    Settled endpoint (work_of world recorder arithmetic text clock 1 "x" 5 jobs_models endpoint).1
work_of_settles_example =
    work_of_settles world recorder arithmetic text clock 1 "x" 5 jobs_models endpoint
      endpoint-IsValid

abbrev options : Options
options = record {
  seconds = 30;
  file_bytes = pos 2;
  timeout = 600;
  telemetry_seconds = 0x3ff0000000000000;
  token = "token";
}

abbrev sentinel : Json
sentinel = obj (
    field "uart2llm_fixture"
      (obj (
        field "version" (int (pos 1))
          (field "no_external_calls" (bool true) (field "pattern" (str "offset-mod-251") end))))
      (field "data"
        (arr (
          cons
            (obj
              (field "id" (str model) (field "owned_by" (str "uart2llm-controlled-fixture") end)))
            nil))
        end))

prepared : prepare world recorder arithmetic options (ok sentinel) ≡ ok "xx"
unfolding prepare options_valid check_fixture is_finite marks ◌>>=◌ fixture_bytes
prepared = rw (pattern_hash-eq recorder recorder-Streams 2) refl

prepare_safe_example :
    InRange arithmetic options
    × (options.token ≢ "")
    × ((v : Json) × (ok sentinel ≡ ok v) × IsFixture v)
    × ("xx"
        ≡ recorder.hexdigest
            (recorder.update recorder.start (fixture_bytes 0 (file_size options.file_bytes))))
prepare_safe_example =
    prepare_safe world recorder arithmetic recorder-Streams options (ok sentinel) "xx" prepared

run_passes :
    passed
      (finished (run world recorder arithmetic text clock 1 "x" 5 rounds begin))
      false
      false
      (report arithmetic 9 (run world recorder arithmetic text clock 1 "x" 5 rounds begin).metrics)
    ≡ true
unfolding passed finished run report exchange stream_work upload_work download_work jobs_work ask
    json_request check_job check_events check_model record_call Dict.insert Dict.lookup ◌>>=◌ marks
run_passes = refl

passed-run_example :
    All Succeeded (works_of world recorder arithmetic text clock 1 "x" 5 rounds begin)
    × (4 ≤ length (works_of world recorder arithmetic text clock 1 "x" 5 rounds begin))
passed-run_example =
    passed-run world recorder arithmetic text clock 1 "x" 5 rounds begin 9 false false refl
      run_passes
