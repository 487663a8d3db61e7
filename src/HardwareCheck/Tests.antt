-- ===== src/HardwareCheck/Tests.antt =====
-- scripts/hardware-check.py: tests, and the theorems at concrete inputs.
use uart2llm.Prelude.{
  ℕ, ◌+◌, ◌*◌, ◌≡◌, ◌≤◌, refl, sym, ap, ◌∙◌, arith, String, Bool, true, false, Option, some, List,
  [], ◌∷◌, none, str_eq, if◌then◌else◌,
}
use mathlib.Core.Option
use uart2llm.Prelude.Int.{pos}
use uart2llm.Python.Error
use uart2llm.Python.Error.{Result, ok, raise, ok-injective, keyboard_interrupt, is_exception}
use uart2llm.Python.Float.{Arithmetic}
use uart2llm.Python.Json
use uart2llm.Python.Json.{
  truthy, equals_ℕ, iterate, Json, null, bool, int, str, arr, obj, field, end, nil, cons, item,
  item_at,
}
use uart2llm.Python.Json.Equality.{equals, hashable, is_null}
use uart2llm.HardwareCheck.Judge.{
  interval, ready_state, tasks_distinct, task_ids, no_duplicates, distinct, capable,
}
use uart2llm.HardwareCheck.Soak.{tasks_snapshot, load_rounds}
use uart2llm.HardwareCheck.Bench.{
  PartialSoak, check, evidence, request, outside, wait_rounds, round_result, tested, expect_status,
  ApiCall, Lab, Bench, ready, wait_ready, any_state,
}
use uart2llm.HardwareCheck.Run.{
  phases, pair_device, identify, common_cases, phase_cases, handshake, note_auto_pairing,
  set_transport, auto_paired, check_options, needs_image, has_image, needs_validation, clean_up,
  cleaned_by, await_daemon, ignored, stop_daemon, finish, ending_of, exit_code, failure_of, Ending,
  Arguments, smoke, RunReport, main, first_bench, report_of,
}
use uart2llm.HardwareCheck.Plan.Verdict.{Planned, main-Planned}
use uart2llm.HardwareCheck.Plan.Remembers.{Numbered}
use uart2llm.HardwareCheck.Rounds.{Loads, load_rounds-Loads}
use uart2llm.HardwareCheck.Wait.{Clock, Waits, wait_ready-Waits}

abbrev one : String → Json → Json
one key value = obj (field key value end)

abbrev paired_state : Json
paired_state = obj (
    field "connection"
      (obj (field "link" (one "session" (str "s1")) (field "paired" (bool true) end)))
      (field "device" (one "session" (str "s1")) end))

abbrev capabilities : Json
capabilities = one "device" (
    obj (
      field "flash_bytes" (int (pos 16777216))
        (field "psram_bytes" (int (pos 8388608)) (field "transport" (str "uart") end))))

abbrev configuration_answer : Json
configuration_answer = one "device" (
    obj (
      field "pending" (bool false)
        (field "persisted" (one "telemetry.interval_ms" (int (pos 1000))) end)))

abbrev task_list : Json
task_list = one "device" (arr (cons (one "id" (int (pos 1))) (cons (one "id" (int (pos 2))) nil)))

abbrev answer_to : String → Json
answer_to path =
    if str_eq path "/state"
    then paired_state
    else if str_eq path "/connect"
    then one "paired" (bool true)
    else if str_eq path "/capabilities"
    then capabilities
    else if str_eq path "/tasks"
    then task_list
    else if str_eq path "/config"
    then configuration_answer
    else obj end

-- A lab whose state is the time alone: a request takes a millisecond.
abbrev bench_lab : Lab
bench_lab = record {
  State = ℕ;
  send = λ (call : ApiCall) t. (ok (200, answer_to call.path), t + 1);
  upload = λ image timeout t. (ok (200, obj end), t + 1);
  begin_upload = λ size first t. (ok tt, t + 1);
  drop_upload = λ t. t;
  pause = λ ms t. t + ms;
  now = λ t. t;
  alive = λ t. true;
  await_exit = λ seconds t. (ok tt, t);
  terminate = λ t. t;
  start_daemon = λ t. t;
  new_name = λ t. ("0a", t);
  store_private = λ bytes t. (ok "crash.bin", t);
  decode_base64 = λ text. ok [];
  sha256 = λ bytes. "digest";
  seconds = λ ms. int (pos ms);
}

abbrev bench_clock : Clock bench_lab
bench_clock = record { pauses = λ ms s. omega arith; sends = λ call s. omega arith }

abbrev integers : Arithmetic
integers = record {
  add = λ x y. x + y;
  sub = λ x y. x;
  mul = λ x y. x * y;
  div = λ x y. x;
  less = λ x y. false;
  of_int = λ z. 0;
  round3 = λ x. x;
}

abbrev same_letter : ℕ → List ℕ
same_letter c = c ∷ []

abbrev smoke_options : Arguments
smoke_options = record {
  port = "COM5";
  pairing = null;
  phase = smoke;
  image = none;
  duration = 300;
  upload_timeout = 1200;
  report_exists = false;
}

abbrev started_bench : Bench bench_lab
started_bench = first_bench bench_lab same_letter 0

reported_by :
    (state connect capable tasks config : Bool) (value : Json)
    → item_at ("device" ∷ "persisted" ∷ interval ∷ []) (
        if state
        then paired_state
        else if connect
        then one "paired" (bool true)
        else if capable
        then capabilities
        else if tasks
        then task_list
        else if config
        then configuration_answer
        else obj end)
      ≡ ok value
    → is_null value ≡ false
unfolding item_at item Error.◌>>=◌
reported_by true connect capable tasks config value h = cc
reported_by false true capable tasks config value h = cc
reported_by false false true tasks config value h = cc
reported_by false false false true config value h = cc
reported_by false false false false true value h = rw (sym (ok-injective h)) refl
reported_by false false false false false value h = cc

bench_numbered : Numbered bench_lab
bench_numbered = record {
  reported = λ call s status answer value sent found.
      let same : (200, answer_to call.path) ≡ (status, answer) = ok-injective sent in
      reported_by (str_eq call.path "/state") (str_eq call.path "/connect")
        (str_eq call.path "/capabilities") (str_eq call.path "/tasks") (str_eq call.path "/config")
        value (ap (λ p. item_at ("device" ∷ "persisted" ∷ interval ∷ []) p.1) same ∙ found);
}

smoke_code : (main bench_lab same_letter integers smoke_options 0).0.code ≡ ok 0
unfolding main phases pair_device identify common_cases phase_cases handshake check evidence request
    outside wait_ready wait_rounds ready ready_state round_result tested expect_status
    note_auto_pairing set_transport auto_paired item_at item tasks_snapshot tasks_distinct task_ids
    no_duplicates distinct hashable capable check_options needs_image has_image needs_validation
    clean_up cleaned_by await_daemon ignored stop_daemon finish ending_of exit_code report_of
    first_bench Error.◌>>=◌ Json.get truthy equals_ℕ iterate Json.lookup equals
smoke_code = refl

main-Planned_example :
    Planned bench_lab same_letter smoke_options
      (main bench_lab same_letter integers smoke_options 0).0
main-Planned_example =
    main-Planned bench_lab same_letter bench_numbered integers smoke_options 0 smoke_code

-- A lab where the operator interrupts the run at the registry of the configuration.
abbrev interrupted_lab : Lab
interrupted_lab = record bench_lab {
  send = λ (call : ApiCall) (t : ℕ).
      if str_eq call.path "/config/schema"
      then (raise keyboard_interrupt, t + 1)
      else (ok (200, answer_to call.path), t + 1);
}

passed_of : Ending → Option Bool
passed_of ending = Option.map (λ (report : RunReport). report.passed) ending.written

-- The interrupt goes on, and the report that is written says `passed` all the same.
interrupted_run :
    let ending = (main interrupted_lab same_letter integers smoke_options 0).0 in
    (ending.code ≡ raise keyboard_interrupt) × (passed_of ending ≡ some true)
unfolding main phases pair_device identify common_cases phase_cases handshake check evidence request
    outside wait_ready wait_rounds ready ready_state round_result tested expect_status
    note_auto_pairing set_transport auto_paired item_at item tasks_snapshot tasks_distinct task_ids
    no_duplicates distinct hashable capable check_options needs_image has_image needs_validation
    clean_up cleaned_by await_daemon ignored stop_daemon finish ending_of exit_code report_of
    first_bench Error.◌>>=◌ Json.get truthy equals_ℕ iterate Json.lookup equals failure_of
    is_exception passed_of
interrupted_run = (refl, refl)

wait_ready-Waits_example :
    let whole : Result Json × Bench bench_lab =
      wait_ready bench_lab true (str "s0") (any_state bench_lab) started_bench in
    Waits bench_lab (ready bench_lab true (str "s0") (any_state bench_lab)) 35000 whole.0 whole.1
unfolding first_bench
wait_ready-Waits_example =
    wait_ready-Waits bench_lab bench_clock true (str "s0") (any_state bench_lab) started_bench

load_start : 0 ≤ bench_lab.now started_bench.state
unfolding first_bench
load_start = omega arith

load_rounds-Loads_example :
    let first : PartialSoak = record { session = str "s1"; rounds_completed = 0; samples = [] } in
    let whole : Result PartialSoak × Bench bench_lab =
      load_rounds bench_lab 4 integers (str "s1") 0 3000 first started_bench in
    Loads bench_lab integers (str "s1") 0 3000 3 whole.0 whole.1
load_rounds-Loads_example =
    load_rounds-Loads bench_lab bench_clock integers (str "s1") 0 3 started_bench load_start
