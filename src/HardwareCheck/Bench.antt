-- ===== src/HardwareCheck/Bench.antt =====
-- scripts/hardware-check.py: what the script works on, and the functions that its phases share:
-- `request`, `check` and `wait_ready`.
use uart2llm.Prelude.{
  ℕ, zero, suc, ◌+◌, ◌-◌, String, Bool, true, false, Option, none, some, List, [], ◌∷◌, ◌++◌, not,
  ◌==◌, ltb, if◌then◌else◌,
}
use uart2llm.Python.Error.{
  Error, Result, ok, raise, attribute_error, key_error, index_error, type_error, overflow_error,
  value_error, runtime_error, assertion_error, os_error, timeout_error, connection_error,
  http_exception, timeout_expired, keyboard_interrupt, system_exit,
}
use uart2llm.Python.Exec.{Exec, lift, ◌>>=◌}
use uart2llm.Python.Json.{Json, obj, field, end, item_at}
use uart2llm.Redaction.{strict_sanitize}
use uart2llm.HardwareCheck.Judge.{ready_state}

-- One call of the management API: the path below /admin/v1, the method, the JSON body, and the
-- timeout in seconds.
pub record ApiCall : Type 0 where
  pub path : String
  pub method : String
  pub body : Option Json
  pub timeout : ℕ

-- What the script uses from outside: the daemon with the board behind it, the clock in milliseconds,
-- and files. `send` gives the status and the JSON value of the answer, also of an error status, or
-- raises; so does `upload`, the POST of an image. `seconds` is a number of milliseconds as seconds,
-- rounded to tenths.
pub record Lab : Type 1 where
  pub State : Type 0
  pub send : ApiCall → State → Result (ℕ × Json) × State
  pub upload : List ℕ → ℕ → State → Result (ℕ × Json) × State
  pub begin_upload : ℕ → List ℕ → State → Result (Unit {0}) × State
  pub drop_upload : State → State
  pub pause : ℕ → State → State
  pub now : State → ℕ
  pub alive : State → Bool
  pub await_exit : ℕ → State → Result (Unit {0}) × State
  pub terminate : State → State
  pub start_daemon : State → State
  pub new_name : State → String × State
  pub store_private : List ℕ → State → Result String × State
  pub decode_base64 : String → Result (List ℕ)
  pub sha256 : List ℕ → String
  pub seconds : ℕ → Json

-- An entry of `report['cases']`: the evidence of a case that passed, or the exception. An entry of an
-- exception that `except Exception` does not catch has neither a status nor an error.
pub record Case : Type 0 where
  pub name : String
  pub outcome : Result Json
  pub milliseconds : Option ℕ

-- `except (OSError, urllib.error.URLError)`
pub is_os_error : Error → Bool
is_os_error os_error = true
is_os_error (timeout_error _) = true
is_os_error (connection_error _) = true
is_os_error attribute_error = false
is_os_error key_error = false
is_os_error index_error = false
is_os_error type_error = false
is_os_error overflow_error = false
is_os_error (value_error _) = false
is_os_error (runtime_error _) = false
is_os_error (assertion_error _) = false
is_os_error http_exception = false
is_os_error timeout_expired = false
is_os_error keyboard_interrupt = false
is_os_error (system_exit _) = false

abbrev pub telemetry_patch : Json → Json
telemetry_patch value = obj (field "device" (obj (field "telemetry.interval_ms" value end)) end)

-- `report['partial_soak']`; a sample is the milliseconds since the start and the memory.
pub record PartialSoak : Type 0 where
  pub session : Json
  pub rounds_completed : ℕ
  pub samples : List (ℕ × Json)

module _ (lab : Lab) where
  -- The parts of the report that the script reads or changes, and `config_restore`.
  pub record Bench : Type 0 where
    pub state : lab.State
    pub cases : List Case
    pub config_restore : Json
    pub transport : Json
    pub partial_soak : Option PartialSoak

  -- An action of the outside alone.
  unfoldable pub outside : {A : Type 0} → (lab.State → Result A × lab.State) → Exec Bench A
  outside act b = let (r, s) = act b.state in (r, record b { state = s })

  unfoldable pub sleep : ℕ → Exec Bench (Unit {0})
  unfolding outside
  sleep ms = outside (λ s. (ok tt, lab.pause ms s))

  unfoldable pub read_clock : Exec Bench ℕ
  unfolding outside
  read_clock = outside (λ s. (ok (lab.now s), s))

  -- The status is checked after the body has been parsed.
  unfoldable pub expect_status : ℕ → Result (ℕ × Json) → Result Json
  expect_status expected (raise e) = raise e
  expect_status expected (ok (status, value)) =
      if status == expected then ok value else raise (assertion_error "unexpected HTTP status")

  unfoldable pub request : String → String → Option Json → ℕ → Exec Bench Json
  unfolding outside expect_status
  request path method body expected = outside (λ s.
      let call : ApiCall = record { path = path; method = method; body = body; timeout = 40 } in
      let (answer, s') = lab.send call s in (expect_status expected answer, s'))

  abbrev pub get : String → Exec Bench Json
  get path = request path "GET" none 200

  abbrev pub post : String → Option Json → Exec Bench Json
  post path body = request path "POST" body 200

  -- `request(path)[k1][k2]...`
  abbrev pub get_at : String → List String → Exec Bench Json
  get_at path keys = get path >>= λ value. lift (item_at keys value)

  module _ (lower_other : ℕ → List ℕ) where
    -- `sanitize(value)` of a case that passed.
    unfoldable pub evidence : Result Json → Result Json
    evidence (ok value) = ok (strict_sanitize lower_other value)
    evidence (raise e) = raise e

    -- The case is recorded in any case, and the exception goes on.
    unfoldable pub check : String → Exec Bench Json → Exec Bench Json
    unfolding evidence
    check name action b =
        let (r, b') = action b in
        let entry : Case = record {
          name = name;
          outcome = evidence r;
          milliseconds = some (lab.now b'.state - lab.now b.state);
        } in
        (r, record b' { cases = b'.cases ++ (entry ∷ []) })

  -- The test of one state in `wait_ready`.
  unfoldable pub ready : Bool → Json → (Json → Result Bool) → Json → Result Bool
  unfolding ready_state
  ready paired old predicate state = elim (ready_state paired old state) [
    | raise e ↦ raise e
    | ok false ↦ ok false
    | ok true ↦ predicate state
  ]

  -- What one round of the loop makes of the state: none goes on to the pause.
  unfoldable pub round_result : Result Json → Result Bool → Option (Result Json)
  round_result (raise e) test = if is_os_error e then none else some (raise e)
  round_result (ok state) (raise e) = if is_os_error e then none else some (raise e)
  round_result (ok state) (ok true) = some (ok state)
  round_result (ok state) (ok false) = none

  unfoldable pub tested : (Json → Result Bool) → Result Json → Result Bool
  tested test (ok state) = test state
  tested test (raise e) = raise e

  -- The loop of `wait_ready`, on fuel: each round that goes on pauses for half a second.
  unfoldable pub wait_rounds : ℕ → ℕ → (Json → Result Bool) → Exec Bench Json
  unfolding request round_result tested outside
  wait_rounds zero deadline test b = (raise (runtime_error "the loop did not end"), b)
  wait_rounds (suc fuel) deadline test b =
      let (answer, b') = get "/state" b in
      let later = wait_rounds fuel deadline test (record b' { state = lab.pause 500 b'.state }) in
      if not (ltb (lab.now b.state) deadline)
      then (raise (timeout_error "device/daemon readiness deadline"), b)
      else if not (lab.alive b.state)
      then (raise (runtime_error "daemon exited; inspect private daemon log"), b)
      else elim (round_result answer (tested test answer)) [ none ↦ later | some r ↦ (r, b') ]

  -- 35 seconds; a round that goes on takes half a second at least, so that 71 rounds are enough.
  unfoldable pub wait_ready : Bool → Json → (Json → Result Bool) → Exec Bench Json
  unfolding wait_rounds ready
  wait_ready paired old predicate b =
      wait_rounds 71 (lab.now b.state + 35000) (ready paired old predicate) b

  abbrev pub any_state : Json → Result Bool
  any_state state = ok true
