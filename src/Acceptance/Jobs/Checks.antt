-- ===== src/Acceptance/Jobs/Checks.antt =====
-- scripts/acceptance.py: the tests of `jobs_work` on the three replies.
use uart2llm.Prelude.{not, ◌||◌, if◌then◌else◌}
use uart2llm.Python.Error.{Result, raise, ◌>>=◌, raise_if, runtime_error}
use uart2llm.Python.Json
use uart2llm.Python.Json.{Json, null, equals_str, truthy, item, first_item}
use uart2llm.Acceptance.Endpoint.{model}

-- The three tests of `jobs_work`.
unfoldable pub check_job : Json → Result (Unit {0})
unfolding equals_str Json.get
check_job created = do
  id ← Json.get "id" null created
  status ← Json.get "status" null created
  raise_if (not (equals_str "ftjob-fixture" id) || not (equals_str "succeeded" status))
      (runtime_error "unexpected fixture job")

unfoldable pub check_events : Json → Result (Unit {0})
unfolding truthy item first_item
check_events events = do
  listed ← Json.get "data" null events
  if not (truthy listed) then raise (runtime_error "job events did not survive proxying") else (do
    entries ← item "data" events
    event ← first_item entries
    id ← Json.get "id" null event
    raise_if (not (equals_str "event-fixture" id))
        (runtime_error "job events did not survive proxying"))

unfoldable pub check_model : Json → Result (Unit {0})
unfolding equals_str Json.get
check_model found = do
  id ← Json.get "id" null found
  raise_if (not (equals_str model id)) (runtime_error "model resource mismatch")
