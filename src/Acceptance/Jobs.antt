-- ===== src/Acceptance/Jobs.antt =====
-- scripts/acceptance.py: `jobs_work`.
pub mod Checks
use uart2llm.Prelude.{ℕ, String, Option, none, some, ◌∷◌}
use Prim.Native.String.{◌++◌ as ◌<>◌}
use uart2llm.Python.Error.{Result}
use uart2llm.Python.Exec.{Exec, pure, lift, ◌>>=◌, ◌>>◌}
use uart2llm.Python.Float.{Float}
use uart2llm.Python.Json.{Json, str, obj, field, end}
use uart2llm.Acceptance.Endpoint.{model, Endpoint, World}
use uart2llm.Acceptance.Transfer.{json_request}
use Checks.{check_job, check_events, check_model}

module _ (w : World) where
  -- One request, and the test of its reply.
  unfoldable pub ask :
      String → String → Option Json → (Json → Result (Unit {0})) → Exec Endpoint (Unit {0})
  ask method path value check = do answer ← json_request w method path value; lift (check answer)

  abbrev pub ask_job : Exec Endpoint (Unit {0})
  ask_job =
      ask "POST" "/v1/fine_tuning/jobs"
        (some (obj (field "training_file" (str "file-fixture") (field "model" (str model) end))))
        check_job

  abbrev pub ask_events : Exec Endpoint (Unit {0})
  ask_events = ask "GET" "/v1/fine_tuning/jobs/ftjob-fixture/events" none check_events

  abbrev pub ask_model : Exec Endpoint (Unit {0})
  ask_model = ask "GET" ("/v1/models/" <> model) none check_model

  unfoldable pub jobs_work : Exec Endpoint (ℕ × Option Float)
  jobs_work = do ask_job; ask_events; ask_model; pure (0, none)
