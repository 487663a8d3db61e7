-- ===== src/Acceptance/Endpoint/Tests.antt =====
-- Instances of the theorems on `Endpoint`.
use uart2llm.Prelude.{ℕ, ◌≡◌, arith, [], ◌∷◌, refl}
use uart2llm.Python.Error.{Result, ok}
use uart2llm.Acceptance.Samples.{world, endpoint}
use uart2llm.Acceptance.Endpoint.{Response, no_body, exchange}
use uart2llm.Acceptance.Endpoint.Connections.{IsValid, RoundTrip, exchange-RoundTrip}
use uart2llm.Acceptance.Endpoint.Threads.{
  Threads, opened_by, closed_by, aborted_by, opens, closes, aborts, Steps, done, next, AreHeld,
  Steps-AreHeld, AbortRun, ended, aborting,
}

abbrev work : Response → Result ℕ
work response = ok response.status

endpoint-IsValid : IsValid endpoint
endpoint-IsValid = (omega arith, tt)

exchange-RoundTrip_example :
    RoundTrip endpoint (exchange world "GET" "/v1/files" no_body [] work endpoint).1
exchange-RoundTrip_example =
    exchange-RoundTrip world work "GET" "/v1/files" no_body [] endpoint endpoint-IsValid

abbrev threads : Threads
threads = record { endpoint = endpoint; held = endpoint.active }

-- A worker opens a connection, `abort` closes it, and the worker closes it again.
abbrev overlapping : Steps threads (closed_by 2 (aborted_by 2 (opened_by threads)))
overlapping = next (opens _) (next (aborts 2 _) (next (closes 2 _) (done _)))

threads_held : AreHeld threads
threads_held = (refl, tt)

Steps-AreHeld_example :
    AreHeld (closed_by 2 (aborted_by 2 (opened_by threads)))
    × ((closed_by 2 (aborted_by 2 (opened_by threads))).held ≡ []
        → (closed_by 2 (aborted_by 2 (opened_by threads))).endpoint.active ≡ [])
Steps-AreHeld_example = Steps-AreHeld overlapping threads_held

-- A worker opens another connection while `abort` closes the one that it found.
abbrev aborted : AbortRun (1 ∷ []) threads (opened_by (aborted_by 1 (opened_by threads)))
aborted = aborting (next (opens _) (done _)) (ended (next (opens _) (done _)))
