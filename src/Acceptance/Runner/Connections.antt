-- ===== src/Acceptance/Runner/Connections.antt =====
-- The connections that each worker of scripts/acceptance.py opens in one work.
use uart2llm.Prelude.{ℕ, ◌≡◌, refl, ◌∙◌, String, Option, none, some, List}
use uart2llm.Python.Error.{Error, Result, ok, raise}
use uart2llm.Python.Exec.{Exec, pure, lift, continue, ◌>>=◌, ◌>>◌}
use uart2llm.Python.Float.{Float, Arithmetic}
use uart2llm.Python.Json.{Json}
use uart2llm.Acceptance.Pattern.{Sha}
use uart2llm.Acceptance.Endpoint.{Endpoint, World}
use uart2llm.Acceptance.Endpoint.Connections.{IsValid, exchange-RoundTrip, exchange-IsValid}
use uart2llm.Acceptance.Transfer.{json_request, upload_work, download_work}
use uart2llm.Acceptance.Stream.{stream_work}
use uart2llm.Acceptance.Jobs.{ask, ask_job, ask_events, ask_model, jobs_work}
use uart2llm.Acceptance.Runner.{Operation, sse, upload, download, jobs_models, work_of}

-- The same connections are open as before, and numbers are still not used twice.
pub record Settled (before after : Endpoint) : Type 0 where
  pub active : after.active ≡ before.active
  pub valid : IsValid after

-- An action on the endpoint that leaves it settled.
abbrev Settles : {A : Type 0} → Exec Endpoint A → Type 0
Settles m = (ep : Endpoint) → IsValid ep → Settled ep (m ep).1

Settles-bind :
    {A B : Type 0} (m : Exec Endpoint A) (f : A → Exec Endpoint B)
    → Settles m
    → ((a : A) → Settles (f a))
    → Settles (m >>= f)
Settles-bind {A} {B} m f first next ep h = settle (m ep).0 (m ep).1 (first ep h)
  where
    settle : (r : Result A) (ep' : Endpoint) → Settled ep ep' → Settled ep (continue r f ep').1
    settle (raise e) ep' s = s
    settle (ok a) ep' s =
        let t = next a ep' s.valid in record { active = t.active ∙ s.active; valid = t.valid }

Settles-lift : {A : Type 0} (r : Result A) → Settles (lift {S = Endpoint} r)
Settles-lift r ep h = record { active = refl; valid = h }

module _ (w : World) where
  Settles-json_request :
      (method path : String) (value : Option Json) → Settles (json_request w method path value)
  unfolding json_request
  Settles-json_request method path none ep h = record {
    active = (exchange-RoundTrip w _ method path _ _ ep h).active;
    valid = exchange-IsValid w _ method path _ _ ep h;
  }
  Settles-json_request method path (some v) ep h = record {
    active = (exchange-RoundTrip w _ method path _ _ ep h).active;
    valid = exchange-IsValid w _ method path _ _ ep h;
  }

  Settles-ask :
      (method path : String) (value : Option Json) (check : Json → Result (Unit {0}))
      → Settles (ask w method path value check)
  unfolding ask
  Settles-ask method path value check =
      Settles-bind (json_request w method path value) (λ answer. lift (check answer))
        (Settles-json_request method path value) (λ answer. Settles-lift (check answer))

  Settles-jobs_work : Settles (jobs_work w)
  unfolding jobs_work
  Settles-jobs_work =
      let count : Exec Endpoint (ℕ × Option Float) = pure (0, none) in
      Settles-bind (ask_job w) (λ _. ask_events w >> (ask_model w >> count)) (Settles-ask _ _ _ _)
        (λ _.
          Settles-bind (ask_events w) (λ _. ask_model w >> count) (Settles-ask _ _ _ _)
            (λ _.
              Settles-bind (ask_model w) (λ _. count) (Settles-ask _ _ _ _)
                (λ _. Settles-lift {A = ℕ × Option Float} (ok (0, none)))))

  module _ (h : Sha) (fl : Arithmetic) (text : Error → List ℕ) (clock : ℕ → Float) (size : ℕ)
      (expected : String) (deadline : Float) where
    -- Each worker's work, done once, leaves open exactly the connections that were open, whether it
    -- succeeds or fails, if every open connection was opened before.
    pub work_of_settles :
        (op : Operation) (ep : Endpoint)
        → IsValid ep
        → Settled ep (work_of w h fl text clock size expected deadline op ep).1
    unfolding work_of stream_work upload_work download_work
    work_of_settles sse ep valid = record {
      active = (exchange-RoundTrip w _ _ _ _ _ ep valid).active;
      valid = exchange-IsValid w _ _ _ _ _ ep valid;
    }
    work_of_settles upload ep valid = record {
      active = (exchange-RoundTrip w _ _ _ _ _ ep valid).active;
      valid = exchange-IsValid w _ _ _ _ _ ep valid;
    }
    work_of_settles download ep valid = record {
      active = (exchange-RoundTrip w _ _ _ _ _ ep valid).active;
      valid = exchange-IsValid w _ _ _ _ _ ep valid;
    }
    work_of_settles jobs_models ep valid = Settles-jobs_work ep valid
